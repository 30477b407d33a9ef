-- ===== src/DevSync/Paths.antt =====
-- The paths on the device: what the listing prints is read back, and only harmless names are fetched.
use homeconnect.DevSync.{parse_remote_path, realdata_dir, remote_path, with_dir, with_seg}
use homeconnect.Prelude.{[], arith, false, is_empty, refl, some, ℕ, ◌++◌, ◌<◌, ◌∷◌, ◌≡◌}
use homeconnect.Prelude.Decimal.{
  AllDigits, i64_half, is_digit, parse_i64-show_ℕ, show_ℕ, show_ℕ-AllDigits, show_ℤ,
}
use homeconnect.Prelude.Int.{pos}
use homeconnect.Prelude.Split.{Without, split_once-append, trim_start_matches}
use homeconnect.Prelude.Text.{Text, strip_prefix-append, t}
use homeconnect.Storage.Keys.{rsplit_number}

Without-append : (c : ℕ) (a b : Text) → Without c a → Without c b → Without c (a ++ b)
Without-append c [] b h k = k
Without-append c (d ∷ a) b h k = (h.0, Without-append c a b h.1 k)

pub digits_slash : (s : Text) → AllDigits s → Without b'/' s
unfolding is_digit
digits_slash [] h = tt
digits_slash (c ∷ s) h = (ground arith, digits_slash s h.1)

-- The path `{REALDATA_DIR}/{ts}--{seg}/{file}` is read as its three parts, for names that are not empty,
-- a timestamp without '/' and a segment below 2^63.
pub parse_remote_path-remote_path :
    (ts file : Text) (seg : ℕ)
    → seg < i64_half
    → Without b'/' ts
    → is_empty ts ≡ false
    → is_empty file ≡ false
    → parse_remote_path (remote_path ts (pos seg) file) ≡ some (ts, (pos seg, file))
unfolding parse_remote_path remote_path show_ℤ with_dir with_seg
parse_remote_path-remote_path [] file seg w h p q = ground arith
parse_remote_path-remote_path (c ∷ ts) file seg w h p q =
    rw
      (
        strip_prefix-append realdata_dir
            (b'/' ∷ ((c ∷ ts) ++ t "--" ++ show_ℕ seg) ++ (b'/' ∷ file)),
        trims,
        parse_remote_path,
        split_once-append b'/' ((c ∷ ts) ++ t "--" ++ show_ℕ seg) file no_slash,
        rsplit_number (c ∷ ts) seg,
        with_dir,
        parse_i64-show_ℕ seg w,
        q,
      )
      refl
  where
    dashes : Without b'/' (t "--")
    dashes = unfold t in ground arith

    no_slash : Without b'/' ((c ∷ ts) ++ t "--" ++ show_ℕ seg)
    no_slash = (
      h.0,
      Without-append b'/' (ts ++ t "--") (show_ℕ seg) (Without-append b'/' ts (t "--") h.1 dashes)
          (digits_slash (show_ℕ seg) (show_ℕ-AllDigits seg)),
    )

    trims :
        trim_start_matches b'/' (b'/' ∷ ((c ∷ ts) ++ t "--" ++ show_ℕ seg) ++ (b'/' ∷ file))
        ≡ ((c ∷ ts) ++ t "--" ++ show_ℕ seg) ++ (b'/' ∷ file)
    trims = unfold trim_start_matches in ground (arith, h.0)
