-- ===== src/Examples/Subtitles.antt =====
-- The theorems on subtitles, applied to two cues with whole seconds and to the household.
use homeconnect.AppState.{AppState}
use homeconnect.Examples.{alice}
use homeconnect.Examples.Logs.{tables, whole}
use homeconnect.Prelude.{
  All, List, [], any, err, false, forbidden, if◌then◌else◌, is_empty, is_some, ltb, none, refl,
  some, true, ◌%◌, ◌&&◌, ◌++◌, ◌==◌, ◌∷◌, ◌≡◌, ◌⊎◌,
}
use homeconnect.Prelude.Decimal.{parse_u64, show_ℕ, show_ℤ}
use homeconnect.Prelude.Split.{any-Without, join, split, split_once}
use homeconnect.Prelude.Text.{Text, strip_prefix, t, trim, trim_end, trim_start}
use homeconnect.Storage.{fullname_of}
use homeconnect.Subs.{needs_subs, sub_row}
use homeconnect.Subs.Lifecycle.{is_audible}
use homeconnect.Subs.Rebuild.{rebuild_subs, rebuild_subs_lem}
use homeconnect.Subs.Vtt.{
  Cue, FloatTexts, fmt_ts, parse_vtt, render_vtt, strip_cr, timing, timing_line,
}
use homeconnect.Subs.Vtt.RoundTrip.{IsLine, IsWritable, parse_vtt-render_vtt}

-- Seconds with three places, all zero.
abbrev zeros : FloatTexts whole
zeros = record {
  parse = λ s. elim (split_once b'.' s) [ none ↦ parse_u64 s | some (a, b) ↦ parse_u64 a ];
  print_06_3 = λ n. (if ltb n 10 then b'0' ∷ show_ℕ n else show_ℕ n) ++ t ".000";
  rem = λ x y. x % y;
  floor = λ x. x;
}

abbrev spoken : List (Cue whole zeros)
spoken =
    record { start = 3; end = 65; text = t "hello" }
    ∷ record { start = 70; end = 71; text = join 10 (t "one" ∷ t "two" ∷ []) }
    ∷ []

plain-IsLine :
    (l : Text)
    → any (λ d. d == 10) l ≡ false
    → strip_cr l ≡ l
    → trim l ≡ l
    → is_empty l ≡ false
    → IsLine l
plain-IsLine l a b c d = (any-Without 10 l a, b, c, d)

written-IsWritable :
    (c : Cue whole zeros) (l : Text) (ls : List Text)
    → c.text ≡ join 10 (l ∷ ls)
    → All IsLine (l ∷ ls)
    → any (λ d. d == 10) (timing_line whole zeros c) ≡ false
    → strip_cr (timing_line whole zeros c) ≡ timing_line whole zeros c
    → timing whole zeros (timing_line whole zeros c) ≡ some (c.start, c.end)
    → IsWritable whole zeros c
written-IsWritable c l ls x a n r h =
    (l, ls, x, a, any-Without 10 (timing_line whole zeros c) n, r, h)

vtt_example : parse_vtt whole zeros (render_vtt whole zeros spoken) ≡ spoken
unfolding timing_line timing t strip_cr fmt_ts trim trim_start trim_end join show_ℤ strip_prefix
    split split_once parse_u64
vtt_example = parse_vtt-render_vtt whole zeros spoken (
  written-IsWritable (record { start = 3; end = 65; text = t "hello" }) (t "hello") [] refl
      (plain-IsLine (t "hello") refl refl refl refl, tt) refl refl refl,
  (
    written-IsWritable (record { start = 70; end = 71; text = join 10 (t "one" ∷ t "two" ∷ []) })
        (t "one") (t "two" ∷ []) refl
        (
          plain-IsLine (t "one") refl refl refl refl,
          (plain-IsLine (t "two") refl refl refl refl, tt),
        )
        refl refl refl,
    tt,
  ),
)

-- The user has deleted the drive's subtitles.
abbrev quiet : AppState
quiet = record tables.app {
  db = record tables.app.db {
    subs =
        record {
          fullname = fullname_of (100 ∷ []) (116 ∷ []);
          seg_count = 1;
          cues = 0;
          bytes = 0;
          disabled = 1;
        }
        ∷ [];
  };
}

rebuild_example :
    ((alice.is_admin ≡ 0)
      × (rebuild_subs alice quiet ≡ (err (forbidden (t "admin required")), quiet)))
    ⊎ (((alice.is_admin == 0) ≡ false)
        × (needs_subs
              (rebuild_subs alice quiet).1
              (fullname_of (100 ∷ []) (116 ∷ []))
              (100 ∷ [])
              (116 ∷ [])
            ≡ (if true && is_some (sub_row (fullname_of (100 ∷ []) (116 ∷ [])) quiet.db)
                then false
                else is_audible quiet.db (fullname_of (100 ∷ []) (116 ∷ [])))))
rebuild_example = rebuild_subs_lem alice quiet (100 ∷ []) (116 ∷ []) true (λ h. refl, tt)
