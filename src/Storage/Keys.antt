-- ===== src/Storage/Keys.antt =====
-- The keys: the file name stays in its directory, and a segment's key determines segment and file.
use homeconnect.Prelude.{[], arith, drop, none, ok, refl, some, take, ℕ, ◌++◌, ◌∷◌, ◌≡◌, ◌≢◌}
use homeconnect.Prelude.Decimal.{AllDigits, is_digit, show_ℕ, show_ℕ-AllDigits}
use homeconnect.Prelude.Split.{Without, rsplit_once, rsplit_once-append, split_once-append}
use homeconnect.Prelude.Text.{Text, t}
use homeconnect.Storage.{BlobStore, fullname_of, path_for, sanitize, split_fullname}

abbrev pub IsFileName : Text → Type 0
IsFileName [] = Unit {0}
IsFileName (c ∷ s) = (c ≢ b'/') × (c ≢ 92) × (c ≢ 0) × IsFileName s

sanitize-IsFileName : (s : Text) → IsFileName (sanitize s)
unfolding sanitize
sanitize-IsFileName [] = tt
sanitize-IsFileName (c ∷ s) = (ground arith, ground arith, ground arith, sanitize-IsFileName s)

sanitize_same : (s : Text) → IsFileName s → sanitize s ≡ s
unfolding sanitize
sanitize_same [] h = refl
sanitize_same (c ∷ s) h = ground (arith, sanitize_same s h.3)

-- The last part of a blob's path holds no separator and no NUL, whatever the key, and is the key itself
-- if the key holds none.
pub path_for_lem :
    (s : BlobStore) (key : Text)
    → (name : Text) × (path_for s key
        ≡ s.root
          ++ b'/' ∷ take 2 (s.sha256_hex key)
          ++ b'/' ∷ take 2 (drop 2 (s.sha256_hex key))
          ++ b'/' ∷ name)
      × IsFileName name
      × (IsFileName key → name ≡ key)
unfolding path_for
path_for_lem s key = (sanitize key, refl, sanitize-IsFileName key, λ h. sanitize_same key h)

-- No "--" in the text, and no '-' at its start: nothing that a split from the right could meet.
abbrev pub IsPlain : Text → Type 0
IsPlain s = rsplit_once (t "--") (b'-' ∷ s) ≡ none

no_dash : (s : Text) → AllDigits s → IsPlain s
unfolding rsplit_once t is_digit
no_dash [] h = refl
no_dash (c ∷ s) h = ground (arith, no_dash s h.1, digits_none s h.1)
  where
    digits_none : (s : Text) → AllDigits s → rsplit_once (t "--") s ≡ none
    digits_none [] h = refl
    digits_none (c ∷ s) h = ground (arith, digits_none s h.1)

-- Splitting at the last "--" takes a joined text apart.
pub rsplit_dashes : (a b : Text) → IsPlain b → rsplit_once (t "--") (a ++ t "--" ++ b) ≡ some (a, b)
unfolding t
rsplit_dashes a b h = rsplit_once-append b'-' (b'-' ∷ []) a b h

pub rsplit_number :
    (a : Text) (n : ℕ) → rsplit_once (t "--") (a ++ t "--" ++ show_ℕ n) ≡ some (a, show_ℕ n)
rsplit_number a n = rsplit_dashes a (show_ℕ n) (no_dash (show_ℕ n) (show_ℕ-AllDigits n))

-- `split_fullname` takes apart what `{dongle}|{ts}` joined, for a dongle without '|'.
pub split_fullname-fullname_of :
    (dongle ts : Text)
    → Without b'|' dongle
    → split_fullname (fullname_of dongle ts) ≡ ok (dongle, ts)
unfolding split_fullname fullname_of
split_fullname-fullname_of dongle ts h =
    rw (split_once-append b'|' dongle ts h, split_fullname) refl
