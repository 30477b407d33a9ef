-- ===== src/Prelude/Split.antt =====
-- Splitting a text, as `split_once`, `rsplit_once`, `split`, `ends_with` and `trim_start_matches` do.
use homeconnect.Prelude.{
  All, any, false, Bool, Bool-cases, List, Option, Option-cases, [], arith, if◌then◌else◌, inl, inr,
  none, refl, some, ℕ, ◌++◌, ◌==◌, ◌||◌, ◌∷◌, ◌≡◌, ◌≢◌,
}
use homeconnect.Prelude.Text.{Text, strip_prefix, strip_prefix-append, text_eq}

abbrev prepend : ℕ → Option (Text × Text) → Option (Text × Text)
prepend d none = none
prepend d (some (a, b)) = some (d ∷ a, b)

abbrev from_start : Option Text → Option (Text × Text)
from_start none = none
from_start (some r) = some ([], r)

abbrev push_first : ℕ → List Text → List Text
push_first d [] = (d ∷ []) ∷ []
push_first d (p ∷ ps) = (d ∷ p) ∷ ps

-- s.split_once(c) for a character c
unfoldable pub split_once : ℕ → Text → Option (Text × Text)
split_once c [] = none
split_once c (d ∷ s) = let rest = split_once c s in if d == c then some ([], s) else prepend d rest

-- s.rsplit_once(p) for a pattern p
unfoldable pub rsplit_once : Text → Text → Option (Text × Text)
unfolding strip_prefix
rsplit_once p [] = none
rsplit_once p (c ∷ s) = elim (rsplit_once p s) [
  | some (a, b) ↦ some (c ∷ a, b)
  | none ↦ from_start (strip_prefix p (c ∷ s))
]

-- s.split(c)
unfoldable pub split : ℕ → Text → List Text
split c [] = [] ∷ []
split c (d ∷ s) = let rest = split c s in if d == c then [] ∷ rest else push_first d rest

-- parts.join(c)
unfoldable pub join : ℕ → List Text → Text
join c [] = []
join c (p ∷ []) = p
join c (p ∷ q ∷ ps) = p ++ c ∷ join c (q ∷ ps)

-- s.trim_start_matches(c)
unfoldable pub trim_start_matches : ℕ → Text → Text
trim_start_matches c [] = []
trim_start_matches c (d ∷ s) = let rest = trim_start_matches c s in if d == c then rest else d ∷ s

-- s.ends_with(p)
unfoldable pub ends_with : Text → Text → Bool
unfolding text_eq
ends_with p [] = text_eq p []
ends_with p (c ∷ s) = text_eq p (c ∷ s) || ends_with p s

abbrev pub Without : ℕ → Text → Type 0
Without c [] = Unit {0}
Without c (d ∷ s) = (d ≢ c) × Without c s

pub any-Without : (c : ℕ) (s : Text) → any (λ d. d == c) s ≡ false → Without c s
any-Without c [] h = tt
any-Without c (d ∷ s) h = (ground (arith, h), any-Without c s (ground (arith, h)))

pub split_once-append : (c : ℕ) (a b : Text) → Without c a → split_once c (a ++ c ∷ b) ≡ some (a, b)
unfolding split_once
split_once-append c [] b h = ground arith
split_once-append c (d ∷ a) b h = ground (arith, split_once-append c a b h.1)

pub rsplit_once-append :
    (c : ℕ) (p a b : Text)
    → rsplit_once (c ∷ p) (p ++ b) ≡ none
    → rsplit_once (c ∷ p) (a ++ (c ∷ p) ++ b) ≡ some (a, b)
unfolding rsplit_once
rsplit_once-append c p [] b h = rw (h, rsplit_once) (rw (strip_prefix-append (c ∷ p) b) refl)
rsplit_once-append c p (d ∷ a) b h = rw (rsplit_once-append c p a b h, rsplit_once) refl

-- The round trip of `join` and `split`, for parts without the separator.
pub split-join :
    (c : ℕ) (p : Text) (ps : List Text)
    → All (Without c) (p ∷ ps)
    → split c (join c (p ∷ ps)) ≡ p ∷ ps
unfolding split join
split-join c [] [] h = refl
split-join c (d ∷ p) [] h = ground (arith, split-join c p [] (h.0.1, tt))
split-join c [] (q ∷ ps) h = ground (arith, split-join c q ps h.1)
split-join c (d ∷ p) (q ∷ ps) h = ground (arith, split-join c p (q ∷ ps) (h.0.1, h.1))

pub split_once_sound : (c : ℕ) (s a b : Text) → split_once c s ≡ some (a, b) → s ≡ a ++ c ∷ b
unfolding split_once
split_once_sound c [] a b h = ground arith
split_once_sound c (d ∷ s) a b h = elim (Bool-cases (d == c)) [
  | inl e ↦ ground (arith, h, e)
  | inr e ↦ elim (Option-cases (split_once c s)) [
    | inl n ↦ ground (arith, h, e, n)
    | inr ((x, y), n) ↦ ground (arith, h, e, n, split_once_sound c s x y)
  ]
]
