-- ===== src/Prelude/Decimal.antt =====
-- Decimal numbers: `to_string` and `parse` of Rust's integers.
use homeconnect.Prelude.{
  Bool, Bool-cases, Option, Option-cases, [], all, ap, arith, if◌then◌else◌, inl, inr, leb, ltb,
  none, refl, some, suc, sym, true, zero, ℕ, ◌%◌, ◌&&◌, ◌*◌, ◌+◌, ◌-◌, ◌/◌, ◌<◌, ◌==◌, ◌||◌, ◌∙◌,
  ◌∷◌, ◌≡◌,
}
use homeconnect.Prelude.Int.{negsuc, pos, ℤ}
use homeconnect.Prelude.Text.{Text}
use mathlib.Core.Path.{subst}

abbrev pub u64_mod : ℕ
u64_mod = 18446744073709551616

-- 2 ^ 63
abbrev pub i64_half : ℕ
i64_half = 9223372036854775808

digits_from : ℕ → ℕ → Text → Text
digits_from zero n acc = acc
digits_from (suc f) n acc =
    let rest = digits_from f (n / 10) ((48 + n % 10) ∷ acc) in
    if ltb n 10 then (48 + n) ∷ acc else rest

-- n.to_string() of a natural number
unfoldable pub show_ℕ : ℕ → Text
unfolding digits_from
show_ℕ n = digits_from (suc n) n []

unfoldable pub show_ℤ : ℤ → Text
unfolding show_ℕ
show_ℤ (pos n) = show_ℕ n
show_ℤ (negsuc n) = b'-' ∷ show_ℕ (suc n)

unfoldable pub is_digit : ℕ → Bool
is_digit c = leb 48 c && leb c 57

parse_from : ℕ → Text → Option ℕ
parse_from a [] = some a
parse_from a (c ∷ s) =
    let rest = parse_from (a * 10 + (c - 48)) s in if is_digit c then rest else none

unsigned : Text → Option ℕ
unfolding parse_from is_digit
unsigned [] = none
unsigned (c ∷ s) = parse_from 0 (c ∷ s)

strip_plus : Text → Text
strip_plus [] = []
strip_plus (c ∷ s) = if c == b'+' then s else c ∷ s

below : ℕ → Option ℕ → Option ℕ
below limit none = none
below limit (some n) = if ltb n limit then some n else none

-- s.parse::<u64>().ok()
unfoldable pub parse_u64 : Text → Option ℕ
unfolding unsigned strip_plus below
parse_u64 s = below u64_mod (unsigned (strip_plus s))

negated : Option ℕ → Option ℤ
negated none = none
negated (some zero) = some (pos 0)
negated (some (suc n)) = some (negsuc n)

positive : Option ℕ → Option ℤ
positive none = none
positive (some n) = some (pos n)

-- s.parse::<i64>().ok()
unfoldable pub parse_i64 : Text → Option ℤ
unfolding unsigned strip_plus below negated positive
parse_i64 [] = none
parse_i64 (c ∷ s) =
    if c == b'-'
    then negated (below (i64_half + 1) (unsigned s))
    else positive (below i64_half (unsigned (strip_plus (c ∷ s))))

parse_from-digits_from :
    (f n : ℕ) (acc : Text) → n < f → parse_from 0 (digits_from f n acc) ≡ parse_from n acc
unfolding parse_from digits_from is_digit
parse_from-digits_from zero n acc h = elim h [ ]
parse_from-digits_from (suc f) n acc h =
    ground (arith, parse_from-digits_from f (n / 10) ((48 + n % 10) ∷ acc))

abbrev pub AllDigits : Text → Type 0
AllDigits [] = Unit {0}
AllDigits (c ∷ s) = (is_digit c ≡ true) × AllDigits s

digits_from-AllDigits : (f n : ℕ) (acc : Text) → AllDigits acc → AllDigits (digits_from f n acc)
unfolding digits_from is_digit
digits_from-AllDigits zero n acc h = h
digits_from-AllDigits (suc f) n acc h = elim (Bool-cases (ltb n 10)) [
  | inl b ↦ rw b (ground arith, h)
  | inr b ↦ rw b (digits_from-AllDigits f (n / 10) ((48 + n % 10) ∷ acc) (ground arith, h))
]

pub show_ℕ-AllDigits : (n : ℕ) → AllDigits (show_ℕ n)
unfolding show_ℕ
show_ℕ-AllDigits n = digits_from-AllDigits (suc n) n [] tt

digits_from-cons :
    (f n : ℕ) (acc : Text) → n < f → (c : ℕ) × (s : Text) × (digits_from f n acc ≡ c ∷ s)
unfolding digits_from
digits_from-cons zero n acc h = elim h [ ]
digits_from-cons (suc f) n acc h = elim (Bool-cases (ltb n 10)) [
  | inl b ↦ (48 + n, acc, rw b)
  | inr b ↦ rw b (digits_from-cons f (n / 10) ((48 + n % 10) ∷ acc) (ground arith))
]

-- The text of a number begins with a digit.
pub show_ℕ-cons : (n : ℕ) → (c : ℕ) × (s : Text) × (show_ℕ n ≡ c ∷ s) × (is_digit c ≡ true)
unfolding show_ℕ
show_ℕ-cons n =
    let (c, s, e) = digits_from-cons (suc n) n [] (omega arith) in
    let h : AllDigits (c ∷ s) = subst AllDigits e (show_ℕ-AllDigits n) in (c, s, e, h.0)

unsigned-show_ℕ : (n : ℕ) → unsigned (show_ℕ n) ≡ some n
unfolding show_ℕ unsigned
unsigned-show_ℕ n =
    let (c, s, e) = digits_from-cons (suc n) n [] (omega arith) in
    rw (e, unsigned) (ap (parse_from 0) (sym e) ∙ parse_from-digits_from (suc n) n [] (omega arith))

pub parse_u64-show_ℕ : (n : ℕ) → n < u64_mod → parse_u64 (show_ℕ n) ≡ some n
unfolding parse_u64 is_digit
parse_u64-show_ℕ n h = let (c, s, e, d) = show_ℕ-cons n in ground (arith, e, d, unsigned-show_ℕ n)

pub parse_i64-show_ℕ : (n : ℕ) → n < i64_half → parse_i64 (show_ℕ n) ≡ some (pos n)
unfolding parse_i64 is_digit
parse_i64-show_ℕ n h = let (c, s, e, d) = show_ℕ-cons n in ground (arith, e, d, unsigned-show_ℕ n)

-- The characters of a number: digits and signs.
abbrev pub is_numeric : ℕ → Bool
is_numeric c = leb 48 c && leb c 57 || c == b'+' || c == b'-'

parse_from_numeric : (a n : ℕ) (s : Text) → parse_from a s ≡ some n → all is_numeric s ≡ true
unfolding parse_from is_digit
parse_from_numeric a n [] h = refl
parse_from_numeric a n (c ∷ s) h = ground (arith, parse_from_numeric (a * 10 + (c - 48)) n s)

unsigned_numeric : (n : ℕ) (s : Text) → unsigned s ≡ some n → all is_numeric s ≡ true
unfolding unsigned
unsigned_numeric n [] h = ground arith
unsigned_numeric n (c ∷ s) h = parse_from_numeric 0 n (c ∷ s) h

plus_numeric : (n : ℕ) (s : Text) → unsigned (strip_plus s) ≡ some n → all is_numeric s ≡ true
unfolding strip_plus
plus_numeric n [] h = refl
plus_numeric n (c ∷ s) h = elim (Bool-cases (c == b'+')) [
  | inl y ↦ ground (arith, y, h, unsigned_numeric n s)
  | inr m ↦ unsigned_numeric n (c ∷ s) (ground (arith, m, h))
]

-- A text that is read as a number holds digits and signs only.
pub parse_i64_numeric : (s : Text) (v : ℤ) → parse_i64 s ≡ some v → all is_numeric s ≡ true
unfolding parse_i64 below negated positive
parse_i64_numeric [] v h = refl
parse_i64_numeric (c ∷ s) v h = elim (Bool-cases (c == b'-')) [
  | inl y ↦ elim (Option-cases (unsigned s)) [
    | inl e ↦ ground (arith, y, e, h)
    | inr (n, e) ↦ ground (arith, y, unsigned_numeric n s e)
  ]
  | inr m ↦ elim (Option-cases (unsigned (strip_plus (c ∷ s)))) [
    | inl e ↦ ground (arith, m, e, h)
    | inr (n, e) ↦ plus_numeric n (c ∷ s) e
  ]
]
