-- ===== src/Serve/Ranges.antt =====
-- The ranges that `parse_range` accepts.
use homeconnect.Prelude.{
  Option, Option-cases, [], ap, append-nil, arith, false, if◌then◌else◌, inl, inr, leb, ltb, min,
  none, refl, some, sym, ℕ, ◌&&◌, ◌++◌, ◌-◌, ◌<◌, ◌∙◌, ◌∷◌, ◌≡◌, ◌≤◌,
}
use homeconnect.Prelude.Decimal.{
  AllDigits, is_digit, parse_u64, parse_u64-show_ℕ, show_ℕ, show_ℕ-AllDigits, show_ℕ-cons, u64_mod,
}
use homeconnect.Prelude.Split.{Without, split_once-append}
use homeconnect.Prelude.Text.{Text, contains, strip_prefix-append, t, trim, trim_end, trim_start}
use homeconnect.Serve.{bounds_of, checked, parse_range, range_spec, sub_u64}

checked_bounds :
    (len : ℕ) (o : Option (ℕ × ℕ)) (s e : ℕ)
    → checked len o ≡ some (s, e)
    → (o ≡ some (s, e)) × (s ≤ e) × (s < len)
unfolding checked
checked_bounds len none s e h = ground arith
checked_bounds len (some (a, b)) s e h = (ground arith, ground arith, ground arith)

end_below :
    (a b : Text) (len s e : ℕ) → len < u64_mod → bounds_of a b len ≡ some (s, e) → s < len → e < len
unfolding bounds_of
end_below [] [] len s e w h l = ground arith
end_below [] (c ∷ suffix) len s e w h l = elim (Option-cases (parse_u64 (c ∷ suffix))) [
  | inl p ↦ ground arith
  | inr (n, p) ↦ ground arith
]
end_below (c ∷ start) [] len s e w h l = elim (Option-cases (parse_u64 (c ∷ start))) [
  | inl p ↦ ground arith
  | inr (n, p) ↦ ground arith
]
end_below (c ∷ start) (d ∷ end) len s e w h l = elim (Option-cases (parse_u64 (c ∷ start))) [
  | inl p ↦ ground arith
  | inr (n, p) ↦ elim (Option-cases (parse_u64 (d ∷ end))) [
    | inl q ↦ ground arith
    | inr (m, q) ↦ ground arith
  ]
]

-- An accepted range lies in the file: its first byte is not after its last, and the last is below the
-- length, for every header and every length below 2^64.
pub parse_range_bounds :
    (header : Option Text) (len s e : ℕ)
    → len < u64_mod
    → parse_range header len ≡ some (s, e)
    → (s ≤ e) × (e < len)
unfolding parse_range
parse_range_bounds header len s e w h = split_spec (range_spec header) refl h
  where
    split_spec :
        (o : Option (Text × Text))
        → range_spec header ≡ o
        → parse_range header len ≡ some (s, e)
        → (s ≤ e) × (e < len)
    split_spec none p q = ground arith
    split_spec (some (a, b)) p q =
        let h' : checked len (bounds_of (trim a) (trim b) len) ≡ some (s, e) = ground arith in
        let (i, j, k) = checked_bounds len (bounds_of (trim a) (trim b) len) s e h' in
        (j, end_below (trim a) (trim b) len s e w i k)

-- The texts of the three forms of a range.
abbrev pub closed : ℕ → ℕ → Text
closed a b = t "bytes=" ++ (show_ℕ a ++ b'-' ∷ show_ℕ b)

abbrev pub from : ℕ → Text
from a = t "bytes=" ++ (show_ℕ a ++ b'-' ∷ [])

abbrev pub last : ℕ → Text
last n = t "bytes=" ++ b'-' ∷ show_ℕ n

-- Digits hold no separator and no white space.
digits-Without : (c : ℕ) (s : Text) → is_digit c ≡ false → AllDigits s → Without c s
digits-Without c [] h d = tt
digits-Without c (x ∷ s) h d = (λ e. cc (ap is_digit e), digits-Without c s h d.1)

no_comma_digits : (s r : Text) → AllDigits s → contains (t ",") (s ++ r) ≡ contains (t ",") r
unfolding contains t is_digit
no_comma_digits [] r d = refl
no_comma_digits (c ∷ s) r d = ground (arith, no_comma_digits s r d.1)

trim_end_digits : (s : Text) → AllDigits s → trim_end s ≡ s
unfolding trim_end is_digit
trim_end_digits [] d = refl
trim_end_digits (c ∷ []) d = ground arith
trim_end_digits (c ∷ e ∷ s) d = rw (trim_end_digits (e ∷ s) d.1, trim_end) refl

trim_digits : (s : Text) → AllDigits s → trim s ≡ s
unfolding trim trim_start is_digit
trim_digits [] d = refl
trim_digits (c ∷ s) d = ground (arith, trim_end_digits (c ∷ s) d)

spec_of :
    (x y : Text)
    → AllDigits x
    → AllDigits y
    → range_spec (some (t "bytes=" ++ (x ++ b'-' ∷ y))) ≡ some (x, y)
unfolding range_spec
spec_of x y d e = ground (
  arith,
  strip_prefix-append (t "bytes=") (x ++ b'-' ∷ y),
  no_comma,
  split_once-append b'-' x y (digits-Without b'-' x not_digit d),
)
  where
    not_digit : is_digit b'-' ≡ false
    not_digit = unfold is_digit in refl

    tail_free : contains (t ",") (b'-' ∷ y) ≡ false
    tail_free = unfold contains t in ground (arith, no_comma_digits y [] e, append-nil y)

    no_comma : contains (t ",") (x ++ b'-' ∷ y) ≡ false
    no_comma = no_comma_digits x (b'-' ∷ y) d ∙ tail_free

bounds_closed :
    (a b len : ℕ)
    → a < u64_mod
    → b < u64_mod
    → bounds_of (show_ℕ a) (show_ℕ b) len ≡ some (a, min b (sub_u64 len 1))
unfolding bounds_of
bounds_closed a b len h k =
    let (c, s, e, _) = show_ℕ-cons a in
    let (d, r, f, _) = show_ℕ-cons b in
    let p : parse_u64 (c ∷ s) ≡ some a = ap parse_u64 (sym e) ∙ parse_u64-show_ℕ a h in
    let q : parse_u64 (d ∷ r) ≡ some b = ap parse_u64 (sym f) ∙ parse_u64-show_ℕ b k in
    rw (e, f, bounds_of) (ground (arith, p, q))

bounds_from : (a len : ℕ) → a < u64_mod → bounds_of (show_ℕ a) [] len ≡ some (a, sub_u64 len 1)
unfolding bounds_of
bounds_from a len h =
    let (c, s, e, _) = show_ℕ-cons a in
    let p : parse_u64 (c ∷ s) ≡ some a = ap parse_u64 (sym e) ∙ parse_u64-show_ℕ a h in
    rw (e, bounds_of) (ground (arith, p))

bounds_last :
    (n len : ℕ)
    → n < u64_mod
    → bounds_of [] (show_ℕ n) len ≡ some (sub_u64 len (min n len), sub_u64 len 1)
unfolding bounds_of
bounds_last n len h =
    let (c, s, e, _) = show_ℕ-cons n in
    let p : parse_u64 (c ∷ s) ≡ some n = ap parse_u64 (sym e) ∙ parse_u64-show_ℕ n h in
    rw (e, bounds_of) (ground (arith, p))

-- For numbers and a length below 2^64: `bytes=a-b` gives a to the smaller of b and the last byte,
-- `bytes=a-` gives a to the last byte, and `bytes=-n` the last n bytes (all, if there are fewer);
-- each gives none exactly when that range has no byte of the file.
pub parse_range_lem :
    (a b n len : ℕ)
    → a < u64_mod
    → b < u64_mod
    → n < u64_mod
    → len < u64_mod
    → (parse_range (some (closed a b)) len
        ≡ (if leb a b && ltb a len then some (a, min b (len - 1)) else none))
      × (parse_range (some (from a)) len ≡ (if ltb a len then some (a, len - 1) else none))
      × (parse_range (some (last n)) len
          ≡ (if ltb 0 n && ltb 0 len then some (len - min n len, len - 1) else none))
unfolding checked
parse_range_lem a b n len ha hb hn hl = (
  via (show_ℕ a) (show_ℕ b) (show_ℕ-AllDigits a) (show_ℕ-AllDigits b)
      ∙ ap (checked len) (bounds_closed a b len ha hb)
      ∙ ground arith,
  via (show_ℕ a) [] (show_ℕ-AllDigits a) tt
      ∙ ap (checked len) (bounds_from a len ha)
      ∙ ground arith,
  via [] (show_ℕ n) tt (show_ℕ-AllDigits n)
      ∙ ap (checked len) (bounds_last n len hn)
      ∙ ground arith,
)
  where
    via :
        (x y : Text)
        → AllDigits x
        → AllDigits y
        → parse_range (some (t "bytes=" ++ (x ++ b'-' ∷ y))) len ≡ checked len (bounds_of x y len)
    via x y d e =
        unfold parse_range in ground (arith, spec_of x y d e, trim_digits x d, trim_digits y e)
