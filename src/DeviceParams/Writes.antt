-- ===== src/DeviceParams/Writes.antt =====
-- The values that are written to a device.
use homeconnect.DeviceParams.{find_spec, fits, in_bounds, is_writable}
use homeconnect.DeviceParams.Specs.{Kind, Spec, bool_kind, enum_kind, info_kind, int_kind, specs}
use homeconnect.Prelude.{
  All, All-find, Bool-cases, List, Option-cases, [], all, any, arith, find, inl, inr, refl, some,
  true, ◌||◌, ◌∷◌, ◌≡◌,
}
use homeconnect.Prelude.Decimal.{is_numeric, parse_i64, parse_i64_numeric}
use homeconnect.Prelude.Text.{Text, t, text_eq, text_eq_iff}
use mathlib.Core.Path.{subst}

abbrev pub HasNumericOptions : Spec → Type 0
HasNumericOptions s = All (λ v. all is_numeric v ≡ true) s.options

specs-HasNumericOptions : All HasNumericOptions specs
unfolding t
specs-HasNumericOptions = ground arith

option_numeric :
    (options : List Text) (value : Text)
    → All (λ v. all is_numeric v ≡ true) options
    → any (λ v. text_eq v value) options ≡ true
    → all is_numeric value ≡ true
option_numeric [] value a h = ground arith
option_numeric (v ∷ vs) value a h = elim (Bool-cases (text_eq v value)) [
  | inl y ↦
      let e : v ≡ value = ground (arith, y, text_eq_iff v value) in
      subst (λ z. all is_numeric z ≡ true) e a.0
  | inr n ↦ option_numeric vs value a.1 (ground (arith, n, h))
]

bool_numeric :
    (value : Text)
    → text_eq value (t "0") || text_eq value (t "1") ≡ true
    → all is_numeric value ≡ true
bool_numeric value h = elim (Bool-cases (text_eq value (t "0"))) [
  | inl y ↦
      let e : value ≡ t "0" = ground (arith, y, text_eq_iff value (t "0")) in
      rw e (unfold t in refl)
  | inr n ↦
      let e : value ≡ t "1" = ground (arith, n, h, text_eq_iff value (t "1")) in
      rw e (unfold t in refl)
]

fits_numeric :
    (s : Spec) (value : Text)
    → HasNumericOptions s
    → fits s value ≡ true
    → all is_numeric value ≡ true
unfolding fits in_bounds
fits_numeric s value a h = by_kind s.kind refl
  where
    by_kind : (k : Kind) → s.kind ≡ k → all is_numeric value ≡ true
    by_kind bool_kind e = bool_numeric value (ground (arith, e, h))
    by_kind int_kind e = elim (Option-cases (parse_i64 value)) [
      | inl p ↦ ground (arith, e, p, h)
      | inr (v, p) ↦ parse_i64_numeric value v p
    ]
    by_kind enum_kind e = option_numeric s.options value a (ground (arith, e, h))
    by_kind info_kind e = ground (arith, e, h)

-- A value that may be written to a device holds digits and signs only, and its key is one of the
-- allowlist.
pub is_writable_lem :
    (key value : Text)
    → is_writable key value ≡ true
    → (all is_numeric value ≡ true)
      × ((s : Spec) × (find (λ (s : Spec). text_eq s.key key) specs ≡ some s))
unfolding is_writable find_spec
is_writable_lem key value h = elim (Option-cases (find (λ (s : Spec). text_eq s.key key) specs)) [
  | inl e ↦ ground (arith, e, h)
  | inr (s, e) ↦ (
    fits_numeric s value
        (All-find HasNumericOptions (λ (s : Spec). text_eq s.key key) specs s
          specs-HasNumericOptions e)
        (ground (arith, e, h)),
    (s, e),
  )
]
