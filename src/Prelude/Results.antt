-- ===== src/Prelude/Results.antt =====
-- `AppError` and `AppResult` of src/error.rs, and actions that carry a state through their errors.
use mathlib.Core.Option.{Option, none, some}
use mathlib.Core.List.{List}
use mathlib.Core.Bool.{Bool, true, false}
use Prim.Native.Nat.{ℕ}
use mathlib.Core.Logic.{◌⊎◌, inl, inr}
use mathlib.Core.Path.{◌≡◌, refl}

-- The messages are texts; `other` is an error of a library.
pub data AppError : Type 0 where
  unauthorized forbidden bad_request not_found : List ℕ → AppError
  other : AppError

pub data AppResult {ℓ} (A : Type ℓ) : Type ℓ where
  ok : A → AppResult A
  err : AppError → AppResult A

pub AppResult-cases : (r : AppResult (Unit {0})) → (r ≡ ok tt) ⊎ ((e : AppError) × (r ≡ err e))
AppResult-cases (ok tt) = inl refl
AppResult-cases (err e) = inr (e, refl)

pub result-cases {ℓ} :
    {A : Type ℓ} (r : AppResult A) → ((a : A) × (r ≡ ok a)) ⊎ ((e : AppError) × (r ≡ err e))
result-cases (ok a) = inl (a, refl)
result-cases (err e) = inr (e, refl)

-- An action returns the state beside an error too: what was written before the error stays.
abbrev pub Action {ℓ} : Type ℓ → Type ℓ → Type ℓ
Action S A = S → AppResult A × S

module _ {ℓ} {S A : Type ℓ} where
  unfoldable pub pure : A → Action S A
  pure a s = (ok a, s)

  unfoldable pub fail : AppError → Action S A
  fail e s = (err e, s)

  unfoldable pub gets : (S → A) → Action S A
  gets f s = (ok (f s), s)

  unfoldable pub lift : AppResult A → Action S A
  lift r s = (r, s)

  unfoldable pub or_fail : Option A → AppError → Action S A
  or_fail none e s = (err e, s)
  or_fail (some a) e s = (ok a, s)

module _ {S : Type 0} where
  unfoldable pub modify : (S → S) → Action S (Unit {0})
  modify f s = (ok tt, f s)

  unfoldable pub guard : Bool → AppError → Action S (Unit {0})
  guard true e s = (ok tt, s)
  guard false e s = (err e, s)

module _ {S A B : Type 0} where
  abbrev pub continue : AppResult A → S → (A → Action S B) → AppResult B × S
  continue (ok a) s f = f a s
  continue (err e) s f = (err e, s)

  infixl 5 ◌>>=◌ ◌>>◌
  -- opening this opens the actions above too
  unfoldable pub ◌>>=◌ : Action S A → (A → Action S B) → Action S B
  unfolding pure fail gets lift or_fail modify guard
  ◌>>=◌ m f s = let (r, s') = m s in continue r s' f

  abbrev pub ◌>>◌ : Action S A → Action S B → Action S B
  m >> n = m >>= λ _. n

-- `m` keeps `P`, whether it returns or fails.
pub record Keeps {S A : Type 0} (P : S → Type 0) (m : Action S A) : Type 0 where
  pub kept : (s : S) → P s → P (m s).1

module _ {S : Type 0} {P : S → Type 0} where
  pub Keeps-guard : (b : Bool) (e : AppError) → Keeps P (guard b e)
  unfolding guard
  Keeps-guard true e = record { kept = λ s h. h }
  Keeps-guard false e = record { kept = λ s h. h }

  pub Keeps-modify : (f : S → S) → ((s : S) → P s → P (f s)) → Keeps P (modify f)
  unfolding modify
  Keeps-modify f k = record { kept = k }

module _ {S A : Type 0} {P : S → Type 0} where
  pub Keeps-or_fail : (o : Option A) (e : AppError) → Keeps P (or_fail o e)
  unfolding or_fail
  Keeps-or_fail none e = record { kept = λ s h. h }
  Keeps-or_fail (some a) e = record { kept = λ s h. h }

  pub Keeps-fail : (e : AppError) → Keeps P (fail {A = A} e)
  unfolding fail
  Keeps-fail e = record { kept = λ s h. h }

  pub Keeps-pure : (a : A) → Keeps P (pure a)
  unfolding pure
  Keeps-pure a = record { kept = λ s h. h }

  pub Keeps-gets : (f : S → A) → Keeps P (gets f)
  unfolding gets
  Keeps-gets f = record { kept = λ s h. h }

module _ {S A B : Type 0} {P : S → Type 0} where
  Keeps-continue :
      (r : AppResult A) (f : A → Action S B)
      → ((a : A) → Keeps P (f a))
      → (s : S) → P s
      → P (continue r s f).1
  Keeps-continue (ok a) f k s h = (k a).kept s h
  Keeps-continue (err e) f k s h = h

  pub Keeps-bind :
      (m : Action S A) (f : A → Action S B)
      → Keeps P m
      → ((a : A) → Keeps P (f a))
      → Keeps P (m >>= f)
  unfolding ◌>>=◌
  Keeps-bind m f km kf = record {
    kept = λ s h. let (r, s') = m s in Keeps-continue r f kf s' (km.kept s h);
  }

pub ruleset keeps_rules =
    (Keeps-pure, Keeps-fail, Keeps-gets, Keeps-or_fail, Keeps-guard, Keeps-modify, Keeps-bind)
