-- ===== src/Prelude/Lists.antt =====
-- Lists measured by native numbers, and the statements of SQL as functions on a table's rows.
use Prim.Native.Nat.{min, zero, ℕ, suc, ◌+◌, ◌≤◌}
use mathlib.Core.Path.{subst, refl, ◌≡◌}
use mathlib.Core.Bool.{Bool, true, false, ◌&&◌, ◌||◌}
use mathlib.Core.Option.{Option, none, some}
use mathlib.Core.List.{List, [], ◌∷◌, ◌++◌}
use native.Mathlib.Omega.{arith}
use mathlib.Core.Logic.{inl, inr}
use homeconnect.Prelude.Tests.{Bool-cases, if◌then◌else◌}

module _ {ℓ} {A : Type ℓ} where
  abbrev pub length : List A → ℕ
  length [] = 0
  length (x ∷ xs) = suc (length xs)

  abbrev pub is_empty : List A → Bool
  is_empty [] = true
  is_empty (x ∷ xs) = false

  pub length-append : (xs ys : List A) → length (xs ++ ys) ≡ length xs + length ys
  length-append [] ys = omega arith
  length-append (x ∷ xs) ys = omega (arith, length-append xs ys)

  abbrev pub any : (A → Bool) → List A → Bool
  any p [] = false
  any p (x ∷ xs) = p x || any p xs

  abbrev pub all : (A → Bool) → List A → Bool
  all p [] = true
  all p (x ∷ xs) = p x && all p xs

  -- SELECT … WHERE p
  abbrev pub select : (A → Bool) → List A → List A
  select p [] = []
  select p (x ∷ xs) = let rest = select p xs in if p x then x ∷ rest else rest

  -- SELECT … WHERE p, and the first row
  abbrev pub find : (A → Bool) → List A → Option A
  find p [] = none
  find p (x ∷ xs) = let rest = find p xs in if p x then some x else rest

  -- DELETE … WHERE p
  abbrev pub delete_where : (A → Bool) → List A → List A
  delete_where p [] = []
  delete_where p (x ∷ xs) = let rest = delete_where p xs in if p x then rest else x ∷ rest

  -- UPDATE … SET f WHERE p
  abbrev pub update_where : (A → Bool) → (A → A) → List A → List A
  update_where p f [] = []
  update_where p f (x ∷ xs) = (if p x then f x else x) ∷ update_where p f xs

  -- SELECT COUNT(*) … WHERE p
  abbrev pub count : (A → Bool) → List A → ℕ
  count p [] = 0
  count p (x ∷ xs) = (if p x then 1 else 0) + count p xs

  abbrev pub All {κ} : (A → Type κ) → List A → Type κ
  All P [] = Unit
  All P (x ∷ xs) = P x × All P xs

  pub count-le-length : (p : A → Bool) (xs : List A) → count p xs ≤ length xs
  count-le-length p [] = omega arith
  count-le-length p (x ∷ xs) = ground (arith, count-le-length p xs)

  pub find_sound : (p : A → Bool) (xs : List A) {x : A} → find p xs ≡ some x → p x ≡ true
  find_sound p [] h = ground arith
  find_sound p (y ∷ xs) {x} h = ground (arith, find_sound p xs {x = x})

  pub All-find {κ} :
      (P : A → Type κ) (p : A → Bool) (xs : List A) (x : A) → All P xs → find p xs ≡ some x → P x
  All-find P p [] x h e = ground arith
  All-find P p (y ∷ xs) x h e = elim (Bool-cases (p y)) [
    | inl b ↦ let e' : y ≡ x = ground arith in subst P e' h.0
    | inr b ↦ All-find P p xs x h.1 (ground arith)
  ]

  abbrev pub map_option : (A → A) → Option A → Option A
  map_option f none = none
  map_option f (some a) = some (f a)

  -- A read after an update that keeps what the read tests.
  pub find-update_where :
      (p q : A → Bool) (f : A → A) (xs : List A)
      → ((x : A) → p (f x) ≡ p x)
      → find p (update_where q f xs) ≡ map_option (λ x. if q x then f x else x) (find p xs)
  find-update_where p q f [] h = refl
  find-update_where p q f (x ∷ xs) h = ground (arith, find-update_where p q f xs h, h x)

  -- A deletion of rows that the read does not see.
  pub find-delete_where :
      (p q : A → Bool) (xs : List A)
      → ((x : A) → p x ≡ true → q x ≡ false)
      → find p (delete_where q xs) ≡ find p xs
  find-delete_where p q [] h = refl
  find-delete_where p q (x ∷ xs) h = ground (arith, find-delete_where p q xs h, h x)

  pub any-delete_where_self : (q : A → Bool) (xs : List A) → any q (delete_where q xs) ≡ false
  any-delete_where_self q [] = refl
  any-delete_where_self q (x ∷ xs) = ground (arith, any-delete_where_self q xs)

  -- An update that makes the tested condition false leaves no row that meets it.
  pub any-update_where_self :
      (q : A → Bool) (f : A → A) (xs : List A)
      → ((x : A) → q (f x) ≡ false)
      → any q (update_where q f xs) ≡ false
  any-update_where_self q f [] h = refl
  any-update_where_self q f (x ∷ xs) h = ground (arith, any-update_where_self q f xs h, h x)

  abbrev pub take : ℕ → List A → List A
  take zero xs = []
  take (suc n) [] = []
  take (suc n) (x ∷ xs) = x ∷ take n xs

  abbrev pub drop : ℕ → List A → List A
  drop zero xs = xs
  drop (suc n) [] = []
  drop (suc n) (x ∷ xs) = drop n xs

  pub length-drop : (n : ℕ) (xs : List A) → length (drop n xs) + min n (length xs) ≡ length xs
  length-drop zero xs = omega arith
  length-drop (suc n) [] = omega arith
  length-drop (suc n) (x ∷ xs) = omega (arith, length-drop n xs)

  pub length-take : (n : ℕ) (xs : List A) → length (take n xs) ≡ min n (length xs)
  length-take zero xs = omega arith
  length-take (suc n) [] = omega arith
  length-take (suc n) (x ∷ xs) = omega (arith, length-take n xs)
