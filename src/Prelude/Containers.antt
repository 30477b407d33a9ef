-- ===== src/Prelude/Containers.antt =====
-- `HashSet<String>` and `HashMap<String, V>` as lists. The order of a list stands for one order in
-- which Rust may iterate.
use mathlib.Core.Path.{◌≡◌, refl}
use mathlib.Core.Bool.{Bool, true, false, ◌||◌}
use mathlib.Core.Option.{Option, none, some}
use mathlib.Core.List.{List, [], ◌∷◌}
use native.Mathlib.Omega.{arith}
use homeconnect.Prelude.Tests.{if◌then◌else◌}
use homeconnect.Prelude.Text.{Text, text_eq, text_eq_iff}

unfoldable pub set_contains : Text → List Text → Bool
set_contains k [] = false
set_contains k (j ∷ s) = text_eq j k || set_contains k s

unfoldable pub set_insert : Text → List Text → List Text
unfolding set_contains
set_insert k s = if set_contains k s then s else k ∷ s

unfoldable pub set_remove : Text → List Text → List Text
set_remove k [] = []
set_remove k (j ∷ s) = let rest = set_remove k s in if text_eq j k then rest else j ∷ rest

pub contains-insert :
    (k j : Text) (s : List Text)
    → set_contains j (set_insert k s) ≡ (if text_eq k j then true else set_contains j s)
unfolding set_contains set_insert
contains-insert k j [] = ground arith
contains-insert k j (i ∷ s) =
    ground (arith, contains-insert k j s, text_eq_iff i k, text_eq_iff k j, text_eq_iff i j)

pub contains-remove :
    (k j : Text) (s : List Text)
    → set_contains j (set_remove k s) ≡ (if text_eq k j then false else set_contains j s)
unfolding set_contains set_remove
contains-remove k j [] = ground arith
contains-remove k j (i ∷ s) =
    ground (arith, contains-remove k j s, text_eq_iff i k, text_eq_iff k j, text_eq_iff i j)

module _ {ℓ} {V : Type ℓ} where
  unfoldable pub map_get : Text → List (Text × V) → Option V
  map_get k [] = none
  map_get k ((j, v) ∷ m) = let rest = map_get k m in if text_eq j k then some v else rest

  unfoldable pub map_insert : Text → V → List (Text × V) → List (Text × V)
  map_insert k v [] = (k, v) ∷ []
  map_insert k v ((j, w) ∷ m) =
      let rest = map_insert k v m in if text_eq j k then (k, v) ∷ m else (j, w) ∷ rest

  unfoldable pub map_remove : Text → List (Text × V) → List (Text × V)
  map_remove k [] = []
  map_remove k ((j, w) ∷ m) =
      let rest = map_remove k m in if text_eq j k then rest else (j, w) ∷ rest

  pub get-insert :
      (k j : Text) (v : V) (m : List (Text × V))
      → map_get j (map_insert k v m) ≡ (if text_eq k j then some v else map_get j m)
  unfolding map_get map_insert
  get-insert k j v [] = refl
  get-insert k j v ((i, w) ∷ m) =
      ground (arith, get-insert k j v m, text_eq_iff i k, text_eq_iff k j, text_eq_iff i j)

  pub get-remove :
      (k j : Text) (m : List (Text × V))
      → map_get j (map_remove k m) ≡ (if text_eq k j then none else map_get j m)
  unfolding map_get map_remove
  get-remove k j [] = ground arith
  get-remove k j ((i, w) ∷ m) =
      ground (arith, get-remove k j m, text_eq_iff i k, text_eq_iff k j, text_eq_iff i j)

pub ruleset container_laws = (contains-insert, contains-remove, get-insert, get-remove)
