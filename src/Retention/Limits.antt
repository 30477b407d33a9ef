-- ===== src/Retention/Limits.antt =====
-- The limits: what a pass leaves of each device's drives, and the storage limit.
use homeconnect.AppState.{AppState}
use homeconnect.Db.{Route}
use homeconnect.Prelude.{
  All, Bool, Bool-cases, List, Option-cases, [], any, ap, arith, delete_where, inl, inr, is_some,
  leb, length, none, refl, some, suc, true, zero, ℕ, ◌<◌, ◌∷◌, ◌≡◌, ◌≤◌, ◌⊎◌,
}
use homeconnect.Prelude.Split.{split_once}
use homeconnect.Prelude.Text.{Text, text_eq, text_eq_iff}
use homeconnect.Retention.{delete_route, is_newer, oldest, until_under}
use homeconnect.Retention.Deletion.{routes-delete_route}
use mathlib.Core.Path.{subst}

-- The name of a route can be split at its '|'.
abbrev pub HasBar : Route → Type 0
HasBar r = is_some (split_once b'|' r.fullname) ≡ true

oldest_found :
    (rs : List Route) (o : Route)
    → oldest rs ≡ some o
    → (any (λ (r : Route). text_eq r.fullname o.fullname) rs ≡ true) × (All HasBar rs → HasBar o)
unfolding oldest
oldest_found [] o h = ground arith
oldest_found (r ∷ rs) o h = elim (Option-cases (oldest rs)) [
  | inl e ↦
      let p : r ≡ o = ground (arith, e, h) in
      (
        ground (arith, text_eq_iff r.fullname o.fullname, ap (λ (x : Route). x.fullname) p),
        λ a. subst HasBar p a.0,
      )
  | inr (x, e) ↦ elim (Bool-cases (is_newer r x)) [
    | inl y ↦
        let p : x ≡ o = ground (arith, e, y, h) in
        let (i, j) = oldest_found rs x e in
        (
          ground (
            arith,
            ap (λ (z : Route). any (λ (w : Route). text_eq w.fullname z.fullname) rs) p,
            i,
          ),
          λ a. subst HasBar p (j a.1),
        )
    | inr n ↦
        let p : r ≡ o = ground (arith, e, n, h) in
        (
          ground (arith, text_eq_iff r.fullname o.fullname, ap (λ (x : Route). x.fullname) p),
          λ a. subst HasBar p a.0,
        )
  ]
]

shorter :
    (p : Route → Bool) (rs : List Route)
    → (length (delete_where p rs) ≤ length rs)
      × (any p rs ≡ true → length (delete_where p rs) < length rs)
shorter p [] = (omega arith, λ h. ground arith)
shorter p (r ∷ rs) = let (a, b) = shorter p rs in (ground (arith, a), λ h. ground (arith, a, b, h))

HasBar-delete_where :
    (p : Route → Bool) (rs : List Route) → All HasBar rs → All HasBar (delete_where p rs)
HasBar-delete_where p [] h = tt
HasBar-delete_where p (r ∷ rs) h = elim (Bool-cases (p r)) [
  | inl y ↦ rw (y, delete_where) (HasBar-delete_where p rs h.1)
  | inr n ↦ rw (n, delete_where) (h.0, HasBar-delete_where p rs h.1)
]

pub after_one :
    (fullname : Text) (state : AppState)
    → is_some (split_once b'|' fullname) ≡ true
    → (delete_route fullname state).db.routes
      ≡ delete_where (λ (r : Route). text_eq r.fullname fullname) state.db.routes
after_one fullname state h = elim (Option-cases (split_once b'|' fullname)) [
  | inl e ↦ ground (arith, e, h)
  | inr (p, e) ↦ routes-delete_route fullname p.0 p.1 state e
]

-- The loop of the storage limit ends, with as much fuel as there are routes: then the store is under
-- the limit, or no route is left. This holds for every way in which sizes may change, if the names of the
-- routes have a '|'.
pub until_under_lem :
    (bytes : AppState → ℕ) (cap fuel : ℕ) (state : AppState)
    → length state.db.routes ≤ fuel
    → All HasBar state.db.routes
    → (bytes (until_under bytes cap fuel state).1 ≤ cap)
      ⊎ ((until_under bytes cap fuel state).1.db.routes ≡ [])
unfolding until_under
until_under_lem bytes cap zero state h a = inr (empty_list state.db.routes h)
  where
    empty_list : (rs : List Route) → length rs ≤ 0 → rs ≡ []
    empty_list [] h = refl
    empty_list (r ∷ rs) h = ground (arith, h)
until_under_lem bytes cap (suc fuel) state h a = elim (Option-cases (oldest state.db.routes)) [
  | inl e ↦ rw (e, until_under) (inr (none_left state.db.routes e))
  | inr (o, e) ↦
      let (i, j) = oldest_found state.db.routes o e in
      let next_state : AppState = delete_route o.fullname state in
      let q = after_one o.fullname state (j a) in
      let (_, k) = shorter (λ (r : Route). text_eq r.fullname o.fullname) state.db.routes in
      let left : length next_state.db.routes ≤ fuel = rw q (omega (arith, k i, h)) in
      let bars : All HasBar next_state.db.routes =
        rw q
          (HasBar-delete_where (λ (r : Route). text_eq r.fullname o.fullname) state.db.routes a) in
      let rest = until_under_lem bytes cap fuel next_state left bars in
      elim (Bool-cases (leb (bytes state) cap)) [
        | inl y ↦ rw (e, until_under, y) (inl (ground (arith, y)))
        | inr n ↦ rw (e, until_under, n) rest
      ]
]
  where
    none_left : (rs : List Route) → oldest rs ≡ none → rs ≡ []
    none_left [] h = refl
    none_left (r ∷ rs) h =
        unfold oldest in
        elim (Option-cases (oldest rs)) [
          | inl e ↦ ground (arith, e, h)
          | inr (x, e) ↦ elim (Bool-cases (is_newer r x)) [
            | inl y ↦ ground (arith, e, h, y)
            | inr n ↦ ground (arith, e, h, n)
          ]
        ]
