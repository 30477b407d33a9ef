-- ===== src/Retention/Counts.antt =====
-- The limit on the number of drives: after a pass no device has more than the policy allows.
use homeconnect.AppState.{AppState}
use homeconnect.Db.{Db, Device, Route}
use homeconnect.Prelude.{
  All, Bool, Bool-cases, List, [], any, ap, arith, count, delete_where, drop, inl, inr, not, refl,
  select, suc, true, zero, ℕ, ◌&&◌, ◌++◌, ◌||◌, ◌∙◌, ◌∷◌, ◌≡◌, ◌≤◌,
}
use homeconnect.Prelude.Containers.{contains-insert, set_contains, set_insert}
use homeconnect.Prelude.Int.{pos, ℤ}
use homeconnect.Prelude.Text.{Text, text_eq, text_eq_iff, text_eq_refl}
use homeconnect.Retention.{
  Policy, beyond, delete_route, delete_routes, extend, insert_route, is_newer, names_of,
  newest_first, over_age, over_count, over_devices, to_delete,
}
use homeconnect.Retention.Limits.{HasBar, after_one}
use homeconnect.Retention.Names.{
  NameHasBar, age-NameHasBar, devices-NameHasBar, extend-NameHasBar, of_device,
}

abbrev outside : List Text → Route → Bool
outside ks r = not (set_contains r.fullname ks)

contains-extend :
    (k : Text) (set ks : List Text)
    → set_contains k (extend set ks) ≡ (set_contains k set || set_contains k ks)
unfolding extend set_contains
contains-extend k set [] = ground arith
contains-extend k set (j ∷ ks) =
    ground (arith, contains-extend k (set_insert j set) ks, contains-insert j k set)

contains-append :
    (k : Text) (xs ys : List Text)
    → set_contains k (xs ++ ys) ≡ (set_contains k xs || set_contains k ys)
unfolding set_contains
contains-append k [] ys = refl
contains-append k (x ∷ xs) ys = ground (arith, contains-append k xs ys)

beyond_listed :
    (keep : ℕ) (dongle k : Text) (ds : List Device) (db : Db)
    → any (λ (d : Device). text_eq d.dongle_id dongle) ds ≡ true
    → set_contains k (beyond keep dongle db) ≡ true
    → set_contains k (over_devices keep ds db) ≡ true
unfolding over_devices
beyond_listed keep dongle k [] db h e = ground arith
beyond_listed keep dongle k (d ∷ ds) db h e = elim (Bool-cases (text_eq d.dongle_id dongle)) [
  | inl y ↦
      let p : d.dongle_id ≡ dongle = ground (arith, text_eq_iff d.dongle_id dongle) in
      let q : set_contains k (beyond keep d.dongle_id db) ≡ true = rw p e in
      ground (arith, contains-append k (beyond keep d.dongle_id db) (over_devices keep ds db), q)
  | inr n ↦ ground (
    arith,
    contains-append k (beyond keep d.dongle_id db) (over_devices keep ds db),
    beyond_listed keep dongle k ds db (ground arith) e,
  )
]

names_listed :
    (rs : List Route) (ks : List Text)
    → ((k : Text) → set_contains k (names_of rs) ≡ true → set_contains k ks ≡ true)
    → All (λ (r : Route). set_contains r.fullname ks ≡ true) rs
unfolding names_of set_contains
names_listed [] ks h = tt
names_listed (r ∷ rs) ks h = (
  h r.fullname (ground (arith, text_eq_refl r.fullname)),
  names_listed rs ks (λ k e. h k (ground (arith, e))),
)

count_few :
    (n : ℕ) (rs : List Route) (ks : List Text)
    → All (λ (r : Route). set_contains r.fullname ks ≡ true) (drop n rs)
    → count (outside ks) rs ≤ n
count_few zero [] ks h = omega arith
count_few (suc n) [] ks h = omega arith
count_few zero (r ∷ rs) ks h = ground (arith, h.0, count_few zero rs ks h.1)
count_few (suc n) (r ∷ rs) ks h = ground (arith, count_few n rs ks h)

count-insert_route :
    (q : Route → Bool) (r : Route) (rs : List Route)
    → count q (insert_route r rs) ≡ count q (r ∷ rs)
unfolding insert_route
count-insert_route q r [] = refl
count-insert_route q r (x ∷ xs) = elim (Bool-cases (is_newer r x)) [
  | inl y ↦ rw (y, insert_route) refl
  | inr n ↦ rw (n, insert_route) (omega (arith, count-insert_route q r xs))
]

count-newest_first : (q : Route → Bool) (rs : List Route) → count q (newest_first rs) ≡ count q rs
unfolding newest_first
count-newest_first q [] = refl
count-newest_first q (r ∷ rs) =
    omega (arith, count-insert_route q r (newest_first rs), count-newest_first q rs)

count-select :
    (p q : Route → Bool) (rs : List Route) → count (λ r. p r && q r) rs ≡ count q (select p rs)
count-select p q [] = refl
count-select p q (r ∷ rs) = ground (arith, count-select p q rs)

count-delete_where :
    (dongle k : Text) (ks : List Text) (rs : List Route)
    → count
        (λ r. of_device dongle r && outside ks r)
        (delete_where (λ (r : Route). text_eq r.fullname k) rs)
      ≡ count (λ r. of_device dongle r && outside (k ∷ ks) r) rs
unfolding set_contains
count-delete_where dongle k ks [] = refl
count-delete_where dongle k ks (r ∷ rs) =
    ground
      (arith, count-delete_where dongle k ks rs, text_eq_iff r.fullname k, text_eq_iff k r.fullname)

count_all :
    (dongle : Text) (rs : List Route)
    → count (of_device dongle) rs ≡ count (λ r. of_device dongle r && outside [] r) rs
unfolding set_contains
count_all dongle [] = refl
count_all dongle (r ∷ rs) = ground (arith, count_all dongle rs)

count-delete_routes :
    (dongle : Text) (ks : List Text) (state : AppState)
    → All NameHasBar ks
    → count (of_device dongle) (delete_routes ks state).db.routes
      ≡ count (λ r. of_device dongle r && outside ks r) state.db.routes
unfolding delete_routes
count-delete_routes dongle [] state h = count_all dongle state.db.routes
count-delete_routes dongle (k ∷ ks) state h =
    count-delete_routes dongle ks (delete_route k state) h.1
    ∙ rw (after_one k state h.0) (count-delete_where dongle k ks state.db.routes)

-- With a limit on the number of drives, the deletions of a pass leave each known device at most that many,
-- whatever else the pass deletes, if the names of the routes have a '|'.
pub max_drives_lem :
    (now : ℤ) (policy : Policy) (n : ℕ) (dongle : Text) (state : AppState)
    → policy.max_drives ≡ pos (suc n)
    → All HasBar state.db.routes
    → any (λ (d : Device). text_eq d.dongle_id dongle) state.db.devices ≡ true
    → count (of_device dongle) (delete_routes (to_delete now policy state.db) state).db.routes
      ≤ suc n
unfolding to_delete over_count
max_drives_lem now policy n dongle state m h k =
    let ks : List Text = to_delete now policy state.db in
    let own : List Route = select (of_device dongle) state.db.routes in
    let aged : List Text = extend [] (over_age now policy.days state.db) in
    let e : ks ≡ extend aged (over_devices (suc n) state.db.devices state.db) =
      ap (λ z. extend aged (over_count z state.db)) m in
    let bars : All NameHasBar ks = rw e (
      extend-NameHasBar aged (over_devices (suc n) state.db.devices state.db)
        (extend-NameHasBar [] (over_age now policy.days state.db) tt
          (age-NameHasBar now policy.days state.db h))
        (devices-NameHasBar (suc n) state.db.devices state.db h)) in
    let listed_all : All (λ (r : Route). set_contains r.fullname ks ≡ true)
        (drop (suc n) (newest_first own)) =
      names_listed (drop (suc n) (newest_first own)) ks (λ j b. rw e (
        ground (
          arith,
          contains-extend j aged (over_devices (suc n) state.db.devices state.db),
          beyond_listed (suc n) dongle j state.db.devices state.db k b,
        ))) in
    let few : count (outside ks) (newest_first own) ≤ suc n =
      count_few (suc n) (newest_first own) ks listed_all in
    omega (
      arith,
      few,
      count-delete_routes dongle ks state bars,
      count-select (of_device dongle) (outside ks) state.db.routes,
      count-newest_first (outside ks) own,
    )
