-- ===== src/Retention/Names.antt =====
-- The names that a pass selects: each is the name of a route, so it has a '|' if those have.
use homeconnect.Db.{Db, Device, Route}
use homeconnect.Prelude.{
  All, Bool, Bool-cases, List, [], drop, inl, inr, is_some, select, suc, true, zero, ℕ, ◌++◌, ◌∷◌,
  ◌≡◌,
}
use homeconnect.Prelude.Containers.{set_contains, set_insert}
use homeconnect.Prelude.Int.{negsuc, pos, ℤ}
use homeconnect.Prelude.Split.{split_once}
use homeconnect.Prelude.Text.{Text, text_eq}
use homeconnect.Retention.{
  beyond, cutoff_of, extend, insert_route, is_newer, is_older, names_of, newest_first, over_age,
  over_devices,
}
use homeconnect.Retention.Limits.{HasBar}

abbrev pub NameHasBar : Text → Type 0
NameHasBar k = is_some (split_once b'|' k) ≡ true

abbrev pub of_device : Text → Route → Bool
of_device dongle r = text_eq r.device_dongle_id dongle

pub insert-NameHasBar :
    (k : Text) (set : List Text)
    → NameHasBar k
    → All NameHasBar set
    → All NameHasBar (set_insert k set)
unfolding set_insert
insert-NameHasBar k set h a = elim (Bool-cases (set_contains k set)) [
  | inl y ↦ rw (y, set_insert) a
  | inr n ↦ rw (n, set_insert) (h, a)
]

pub extend-NameHasBar :
    (set ks : List Text) → All NameHasBar set → All NameHasBar ks → All NameHasBar (extend set ks)
unfolding extend
extend-NameHasBar set [] a h = a
extend-NameHasBar set (k ∷ ks) a h =
    extend-NameHasBar (set_insert k set) ks (insert-NameHasBar k set h.0 a) h.1

pub names-NameHasBar : (rs : List Route) → All HasBar rs → All NameHasBar (names_of rs)
unfolding names_of
names-NameHasBar [] h = tt
names-NameHasBar (r ∷ rs) h = (h.0, names-NameHasBar rs h.1)

pub select-HasBar : (p : Route → Bool) (rs : List Route) → All HasBar rs → All HasBar (select p rs)
select-HasBar p [] h = tt
select-HasBar p (r ∷ rs) h = elim (Bool-cases (p r)) [
  | inl y ↦ rw (y, select) (h.0, select-HasBar p rs h.1)
  | inr n ↦ rw (n, select) (select-HasBar p rs h.1)
]

pub drop-HasBar : (n : ℕ) (rs : List Route) → All HasBar rs → All HasBar (drop n rs)
drop-HasBar zero rs h = h
drop-HasBar (suc n) [] h = tt
drop-HasBar (suc n) (r ∷ rs) h = drop-HasBar n rs h.1

pub insert-HasBar :
    (r : Route) (rs : List Route) → HasBar r → All HasBar rs → All HasBar (insert_route r rs)
unfolding insert_route
insert-HasBar r [] h a = (h, tt)
insert-HasBar r (x ∷ xs) h a = elim (Bool-cases (is_newer r x)) [
  | inl y ↦ rw (y, insert_route) (h, a)
  | inr n ↦ rw (n, insert_route) (a.0, insert-HasBar r xs h a.1)
]

pub newest_first-HasBar : (rs : List Route) → All HasBar rs → All HasBar (newest_first rs)
unfolding newest_first
newest_first-HasBar [] h = tt
newest_first-HasBar (r ∷ rs) h = insert-HasBar r (newest_first rs) h.0 (newest_first-HasBar rs h.1)

pub append-NameHasBar :
    (xs ys : List Text) → All NameHasBar xs → All NameHasBar ys → All NameHasBar (xs ++ ys)
append-NameHasBar [] ys a b = b
append-NameHasBar (x ∷ xs) ys a b = (a.0, append-NameHasBar xs ys a.1 b)

pub devices-NameHasBar :
    (keep : ℕ) (ds : List Device) (db : Db)
    → All HasBar db.routes
    → All NameHasBar (over_devices keep ds db)
unfolding over_devices beyond
devices-NameHasBar keep [] db h = tt
devices-NameHasBar keep (d ∷ ds) db h =
    append-NameHasBar (beyond keep d.dongle_id db) (over_devices keep ds db)
      (names-NameHasBar (drop keep (newest_first (select (of_device d.dongle_id) db.routes))) (
        drop-HasBar keep (newest_first (select (of_device d.dongle_id) db.routes)) (
          newest_first-HasBar (select (of_device d.dongle_id) db.routes)
            (select-HasBar (of_device d.dongle_id) db.routes h))))
      (devices-NameHasBar keep ds db h)

pub age-NameHasBar :
    (now days : ℤ) (db : Db) → All HasBar db.routes → All NameHasBar (over_age now days db)
unfolding over_age
age-NameHasBar now (negsuc n) db h = tt
age-NameHasBar now (pos zero) db h = tt
age-NameHasBar now (pos (suc n)) db h =
    names-NameHasBar (select (is_older (cutoff_of now (suc n))) db.routes)
      (select-HasBar (is_older (cutoff_of now (suc n))) db.routes h)
