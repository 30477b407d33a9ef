-- ===== src/DevSync/Types.antt =====
-- The file types to pull: setting them and reading them back.
use homeconnect.Db.{Db, Route, get_setting}
use homeconnect.Db.Keys.{get_setting-set_setting}
use homeconnect.DevSync.Options.{
  clean_types, effective_route_types, get_route_override, get_sync_types, joined, listed,
  optional_types, parse_types, set_route_override, set_sync_types,
}
use homeconnect.Prelude.{
  All, Bool, Bool-cases, List, Option, [], ap, arith, false, find, find-update_where, find_sound,
  inl, inr, is_empty, none, not, refl, select, some, ◌&&◌, ◌∷◌, ◌≡◌,
}
use homeconnect.Prelude.Split.{Without, join, split, split-join}
use homeconnect.Prelude.Text.{Text, t, text_eq, text_eq_iff, text_eq_refl}
use homeconnect.Settings.{Config}

select-Without :
    (p : Text → Bool) (types : List Text)
    → All (λ ty. Without b',' ty × (is_empty ty ≡ false)) types
    → All (λ ty. Without b',' ty × (is_empty ty ≡ false)) (select p types)
select-Without p [] h = tt
select-Without p (x ∷ xs) h = elim (Bool-cases (p x)) [
  | inl y ↦ rw (y, select) (h.0, select-Without p xs h.1)
  | inr n ↦ rw (n, select) (select-Without p xs h.1)
]

parts :
    (types : List Text)
    → All (λ ty. Without b',' ty × (is_empty ty ≡ false)) types
    → All (Without b',') types
parts [] h = tt
parts (x ∷ xs) h = (h.0.0, parts xs h.1)

kept :
    (types : List Text)
    → All (λ ty. Without b',' ty × (is_empty ty ≡ false)) types
    → select (λ x. not (is_empty x)) types ≡ types
kept [] h = refl
kept (x ∷ xs) h = ground (arith, kept xs h.1, h.0.1)

parse_types-join :
    (types : List Text)
    → All (λ ty. Without b',' ty × (is_empty ty ≡ false)) types
    → parse_types (join b',' types) ≡ types
unfolding parse_types
parse_types-join [] h = unfold join split in refl
parse_types-join (x ∷ xs) h = rw (split-join b',' x xs (parts (x ∷ xs) h)) (kept (x ∷ xs) h)

optional_types_lem : All (λ ty. Without b',' ty × (is_empty ty ≡ false)) optional_types
unfolding t
optional_types_lem = ground arith

pub parse_types-clean_types :
    (types : List Text) → parse_types (join b',' (clean_types types)) ≡ clean_types types
unfolding clean_types
parse_types-clean_types types =
    parse_types-join (clean_types types)
      (select-Without (listed types) optional_types optional_types_lem)

listed-select :
    (types all : List Text) (ty : Text)
    → listed (select (listed types) all) ty ≡ (listed all ty && listed types ty)
listed-select types [] ty = refl
listed-select types (x ∷ xs) ty = elim (Bool-cases (text_eq x ty)) [
  | inl y ↦
      let e : x ≡ ty = ground (arith, text_eq_iff x ty, y) in
      ground (arith, listed-select types xs ty, y, ap (listed types) e)
  | inr n ↦ ground (arith, listed-select types xs ty, n)
]

-- The pull types read back as those of `OPTIONAL_TYPES` that were set, in that order: a type is among
-- them exactly when it is one of `OPTIONAL_TYPES` and was listed.
pub sync_types_lem :
    (config : Config) (db : Db) (types : List Text)
    → (get_sync_types config (set_sync_types types db) ≡ clean_types types)
      × ((ty : Text)
          → listed (clean_types types) ty ≡ (listed optional_types ty && listed types ty))
unfolding get_sync_types set_sync_types
sync_types_lem config db types = (
  rw (stored, get_sync_types) (parse_types-clean_types types),
  λ ty. unfold clean_types in listed-select types optional_types ty,
)
  where
    stored :
        get_setting (t "sync_types") (set_sync_types types db)
        ≡ some (join b',' (clean_types types))
    stored = ground (
      arith,
      get_setting-set_setting (t "sync_types") (t "sync_types") (join b',' (clean_types types)) db,
      text_eq_refl (t "sync_types"),
    )

pub override_read :
    (fullname : Text) (types : Option (List Text)) (db : Db) (r : Route)
    → find (λ (r : Route). text_eq r.fullname fullname) db.routes ≡ some r
    → find
        (λ (r : Route). text_eq r.fullname fullname)
        (set_route_override fullname types db).routes
      ≡ some (record r { sync_types = joined types })
unfolding set_route_override
override_read fullname types db r h =
    rw
      (
        find-update_where (λ (r : Route). text_eq r.fullname fullname)
            (λ (r : Route). text_eq r.fullname fullname)
            (λ r. record r { sync_types = joined types }) db.routes (λ x. refl),
        h,
        find_sound (λ (r : Route). text_eq r.fullname fullname) db.routes h,
      )
      refl

-- A drive's own types, for a drive that is in the table: once set they are the types it is pulled with,
-- cleaned, whatever the global setting; once cleared it is pulled with the global types.
pub route_override_lem :
    (config : Config) (db : Db) (fullname : Text) (r : Route) (types : List Text)
    → find (λ (r : Route). text_eq r.fullname fullname) db.routes ≡ some r
    → (effective_route_types config fullname (set_route_override fullname (some types) db)
        ≡ clean_types types)
      × (effective_route_types config fullname (set_route_override fullname none db)
          ≡ get_sync_types config db)
unfolding effective_route_types joined
route_override_lem config db fullname r types h = (
  rw (read (some types), effective_route_types) (parse_types-clean_types types),
  rw (read none, effective_route_types)
      (unfold set_route_override get_sync_types get_setting in refl),
)
  where
    read :
        (o : Option (List Text))
        → get_route_override fullname (set_route_override fullname o db)
          ≡ (elim (joined o) [ none ↦ none | some s ↦ some (parse_types s) ])
    read o = rw (override_read fullname o db r h, get_route_override) refl
