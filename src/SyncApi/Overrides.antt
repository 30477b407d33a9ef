-- ===== src/SyncApi/Overrides.antt =====
-- What `set_route_sync` answers and leaves behind.
use homeconnect.Access.{can_manage_device, can_manage_loaded, load_device}
use homeconnect.Db.{Db, Route, User, device_by_dongle, get_setting, is_shared}
use homeconnect.DevSync.Options.{
  clean_types, get_route_override, get_sync_types, joined, set_route_override,
}
use homeconnect.DevSync.Types.{override_read, parse_types-clean_types}
use homeconnect.Prelude.{
  AppError, AppResult-cases, Bool-cases, List, Option, Option-cases, ap, arith, err, false, find,
  inl, inr, none, ok, refl, some, true, unwrap_or, ◌∙◌, ◌≡◌, ◌⊎◌,
}
use homeconnect.Prelude.Text.{Text, text_eq}
use homeconnect.Settings.{Config}
use homeconnect.SyncApi.{
  RouteSync, RouteSyncReq, authorize_route, get_route_sync, route_sync, set_route_sync,
  write_route_sync,
}

-- The types that a request leaves a drive with, and whether they are its own.
abbrev pub Leaves : Config → Db → Text → RouteSyncReq → RouteSync → Type 0
Leaves config db fullname req v =
    (unwrap_or req.reset false ≡ true
      → (v.types ≡ get_sync_types config db) × (v.overridden ≡ false))
    × ((types : List Text)
        → unwrap_or req.reset false ≡ false
        → req.types ≡ some types
        → (v.types ≡ clean_types types) × (v.overridden ≡ true))

same_global :
    (config : Config) (fullname : Text) (o : Option (List Text)) (db : Db)
    → get_sync_types config (set_route_override fullname o db) ≡ get_sync_types config db
unfolding set_route_override get_sync_types get_setting
same_global config fullname o db = refl

override_after :
    (fullname : Text) (o : Option (List Text)) (db : Db) (r : Route)
    → find (λ (r : Route). text_eq r.fullname fullname) db.routes ≡ some r
    → get_route_override fullname (set_route_override fullname o db)
      ≡ (elim o [ none ↦ none | some types ↦ some (clean_types types) ])
unfolding get_route_override joined
override_after fullname none db r h =
    rw (override_read fullname none db r h, get_route_override) refl
override_after fullname (some types) db r h =
    rw (override_read fullname (some types) db r h, get_route_override)
      (ap some (parse_types-clean_types types))

write-Leaves :
    (config : Config) (db : Db) (fullname : Text) (req : RouteSyncReq) (r : Route)
    → find (λ (r : Route). text_eq r.fullname fullname) db.routes ≡ some r
    → Leaves config db fullname req (route_sync config fullname (write_route_sync fullname req db))
unfolding write_route_sync route_sync
write-Leaves config db fullname req r h = (
  λ x. ground (arith, x, override_after fullname none db r h, same_global config fullname none db),
  λ types x y. ground (arith, x, y, override_after fullname (some types) db r h),
)

-- The access rules do not read the drives.
authorize_routes :
    (db : Db) (user : User) (fullname : Text) (rows : List Route)
    → authorize_route (record db { routes = rows }) user fullname ≡ authorize_route db user fullname
unfolding authorize_route can_manage_device load_device device_by_dongle can_manage_loaded is_shared
authorize_routes db user fullname rows = refl

write_rows :
    (fullname : Text) (req : RouteSyncReq) (db : Db)
    → (rows : List Route) × (write_route_sync fullname req db ≡ record db { routes = rows })
unfolding write_route_sync set_route_override
write_rows fullname req db = elim (Bool-cases (unwrap_or req.reset false)) [
  | inl x ↦ ((set_route_override fullname none db).routes, rw (x, write_route_sync) refl)
  | inr x ↦ elim (Option-cases req.types) [
    | inl n ↦ (db.routes, rw (x, write_route_sync, n) refl)
    | inr (types, n) ↦
        ((set_route_override fullname (some types) db).routes, rw (x, write_route_sync, n) refl)
  ]
]

read_back :
    (config : Config) (user : User) (fullname : Text) (req : RouteSyncReq) (db : Db)
    → authorize_route db user fullname ≡ ok tt
    → get_route_sync config (write_route_sync fullname req db) user fullname
      ≡ ok (route_sync config fullname (write_route_sync fullname req db))
unfolding get_route_sync
read_back config user fullname req db a =
    let (rows, e) = write_rows fullname req db in
    let a' : authorize_route (write_route_sync fullname req db) user fullname ≡ ok tt =
      ap (λ d. authorize_route d user fullname) e ∙ authorize_routes db user fullname rows ∙ a in
    rw (a', get_route_sync) refl

-- A request on a drive's types is refused to who cannot manage its device, and then changes nothing; else it is
-- answered with what the table holds afterwards, which for a drive in the table is: after a reset the global types,
-- and otherwise, if the request has types, these, cleaned and marked as the drive's own.
pub set_route_sync_lem :
    (config : Config) (user : User) (fullname : Text) (req : RouteSyncReq) (db : Db) (r : Route)
    → find (λ (r : Route). text_eq r.fullname fullname) db.routes ≡ some r
    → ((e : AppError) × (authorize_route db user fullname ≡ err e)
        × (set_route_sync config user fullname req db ≡ (err e, db)))
      ⊎ ((v : RouteSync) × (authorize_route db user fullname ≡ ok tt)
          × ((set_route_sync config user fullname req db).0 ≡ ok v)
          × Leaves config db fullname req v
          × (get_route_sync config (set_route_sync config user fullname req db).1 user fullname
              ≡ ok v))
unfolding set_route_sync
set_route_sync_lem config user fullname req db r h =
    elim (AppResult-cases (authorize_route db user fullname)) [
      | inr (e, a) ↦ inl (e, a, rw (a, set_route_sync) refl)
      | inl a ↦ inr (
        route_sync config fullname (write_route_sync fullname req db),
        a,
        rw (a, set_route_sync) refl,
        write-Leaves config db fullname req r h,
        rw (a, set_route_sync) (read_back config user fullname req db a),
      )
    ]
