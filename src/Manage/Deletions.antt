-- ===== src/Manage/Deletions.antt =====
-- What a deletion leaves to the next sync.
use homeconnect.AppState.{AppState}
use homeconnect.Db.{Db, Device, Route, Segment}
use homeconnect.DevSync.{
  SyncOpts, file_type, in_route, load_registration, override_for, reg_of, registered, scan_file,
  types_for, wanted,
}
use homeconnect.DevSync.Options.{effective_route_types, listed}
use homeconnect.DevSync.Scan.{scan_file_lem}
use homeconnect.DevSync.Types.{route_override_lem, sync_types_lem}
use homeconnect.Manage.{
  delete_cam_movies, delete_on_server, delete_segments, kept_types, segment_numbers,
}
use homeconnect.Prelude.{
  Bool-cases, List, Option, [], arith, false, find, inl, inr, is_some, map, none, not, refl, select,
  some, true, update_where, ◌∷◌, ◌≡◌,
}
use homeconnect.Prelude.Containers.{map_get}
use homeconnect.Prelude.Int.{ℤ}
use homeconnect.Prelude.Text.{Text, contains, strip_prefix, t, text_eq, text_eq_iff}
use homeconnect.Segments.{clear_segment_col, qlog_url, set_column, update_segment}
use homeconnect.Settings.{Config}
use homeconnect.Storage.{canonical_of, fullname_of}

excluded_types :
    (types all : List Text) (ty : Text)
    → listed types ty ≡ true
    → listed (select (λ x. not (listed types x)) all) ty ≡ false
excluded_types types [] ty h = refl
excluded_types types (x ∷ xs) ty h = elim (Bool-cases (text_eq x ty)) [
  | inl y ↦
      let e : x ≡ ty = ground (arith, text_eq_iff x ty, y) in
      let l : listed types x ≡ true = rw e h in ground (arith, l, excluded_types types xs ty h)
  | inr n ↦ ground (arith, n, excluded_types types xs ty h)
]

-- No deleted type is among the types of the drive.
excluded_after :
    (config : Config) (recompute_route : Text → Text → AppState → AppState) (dongle ts ty : Text)
    (types : List Text) (state : AppState) (r : Route)
    → find
        (λ (r : Route). text_eq r.fullname (fullname_of dongle ts))
        (delete_cam_movies dongle ts types (
          recompute_route dongle ts
            (delete_segments dongle ts
              (segment_numbers (fullname_of dongle ts) state.db)
              types
              (record { state = state; removed = 0; freed = 0 })).state)).db.routes
      ≡ some r
    → listed types ty ≡ true
    → listed
        (effective_route_types config
          (fullname_of dongle ts)
          (delete_on_server config recompute_route dongle ts types state).state.db)
        ty
      ≡ false
unfolding delete_on_server kept_types
excluded_after config recompute_route dongle ts ty types state r h k =
    let s : AppState = delete_cam_movies dongle ts types (
      recompute_route dongle ts
        (delete_segments dongle ts (segment_numbers (fullname_of dongle ts) state.db) types
          (record { state = state; removed = 0; freed = 0 })).state) in
    let kept : List Text = kept_types config (fullname_of dongle ts) types s.db in
    let (e, _) = route_override_lem config s.db (fullname_of dongle ts) r kept h in
    let (_, c) = sync_types_lem config s.db kept in
    rw e (
      ground (
        arith,
        c ty,
        excluded_types types (effective_route_types config (fullname_of dongle ts) s.db) ty k,
      ))

-- After a deletion of file types off the server no scan without a choice of types queues a file of any of them again,
-- whatever the types of the drive and the global ones were and whatever the drive's rows register; the one exception is
-- a qlog. The drive's row must still be there when its override is written.
pub delete_on_server_lem :
    (config : Config) (recompute_route : Text → Text → AppState → AppState) (device : Device)
    (ts ty file : Text) (seg : ℤ) (types : List Text) (route : Option Text) (state : AppState)
    (r : Route)
    → find
        (λ (r : Route). text_eq r.fullname (fullname_of device.dongle_id ts))
        (delete_cam_movies device.dongle_id ts types (
          recompute_route device.dongle_id ts
            (delete_segments device.dongle_id ts
              (segment_numbers (fullname_of device.dongle_id ts) state.db)
              types
              (record { state = state; removed = 0; freed = 0 })).state)).db.routes
      ≡ some r
    → listed types ty ≡ true
    → file_type file ≡ some ty
    → contains (t "qlog") file ≡ false
    → scan_file config
        (delete_on_server config recompute_route device.dongle_id ts types state).state.db
        device
        (record { types = none; route = route })
        (ts, (seg, file))
      ≡ none
unfolding wanted types_for override_for effective_route_types
delete_on_server_lem config recompute_route device ts ty file seg types route state r h k f q =
    let db' : Db =
      (delete_on_server config recompute_route device.dongle_id ts types state).state.db in
    let e = excluded_after config recompute_route device.dongle_id ts ty types state r h k in
    let (s, _) =
      scan_file_lem config db' device (record { types = none; route = route }) ts file seg in
    ground (arith, s, e, f, q)

cleared :
    (dongle canonical file : Text) (xs : List Segment)
    → contains (t "qlog") file ≡ true
    → registered
        (map_get canonical (
          map
            (λ (s : Segment). (s.canonical_name, reg_of s))
            (select
              (λ (s : Segment).
                is_some (strip_prefix (fullname_of dongle []) s.canonical_route_name))
              (update_where
                (λ (s : Segment). text_eq s.canonical_name canonical)
                (set_column qlog_url [])
                xs))))
        file
      ≡ false
unfolding registered reg_of set_column map_get
cleared dongle canonical file [] h = refl
cleared dongle canonical file (x ∷ xs) h = ground (arith, cleared dongle canonical file xs h, h)

-- The qlog is the exception: once its column is cleared, as the deletion of the type "qlog" does, a
-- scan that may touch the drive and finds a qlog of that segment on the device queues it again,
-- whatever the types of the drive.
pub qlog_repulled :
    (config : Config) (db : Db) (device : Device) (opts : SyncOpts) (ts file : Text) (seg : ℤ)
    → in_route opts ts ≡ true
    → contains (t "qlog") file ≡ true
    → is_some (
        scan_file config
          (clear_segment_col qlog_url device.dongle_id ts seg db)
          device
          opts
          (ts, (seg, file)))
      ≡ true
unfolding clear_segment_col update_segment load_registration wanted
qlog_repulled config db device opts ts file seg r h =
    let db' : Db = clear_segment_col qlog_url device.dongle_id ts seg db in
    let c = cleared device.dongle_id (canonical_of device.dongle_id ts seg) file db.segments h in
    let (s, _) = scan_file_lem config db' device opts ts file seg in ground (arith, s, c, r, h)
