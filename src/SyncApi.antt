-- ===== src/SyncApi.antt =====
-- src/api/devsync.rs: a sync by hand, the counter of the queue, and a drive's own types.
pub mod Overrides
use homeconnect.Access.{can_manage_device}
use homeconnect.Db.{Db, User}
use homeconnect.DevSync.{scan}
use homeconnect.DevSync.Options.{
  all_types, get_route_override, get_sync_types, listed, set_route_override,
}
use homeconnect.Prelude.{
  Action, AppResult, Bool, List, Option, err, false, if◌then◌else◌, is_empty, is_some, map, none,
  ok, select, some, unwrap_or, ℕ, ◌==◌, ◌||◌,
}
use homeconnect.Prelude.Split.{split}
use homeconnect.Prelude.Text.{Text, t, text_eq, trim}
use homeconnect.Settings.{Config}
use homeconnect.Storage.{split_fullname}
use homeconnect.SyncQueue.{Inner, detail, stats}
use homeconnect.Users.Admins.{reset}

pub record SyncQuery : Type 0 where
  pub full : Option Text
  pub route : Option Text
  pub types : Option Text

-- matches!(q.full.as_deref(), Some("1" | "true" | "yes"))
unfoldable pub is_full : Option Text → Bool
is_full none = false
is_full (some s) = text_eq s (t "1") || text_eq s (t "true") || text_eq s (t "yes")

-- The types of the request, if it has any.
unfoldable pub forced_types : SyncQuery → Option (List Text)
unfolding is_full
forced_types q =
    let full = if is_full q.full then some all_types else none in
    elim q.types [
      | none ↦ full
      | some s ↦
          if is_empty (trim s)
          then full
          else some (select (listed (map trim (split b',' (trim s)))) all_types)
    ]

-- The scan runs in the background: `listing` is what the device answers it. The answer tells whether it is online.
unfoldable pub sync_now :
    Config → Db → User → Text → SyncQuery → (Text → AppResult (List Text)) → Action Inner Bool
unfolding forced_types
sync_now config db user dongle q listing queue = elim (can_manage_device db user dongle) [
  | err e ↦ (err e, queue)
  | ok device ↦ (
    ok (device.online == 1),
    (scan config db device (record { types = forced_types q; route = q.route })
        (listing device.last_addr) queue).1,
  )
]

pub record QueueStats : Type 0 where
  pub drives : ℕ
  pub files : ℕ
  pub items : List (Text × (Text × Bool))

unfoldable pub queue_stats : Inner → QueueStats
queue_stats queue = record {
  drives = (stats queue).0;
  files = (stats queue).1;
  items = detail queue;
}

unfoldable pub authorize_route : Db → User → Text → AppResult (Unit {0})
authorize_route db user fullname = elim (split_fullname fullname) [
  | err e ↦ err e
  | ok (dongle, ts) ↦ elim (can_manage_device db user dongle) [ err e ↦ err e | ok d ↦ ok tt ]
]

pub record RouteSync : Type 0 where
  pub types : List Text
  pub overridden : Bool

-- The part of the answers that is read from the table.
unfoldable pub route_sync : Config → Text → Db → RouteSync
route_sync config fullname db = record {
  types = unwrap_or (get_route_override fullname db) (get_sync_types config db);
  overridden = is_some (get_route_override fullname db);
}

unfoldable pub get_route_sync : Config → Db → User → Text → AppResult RouteSync
unfolding authorize_route route_sync
get_route_sync config db user fullname = elim (authorize_route db user fullname) [
  | err e ↦ err e
  | ok u ↦ ok (route_sync config fullname db)
]

pub record RouteSyncReq : Type 0 where
  pub types : Option (List Text)
  pub reset : Option Bool

unfoldable pub write_route_sync : Text → RouteSyncReq → Db → Db
write_route_sync fullname req db =
    if unwrap_or req.reset false
    then set_route_override fullname none db
    else (elim req.types [ none ↦ db | some types ↦ set_route_override fullname (some types) db ])

unfoldable pub set_route_sync : Config → User → Text → RouteSyncReq → Action Db RouteSync
unfolding authorize_route write_route_sync route_sync
set_route_sync config user fullname req db = elim (authorize_route db user fullname) [
  | err e ↦ (err e, db)
  | ok u ↦ let db' = write_route_sync fullname req db in (ok (route_sync config fullname db'), db')
]
