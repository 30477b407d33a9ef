-- ===== src/Athena.antt =====
-- src/athena.rs: which devices are connected and online. The socket itself is not modelled: its events
-- are steps on the shared state, and `now` is the clock in seconds.
pub mod Liveness
pub mod Sockets
use homeconnect.Access.{Auth}
use homeconnect.Db.{Db, Device}
use homeconnect.Prelude.{
  Action, Bool, List, Option, [], err, false, forbidden, if◌then◌else◌, is_empty, none, not, ok,
  some, true, unauthorized, update_where, ◌&&◌, ◌==◌, ◌||◌, ◌∷◌,
}
use homeconnect.Prelude.Containers.{set_contains, set_insert, set_remove}
use homeconnect.Prelude.Int.{ltb_ℤ, pos, ℤ, ◌-ℤ◌}
use homeconnect.Prelude.Split.{split}
use homeconnect.Prelude.Text.{Text, t, text_eq, trim}

pub record ConnectionManager : Type 0 where
  pub inner : List Text
  pub syncing : List Text

unfoldable pub connected : Text → ConnectionManager → ConnectionManager
connected dongle s = record s { inner = set_insert dongle s.inner }

unfoldable pub disconnected : Text → ConnectionManager → ConnectionManager
disconnected dongle s = record s { inner = set_remove dongle s.inner }

unfoldable pub is_connected : Text → ConnectionManager → Bool
is_connected dongle s = set_contains dongle s.inner

-- HashSet::insert: whether the value was not there.
unfoldable pub try_begin_sync : Text → ConnectionManager → Bool × ConnectionManager
try_begin_sync dongle s =
    (not (set_contains dongle s.syncing), record s { syncing = set_insert dongle s.syncing })

unfoldable pub end_sync : Text → ConnectionManager → ConnectionManager
end_sync dongle s = record s { syncing = set_remove dongle s.syncing }

-- The first part of X-Forwarded-For.
unfoldable pub first_of : List Text → Text
first_of [] = []
first_of (p ∷ ps) = p

unfoldable pub client_addr : Option Text → Option Text
unfolding first_of
client_addr none = none
client_addr (some xff) =
    let ip = trim (first_of (split b',' xff)) in if is_empty ip then none else some ip

-- UPDATE devices SET … WHERE dongle_id = ?
abbrev pub update_device : Text → (Device → Device) → Db → Db
update_device dongle f db = record db {
  devices = update_where (λ (d : Device). text_eq d.dongle_id dongle) f db.devices;
}

-- What `ws_handler` checks and stores before the upgrade; the result is the dongle of the socket.
unfoldable pub ws_handler : Text → Option Text → Auth → Action Db Text
unfolding client_addr
ws_handler dongle_id xff auth db = elim auth.device [
  | none ↦ (err (unauthorized (t "device token required")), db)
  | some device ↦
      if not (text_eq device.dongle_id dongle_id) || not (text_eq auth.claims.identity dongle_id)
      then (err (forbidden (t "token does not match dongle")), db)
      else (
        ok dongle_id,
        elim (client_addr xff) [
          | none ↦ db
          | some addr ↦ update_device dongle_id (λ d. record d { last_addr = addr }) db
        ],
      )
]

unfoldable pub touch_ping : ℤ → Text → Db → Db
touch_ping now dongle db =
    update_device dongle (λ d. record d { last_athena_ping = now; online = 1 }) db

unfoldable pub mark_online : ℤ → Text → Bool → Db → Db
mark_online now dongle online db =
    update_device dongle
      (λ d. record d { online = if online then 1 else 0; last_athena_ping = now }) db

-- One tick of the reaper: OFFLINE_AFTER_SECS is 30.
abbrev pub is_stale : ℤ → Device → Bool
is_stale now d = d.online == 1 && ltb_ℤ d.last_athena_ping (now -ℤ pos 30)

unfoldable pub reap : ℤ → Db → Db
reap now db = record db {
  devices = update_where (is_stale now) (λ d. record d { online = 0 }) db.devices;
}

-- The events of the sockets of one device: a socket opens, a frame arrives on one, one is torn down.
pub data Event : Type 0 where
  opens : ℤ → Event
  frame : ℤ → Event
  closes : ℤ → Event

-- What `handle_socket` does at each of them.
unfoldable pub on_event : Text → Event → ConnectionManager × Db → ConnectionManager × Db
unfolding connected disconnected touch_ping mark_online
on_event dongle (opens now) (m, db) = (connected dongle m, mark_online now dongle true db)
on_event dongle (frame now) (m, db) = (m, touch_ping now dongle db)
on_event dongle (closes now) (m, db) = (disconnected dongle m, mark_online now dongle false db)

unfoldable pub on_events : Text → List Event → ConnectionManager × Db → ConnectionManager × Db
unfolding on_event
on_events dongle [] s = s
on_events dongle (e ∷ es) s = on_events dongle es (on_event dongle e s)
