-- ===== src/Retention.antt =====
-- src/retention.rs: the pruning of old drives. The sizes on disk are an argument, and the storage limit is
-- in bytes: the source computes it from a floating-point number of gigabytes.
pub mod Deletion
pub mod Names
pub mod Limits
pub mod Counts
use homeconnect.AppState.{AppState}
use homeconnect.Db.{Db, Device, Movie, Route, Segment}
use homeconnect.Manage.{segment_numbers, transcode_cams, transcode_name}
use homeconnect.Movies.{delete_movie, movie_cams}
use homeconnect.Prelude.{
  Bool, List, Option, [], any, delete_where, drop, if◌then◌else◌, leb, length, ltb, none, not,
  select, some, suc, zero, ℕ, ◌%◌, ◌&&◌, ◌*◌, ◌++◌, ◌+◌, ◌-◌, ◌||◌, ◌∷◌,
}
use homeconnect.Prelude.Containers.{set_insert, set_remove}
use homeconnect.Prelude.Decimal.{i64_half, u64_mod}
use homeconnect.Prelude.Int.{eq_ℤ, leb_ℤ, ltb_ℤ, negsuc, pos, ℤ, ◌-ℤ◌}
use homeconnect.Prelude.Split.{split_once}
use homeconnect.Prelude.Text.{Text, t, text_eq}
use homeconnect.Storage.{BlobStore, blob_key}
use homeconnect.Subs.{delete_subs}
use homeconnect.Storage.{delete}

pub record Policy : Type 0 where
  pub days : ℤ
  pub max_drives : ℤ
  pub cap : Option ℕ

-- The value of an i64 computation that wraps around.
unfoldable pub wrap_i64 : ℤ → ℤ
wrap_i64 (pos n) =
    let m : ℕ = n % u64_mod in if ltb m i64_half then pos m else negsuc (u64_mod - 1 - m)
wrap_i64 (negsuc n) =
    let m : ℕ = n % u64_mod in if ltb m i64_half then negsuc m else pos (u64_mod - 1 - m)

-- The names of the files of a segment.
abbrev pub segment_files : List Text
segment_files =
    t "qcamera.ts"
    ∷ t "fcamera.hevc"
    ∷ t "dcamera.hevc"
    ∷ t "ecamera.hevc"
    ∷ t "qlog.bz2"
    ∷ t "qlog.zst"
    ∷ t "rlog.bz2"
    ∷ t "rlog.zst"
    ∷ t "coords.json"
    ∷ t "events.json"
    ∷ t "telemetry.json"
    ∷ t "model.json"
    ∷ t "sprite.jpg"
    ∷ []

unfoldable pub delete_files : Text → Text → ℤ → List Text → BlobStore → BlobStore
delete_files dongle ts seg [] blobs = blobs
delete_files dongle ts seg (f ∷ fs) blobs =
    delete_files dongle ts seg fs (delete (blob_key dongle ts seg f) blobs)

unfoldable pub delete_transcodes : Text → Text → ℤ → List Text → List Text → List Text
unfolding transcode_name
delete_transcodes dongle ts seg [] files = files
delete_transcodes dongle ts seg (cam ∷ cams) files =
    delete_transcodes dongle ts seg cams (set_remove (transcode_name dongle ts seg cam) files)

unfoldable pub delete_segment_files : Text → Text → List ℤ → AppState → AppState
unfolding delete_files delete_transcodes
delete_segment_files dongle ts [] state = state
delete_segment_files dongle ts (seg ∷ segs) state =
    delete_segment_files dongle ts segs (record state {
      blobs = delete_files dongle ts seg segment_files state.blobs;
      transcodes = delete_transcodes dongle ts seg transcode_cams state.transcodes;
    })

unfoldable pub delete_movies : Text → Text → List Text → AppState → AppState
delete_movies dongle ts [] state = state
delete_movies dongle ts (cam ∷ cams) state =
    delete_movies dongle ts cams (delete_movie dongle ts cam state)

-- DELETE FROM segments and DELETE FROM routes
unfoldable pub delete_route_rows : Text → AppState → AppState
delete_route_rows fullname state = record state {
  db = record state.db {
    segments =
        delete_where (λ (s : Segment). text_eq s.canonical_route_name fullname) state.db.segments;
    routes = delete_where (λ (r : Route). text_eq r.fullname fullname) state.db.routes;
  };
}

unfoldable pub delete_route : Text → AppState → AppState
unfolding delete_segment_files delete_movies delete_route_rows
delete_route fullname state = elim (split_once b'|' fullname) [
  | none ↦ state
  | some (dongle, ts) ↦ delete_route_rows fullname (
      delete_subs dongle ts (
        delete_movies dongle ts movie_cams
          (delete_segment_files dongle ts (segment_numbers fullname state.db) state)))
]

-- The WHERE of the age limit.
unfoldable pub is_older : ℤ → Route → Bool
is_older cutoff r =
    ltb_ℤ (pos 0) r.start_time_utc_millis && ltb_ℤ r.start_time_utc_millis cutoff
    || eq_ℤ r.start_time_utc_millis (pos 0) && ltb_ℤ r.created_at cutoff

-- now_millis() - policy.days * 86_400_000, for days > 0
unfoldable pub cutoff_of : ℤ → ℕ → ℤ
unfolding wrap_i64
cutoff_of now days = wrap_i64 (now -ℤ wrap_i64 (pos (days * 86400000)))

-- start_time_utc_millis DESC, created_at DESC
unfoldable pub is_newer : Route → Route → Bool
is_newer a b =
    ltb_ℤ b.start_time_utc_millis a.start_time_utc_millis
    || eq_ℤ a.start_time_utc_millis b.start_time_utc_millis && leb_ℤ b.created_at a.created_at

unfoldable pub insert_route : Route → List Route → List Route
unfolding is_newer
insert_route r [] = r ∷ []
insert_route r (x ∷ xs) =
    let rest = insert_route r xs in if is_newer r x then r ∷ x ∷ xs else x ∷ rest

unfoldable pub newest_first : List Route → List Route
unfolding insert_route
newest_first [] = []
newest_first (r ∷ rs) = insert_route r (newest_first rs)

unfoldable pub names_of : List Route → List Text
names_of [] = []
names_of (r ∷ rs) = r.fullname ∷ names_of rs

unfoldable pub over_age : ℤ → ℤ → Db → List Text
unfolding is_older cutoff_of names_of
over_age now (negsuc n) db = []
over_age now (pos zero) db = []
over_age now (pos (suc n)) db = names_of (select (is_older (cutoff_of now (suc n))) db.routes)

-- The drives of one device beyond the newest `keep`.
unfoldable pub beyond : ℕ → Text → Db → List Text
unfolding newest_first names_of
beyond keep dongle db =
    names_of (
      drop keep
        (newest_first (select (λ (r : Route). text_eq r.device_dongle_id dongle) db.routes)))

unfoldable pub over_devices : ℕ → List Device → Db → List Text
unfolding beyond
over_devices keep [] db = []
over_devices keep (d ∷ ds) db = beyond keep d.dongle_id db ++ over_devices keep ds db

unfoldable pub over_count : ℤ → Db → List Text
unfolding over_devices
over_count (negsuc n) db = []
over_count (pos zero) db = []
over_count (pos (suc n)) db = over_devices (suc n) db.devices db

-- `to_delete.extend`
unfoldable pub extend : List Text → List Text → List Text
extend set [] = set
extend set (k ∷ ks) = extend (set_insert k set) ks

-- `to_delete` of `run_once`.
unfoldable pub to_delete : ℤ → Policy → Db → List Text
unfolding over_age over_count extend
to_delete now policy db =
    extend (extend [] (over_age now policy.days db)) (over_count policy.max_drives db)

unfoldable pub delete_routes : List Text → AppState → AppState
unfolding delete_route
delete_routes [] state = state
delete_routes (k ∷ ks) state = delete_routes ks (delete_route k state)

-- The movies whose route is gone.
unfoldable pub orphans : Db → List Movie
orphans db =
    select (λ (m : Movie). not (any (λ (r : Route). text_eq r.fullname m.fullname) db.routes))
      db.movies

unfoldable pub delete_orphans : List Movie → AppState → AppState
delete_orphans [] state = state
delete_orphans (m ∷ ms) state = delete_orphans ms (elim (split_once b'|' m.fullname) [
  | none ↦ state
  | some (dongle, ts) ↦ delete_movie dongle ts m.cam state
])

-- ORDER BY start_time_utc_millis ASC, created_at ASC LIMIT 1
unfoldable pub oldest : List Route → Option Route
unfolding is_newer
oldest [] = none
oldest (r ∷ rs) = elim (oldest rs) [
  | none ↦ some r
  | some o ↦ if is_newer r o then some o else some r
]

-- The loop of the storage limit, and the number of deletions.
unfoldable pub until_under : (AppState → ℕ) → ℕ → ℕ → AppState → ℕ × AppState
unfolding oldest delete_route
until_under bytes cap zero state = (0, state)
until_under bytes cap (suc fuel) state = elim (oldest state.db.routes) [
  | none ↦ (0, state)
  | some r ↦
      let (n, s) = until_under bytes cap fuel (delete_route r.fullname state) in
      if leb (bytes state) cap then (0, state) else (n + 1, s)
]

-- The fuel of the storage limit is the number of routes.
unfoldable pub run_once : (AppState → ℕ) → ℤ → Policy → AppState → ℕ × AppState
unfolding to_delete delete_routes orphans delete_orphans until_under
run_once bytes now policy state =
    let names = to_delete now policy state.db in
    let pruned = delete_routes names state in
    let s = delete_orphans (orphans pruned.db) pruned in
    elim policy.cap [
      | none ↦ (length names, s)
      | some cap ↦
          let (n, s') = until_under bytes cap (length s.db.routes) s in (length names + n, s')
    ]
