-- ===== src/Logs/Rows.antt =====
-- src/parse.rs: the rows that a parsed log writes. The columns of segments and routes that only the parser
-- and the pages read stand beside the tables of Db, keyed by the row's name.
use homeconnect.AppState.{AppState}
use homeconnect.Db.{Db, Route, Segment}
use homeconnect.Logs.Accumulate.{Accum, new_accum}
use homeconnect.Logs.Aggregate.{RouteStats, SegRow, aggregate}
use homeconnect.Logs.Decode.{Decoders, decompress, write_artifacts}
use homeconnect.Logs.Messages.{accumulate_all}
use homeconnect.Logs.Stats.{SegStats, no_stats, telemetry_stats}
use homeconnect.Prelude.{
  Action, List, Option, [], any, err, if◌then◌else◌, is_empty, map, none, ok, select, some,
  unwrap_or, update_where, ◌∷◌,
}
use homeconnect.Prelude.Containers.{map_get, map_insert}
use homeconnect.Prelude.Floats.{Floats}
use homeconnect.Prelude.Int.{leb_ℤ, pos, ℤ}
use homeconnect.Prelude.Text.{Text, t, text_eq}
use homeconnect.Segments.{bare_segment, ensure_route, insert_segment, set_segment_file}
use homeconnect.Settings.{Config}
use homeconnect.Storage.{Bytes, blob_key, canonical_of, exists, fullname_of}

-- The columns of routes that write_route_meta sets.
pub record RouteMeta : Type 0 where
  pub platform : Text
  pub git_remote : Text
  pub git_branch : Text
  pub git_commit : Text

-- CASE WHEN ? != '' THEN ? ELSE old END
abbrev if_some : Text → Text → Text
if_some new old = if is_empty new then old else new

module _ (fl : Floats) where
  open fl use {F64}

  pub record SegColumns : Type 0 where
    pub start_lat : F64
    pub start_lng : F64
    pub end_lat : F64
    pub end_lng : F64
    pub miles : F64
    pub start_time_utc_millis : ℤ
    pub end_time_utc_millis : ℤ
    pub stats : SegStats fl
    pub max_temp : F64
    pub min_free : F64
    pub max_mem : ℤ

  -- The columns' defaults in the migrations.
  unfoldable pub default_columns : SegColumns
  unfolding no_stats
  default_columns = record {
    start_lat = fl.lit 0 0;
    start_lng = fl.lit 0 0;
    end_lat = fl.lit 0 0;
    end_lng = fl.lit 0 0;
    miles = fl.lit 0 0;
    start_time_utc_millis = pos 0;
    end_time_utc_millis = pos 0;
    stats = no_stats fl;
    max_temp = fl.lit 0 0;
    min_free = fl.neg (fl.lit 1 0);
    max_mem = pos 0;
  }

  pub record Tables : Type 0 where
    pub app : AppState
    pub segment_columns : List (Text × SegColumns)
    pub route_columns : List (Text × RouteStats fl)
    pub route_meta : List (Text × RouteMeta)
    pub device_gps : List (Text × (F64 × F64 × ℤ))

  -- The values that upsert_segment binds.
  unfoldable pub columns_of : Accum fl → SegColumns
  columns_of acc =
      let nowhere : F64 × F64 × ℤ = (fl.lit 0 0, fl.lit 0 0, pos 0) in
      let (slat, slng, sts) = unwrap_or acc.first_gps nowhere in
      let (elat, elng, ets) = unwrap_or acc.last_gps nowhere in
      record {
        start_lat = slat;
        start_lng = slng;
        end_lat = elat;
        end_lng = elng;
        miles = fl.div acc.total_meters (fl.lit 1609344 3);
        start_time_utc_millis = sts;
        end_time_utc_millis = ets;
        stats = telemetry_stats fl acc.telemetry;
        max_temp = fl.widen acc.max_temp;
        min_free = if acc.has_health then fl.widen acc.min_free else fl.neg (fl.lit 1 0);
        max_mem = acc.max_mem;
      }

  abbrev pub with_db : (Db → Db) → Tables → Tables
  with_db f s = record s { app = record s.app { db = f s.app.db } }

  -- Each sibling camera that is stored already is registered too.
  unfoldable pub set_siblings : Config → ℤ → Text → Text → ℤ → List Text → Tables → Tables
  set_siblings config now dongle ts seg [] s = s
  set_siblings config now dongle ts seg (cam ∷ cams) s =
      set_siblings config now dongle ts seg cams (
        if exists s.app.blobs (blob_key dongle ts seg cam)
        then with_db (set_segment_file config now dongle ts seg cam) s
        else s)

  abbrev pub sibling_cams : List Text
  sibling_cams = t "qcamera.ts" ∷ t "fcamera.hevc" ∷ t "dcamera.hevc" ∷ t "ecamera.hevc" ∷ []

  -- The row's statement, and the registration of the file itself.
  unfoldable pub upsert_row : Config → ℤ → Text → Text → ℤ → Text → Accum fl → Tables → Tables
  unfolding columns_of
  upsert_row config now dongle ts seg file acc s =
      let row : Tables =
        with_db (λ db. insert_segment (bare_segment dongle ts seg) (ensure_route dongle ts now db))
          s in
      with_db (set_segment_file config now dongle ts seg file) (record row {
        segment_columns =
            map_insert (canonical_of dongle ts seg) (columns_of acc) row.segment_columns;
      })

  unfoldable pub upsert_segment : Config → ℤ → Text → Text → ℤ → Text → Accum fl → Tables → Tables
  unfolding set_siblings upsert_row
  upsert_segment config now dongle ts seg file acc s =
      set_siblings config now dongle ts seg sibling_cams
        (upsert_row config now dongle ts seg file acc s)

  -- A row of the query of recompute_route.
  unfoldable pub seg_row : Tables → Segment → SegRow fl
  unfolding default_columns
  seg_row s g =
      let c : SegColumns = unwrap_or (map_get g.canonical_name s.segment_columns) default_columns in
      record {
        number = g.number;
        qcam_url = g.qcam_url;
        fcam_url = g.fcam_url;
        dcam_url = g.dcam_url;
        ecam_url = g.ecam_url;
        qlog_url = g.qlog_url;
        rlog_url = g.rlog_url;
        start_lat = c.start_lat;
        start_lng = c.start_lng;
        end_lat = c.end_lat;
        end_lng = c.end_lng;
        miles = c.miles;
        start_time_utc_millis = c.start_time_utc_millis;
        end_time_utc_millis = c.end_time_utc_millis;
        engaged_meters = c.stats.engaged_m;
        telem_meters = c.stats.telem_m;
        engaged_seconds = c.stats.engaged_s;
        drive_seconds = c.stats.drive_s;
        max_speed = c.stats.max_speed;
        disengage_count = pos c.stats.disengage;
        hard_brake_count = pos c.stats.hard_brake;
        hard_accel_count = pos c.stats.hard_accel;
        max_temp = c.max_temp;
        min_free = c.min_free;
        max_mem = c.max_mem;
      }

  -- ORDER BY number ASC
  unfoldable pub insert_row : SegRow fl → List (SegRow fl) → List (SegRow fl)
  insert_row r [] = r ∷ []
  insert_row r (q ∷ qs) =
      let rest = insert_row r qs in if leb_ℤ r.number q.number then r ∷ q ∷ qs else q ∷ rest

  unfoldable pub by_number : List (SegRow fl) → List (SegRow fl)
  unfolding insert_row
  by_number [] = []
  by_number (r ∷ rs) = insert_row r (by_number rs)

  unfoldable pub route_rows : Text → Tables → List (SegRow fl)
  unfolding seg_row by_number
  route_rows fullname s = by_number (
      map (seg_row s)
        (select (λ (g : Segment). text_eq g.canonical_route_name fullname) s.app.db.segments))

  set_start : Text → ℤ → Db → Db
  set_start fullname start db = record db {
    routes =
        update_where (λ (r : Route). text_eq r.fullname fullname)
          (λ r. record r { start_time_utc_millis = start }) db.routes;
  }

  -- UPDATE routes SET …: there is no row to write to if the route is unknown.
  unfoldable pub recompute_route : Text → Text → Tables → Tables
  unfolding route_rows set_start
  recompute_route dongle ts s =
      let fullname : Text = fullname_of dongle ts in
      elim (route_rows fullname s) [
        | [] ↦ s
        | r ∷ rs ↦
            if any (λ (r : Route). text_eq r.fullname fullname) s.app.db.routes
            then with_db (set_start fullname (aggregate fl (r ∷ rs)).start_time_utc_millis)
                (record s {
                  route_columns = map_insert fullname (aggregate fl (r ∷ rs)) s.route_columns;
                })
            else s
      ]

  unfoldable pub write_route_meta : Text → Text → Accum fl → Tables → Tables
  write_route_meta dongle ts acc s =
      let fullname : Text = fullname_of dongle ts in
      let none_yet : RouteMeta = record {
        platform = [];
        git_remote = [];
        git_branch = [];
        git_commit = [];
      } in
      let m : RouteMeta = unwrap_or (map_get fullname s.route_meta) none_yet in
      if any (λ (r : Route). text_eq r.fullname fullname) s.app.db.routes
      then record s {
        route_meta =
            map_insert fullname
              (record {
                platform = if_some acc.car_fingerprint m.platform;
                git_remote = if_some acc.git_remote m.git_remote;
                git_branch = if_some acc.git_branch m.git_branch;
                git_commit = if_some acc.git_commit m.git_commit;
              })
              s.route_meta;
      }
      else s

  unfoldable pub keep_gps : Text → Option (F64 × F64 × ℤ) → Tables → Tables
  keep_gps dongle none s = s
  keep_gps dongle (some p) s = record s { device_gps = map_insert dongle p s.device_gps }

  -- parse_and_store: a log that cannot be decompressed changes nothing.
  unfoldable pub parse_and_store :
      Decoders fl → Config → ℤ → Text → Text → ℤ → Text → Bytes → Action Tables (Unit {0})
  unfolding keep_gps
  parse_and_store lib config now dongle ts seg file raw s = elim (decompress fl lib file raw) [
    | err e ↦ (err e, s)
    | ok bytes ↦
        let acc : Accum fl = accumulate_all fl (lib.messages bytes) (new_accum fl) in
        let stored : Tables = record s {
          app = record s.app { blobs = write_artifacts fl lib dongle ts seg acc s.app.blobs };
        } in
        let upserted : Tables = upsert_segment config now dongle ts seg file acc stored in
        let recomputed : Tables = recompute_route dongle ts upserted in
        (ok tt, keep_gps dongle acc.last_gps (write_route_meta dongle ts acc recomputed))
  ]
