-- ===== src/Browse/Drives.antt =====
-- src/api/v1.rs: the rows of drives, as the pages print them, and the list of a device's drives.
use homeconnect.Access.{Auth, allow_route_view, can_manage_loaded}
use homeconnect.Browse.{Encoder, issue_hs512_ttl, sig_for}
use homeconnect.Browse.UploadUrls.{clamp_ℤ}
use homeconnect.Db.{Route, User, device_by_dongle}
use homeconnect.Ignore.{Rule, RulesJson, is_ignored, load_rules}
use homeconnect.Logs.Aggregate.{RouteStats}
use homeconnect.Logs.Rows.{RouteMeta, Tables}
use homeconnect.Prelude.{
  AppResult, Bool, List, Option, [], drop, err, find, forbidden, if◌then◌else◌, map, none, not,
  not_found, ok, select, some, take, unwrap_or, ◌&&◌, ◌++◌, ◌==◌, ◌∷◌,
}
use homeconnect.Prelude.Containers.{map_get}
use homeconnect.Prelude.Floats.{Floats}
use homeconnect.Prelude.Int.{eq_ℤ, leb_ℤ, negsuc, pos, pos_part, ℤ}
use homeconnect.Prelude.Text.{Text, t, text_eq}
use homeconnect.Settings.{Config}
use homeconnect.Storage.{split_fullname}

pub record RoutesQuery : Type 0 where
  pub start : Option ℤ
  pub end : Option ℤ
  pub limit : Option ℤ
  pub offset : Option ℤ
  pub route_str : Option Text

-- i64::MAX
abbrev pub i64_max : ℤ
i64_max = pos 9223372036854775807

-- s.replace('|', "/")
unfoldable pub slashed : Text → Text
slashed [] = []
slashed (c ∷ s) = (if c == b'|' then b'/' else c) ∷ slashed s

module _ (fl : Floats) where
  open fl use {F64}

  -- A row of routes: the columns of Db, and those that the parser writes.
  pub record RouteRow : Type 0 where
    pub route : Route
    pub columns : RouteStats fl
    pub meta : RouteMeta

  -- The columns' defaults in the migrations.
  unfoldable pub default_route : RouteStats fl
  default_route = record {
    start_time_utc_millis = pos 0;
    end_time_utc_millis = pos 0;
    start_lat = fl.lit 0 0;
    start_lng = fl.lit 0 0;
    end_lat = fl.lit 0 0;
    end_lng = fl.lit 0 0;
    length = fl.lit 0 0;
    segment_numbers = [];
    segment_start_times = [];
    segment_end_times = [];
    maxqcamera = negsuc 0;
    maxcamera = negsuc 0;
    maxdcamera = negsuc 0;
    maxecamera = negsuc 0;
    maxqlog = negsuc 0;
    maxlog = negsuc 0;
    engaged_meters = fl.lit 0 0;
    telem_meters = fl.lit 0 0;
    engaged_seconds = fl.lit 0 0;
    drive_seconds = fl.lit 0 0;
    max_speed = fl.lit 0 0;
    disengage_count = pos 0;
    hard_brake_count = pos 0;
    hard_accel_count = pos 0;
    max_temp = fl.lit 0 0;
    min_free = fl.neg (fl.lit 1 0);
    max_mem = pos 0;
  }

  unfoldable pub route_row : Tables fl → Route → RouteRow
  unfolding default_route
  route_row s r = record {
    route = r;
    columns = unwrap_or (map_get r.fullname s.route_columns) default_route;
    meta =
        unwrap_or (map_get r.fullname s.route_meta)
          (record { platform = []; git_remote = []; git_branch = []; git_commit = [] });
  }

  unfoldable pub all_rows : Tables fl → List RouteRow
  unfolding route_row
  all_rows s = map (route_row s) s.app.db.routes

  -- maxqlog != -1
  unfoldable pub is_parsed : RouteRow → Bool
  is_parsed r = not (eq_ℤ r.columns.maxqlog (negsuc 0))

  unfoldable pub is_of : Text → RouteRow → Bool
  is_of dongle r = text_eq r.route.device_dongle_id dongle

  unfoldable pub is_named : Text → RouteRow → Bool
  is_named fullname r = text_eq r.route.fullname fullname

  unfoldable pub started_in : ℤ → ℤ → RouteRow → Bool
  started_in start end r =
      leb_ℤ start r.route.start_time_utc_millis && leb_ℤ r.route.start_time_utc_millis end

  -- ORDER BY start_time_utc_millis DESC
  unfoldable pub insert_desc : RouteRow → List RouteRow → List RouteRow
  insert_desc r [] = r ∷ []
  insert_desc r (q ∷ qs) =
      let rest = insert_desc r qs in
      if leb_ℤ q.route.start_time_utc_millis r.route.start_time_utc_millis
      then r ∷ q ∷ qs
      else q ∷ rest

  unfoldable pub newest_rows : List RouteRow → List RouteRow
  unfolding insert_desc
  newest_rows [] = []
  newest_rows (r ∷ rs) = insert_desc r (newest_rows rs)

  -- The two queries of routes_segments.
  unfoldable pub routes_of : Tables fl → Text → RoutesQuery → List RouteRow
  unfolding is_parsed is_of is_named started_in newest_rows all_rows clamp_ℤ
  routes_of s dongle q = elim q.route_str [
    | some rs ↦ select (λ r. is_named rs r && is_of dongle r && is_parsed r) (all_rows s)
    | none ↦
        let limit : ℤ = clamp_ℤ (pos 1) (pos 1000) (unwrap_or q.limit (pos 50)) in
        let offset : ℤ = unwrap_or q.offset (pos 0) in
        take (pos_part limit) (
          drop (pos_part offset) (
            newest_rows (
              select
                (λ r.
                  is_of dongle r
                  && is_parsed r
                  && started_in (unwrap_or q.start (pos 0)) (unwrap_or q.end i64_max) r)
                (all_rows s))))
  ]

  abbrev pub meters_per_mile : F64
  meters_per_mile = fl.lit 1609344 3

  abbrev pub mph_per_ms : F64
  mph_per_ms = fl.div (fl.lit 1 0) (fl.lit 44704 5)

  -- 100.0 * engaged / total, 0.0 without a total
  unfoldable pub autonomy_of : F64 → F64 → F64
  autonomy_of engaged total =
      if fl.lt (fl.lit 0 0) total then fl.div (fl.mul (fl.lit 100 0) engaged) total else fl.lit 0 0

  unfoldable pub avg_speed_of : F64 → F64 → F64
  avg_speed_of telem_meters drive_seconds =
      if fl.lt (fl.lit 0 0) drive_seconds
      then fl.mul (fl.div telem_meters drive_seconds) mph_per_ms
      else fl.lit 0 0

  -- What route_json derives from a row; the other fields are the row's.
  pub record RouteJson : Type 0 where
    pub row : RouteRow
    pub is_public : Bool
    pub autonomy : F64
    pub engaged_miles : F64
    pub telem_miles : F64
    pub avg_speed : F64
    pub url : Text
    pub qcamera_m3u8 : Text
    pub share_sig : Text

  unfoldable pub route_json : Text → Text → RouteRow → RouteJson
  unfolding slashed autonomy_of avg_speed_of
  route_json public_url sig r = record {
    row = r;
    is_public = not (r.route.is_public == 0);
    autonomy = autonomy_of r.columns.engaged_meters r.columns.telem_meters;
    engaged_miles = fl.div r.columns.engaged_meters meters_per_mile;
    telem_miles = fl.div r.columns.telem_meters meters_per_mile;
    avg_speed = avg_speed_of r.columns.telem_meters r.columns.drive_seconds;
    url = public_url ++ (t "/connectdata/" ++ slashed r.route.fullname);
    qcamera_m3u8 = public_url ++ (t "/v1/route/" ++ (r.route.fullname ++ t "/qcamera.m3u8"));
    share_sig = sig;
  }

  -- is_ignored(rules, length, drive_seconds / 60.0)
  unfoldable pub row_ignored : List (Rule fl) → RouteRow → Bool
  row_ignored rules r =
      is_ignored fl rules r.columns.length (fl.div r.columns.drive_seconds (fl.lit 60 0))

  module _ (jwt : Encoder) (secret_b64 : Text) (now : ℤ) (config : Config)
      (json : RulesJson fl) where
    -- Each drive comes with its mark `ignored`.
    unfoldable pub routes_segments :
        Tables fl → User → Text → RoutesQuery → AppResult (List (RouteJson × Bool))
    unfolding routes_of route_json row_ignored
    routes_segments s user dongle q = elim (device_by_dongle dongle s.app.db) [
      | none ↦ err (not_found (t "unknown device"))
      | some device ↦
          if not (can_manage_loaded s.app.db user device)
          then err (forbidden (t "not authorized for device"))
          else elim (issue_hs512_ttl jwt secret_b64 now user.identity (pos 86400)) [
            | err e ↦ err e
            | ok sig ↦
                let rules : List (Rule fl) = load_rules fl json s.app.db in
                ok (
                  map (λ r. (route_json config.public_url sig r, row_ignored rules r))
                    (routes_of s dongle q))
          ]
    ]

    -- GET /v1/route/:fullname/info
    unfoldable pub route_info : Tables fl → Text → Option Auth → AppResult RouteJson
    unfolding is_parsed is_named all_rows route_json
    route_info s fullname auth = elim (split_fullname fullname) [
      | err e ↦ err e
      | ok (dongle, _) ↦ elim (allow_route_view s.app.db fullname dongle auth) [
        | err e ↦ err e
        | ok _ ↦ elim (find (λ r. is_named fullname r && is_parsed r) (all_rows s)) [
          | none ↦ err (not_found (t "unknown route"))
          | some row ↦ elim (sig_for jwt secret_b64 now auth) [
            | err e ↦ err e
            | ok sig ↦ ok (route_json config.public_url sig row)
          ]
        ]
      ]
    ]
