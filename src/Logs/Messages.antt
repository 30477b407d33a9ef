-- ===== src/Logs/Messages.antt =====
-- src/parse.rs: one message of a log, and the loop over all of them.
use homeconnect.Logs.{
  CarState, DmState, Gps, InitData, SelfdriveState, Telem, Which, can, car_params, car_state,
  device_state, device_type_name, driver_monitoring_state, gear_name, gps_location, init_data,
  selfdrive_state, selfdrive_state_sp, thumbnail, unread,
}
use homeconnect.Logs.Accumulate.{
  Accum, Engagement, alert_level, emit_state_change, text_field, u64_max,
}
use homeconnect.Prelude.{
  Bool, List, Option, [], false, if◌then◌else◌, leb, min, none, not, some, true, unwrap_or, ℕ, ◌%◌,
  ◌&&◌, ◌++◌, ◌+◌, ◌-◌, ◌==◌, ◌||◌, ◌∷◌,
}
use homeconnect.Prelude.Floats.{Floats}
use homeconnect.Prelude.Int.{ltb_ℤ, pos, ℤ}
use homeconnect.Prelude.Text.{t}

-- Telemetry is thinned to one sample in 250 ms.
abbrev pub telem_step : ℕ
telem_step = 250000000

module _ (fl : Floats) where
  open fl use {F64, F32}

  unfoldable pub haversine_m : F64 → F64 → F64 → F64 → F64
  haversine_m lat1 lon1 lat2 lon2 =
      let r : F64 = fl.lit 6371000 0 in
      let p1 : F64 = fl.to_radians lat1 in
      let p2 : F64 = fl.to_radians lat2 in
      let dphi : F64 = fl.to_radians (fl.sub lat2 lat1) in
      let dlam : F64 = fl.to_radians (fl.sub lon2 lon1) in
      let sphi : F64 = fl.sin (fl.div dphi (fl.lit 2 0)) in
      let slam : F64 = fl.sin (fl.div dlam (fl.lit 2 0)) in
      let a : F64 =
        fl.add (fl.mul sphi sphi) (fl.mul (fl.mul (fl.cos p1) (fl.cos p2)) (fl.mul slam slam)) in
      fl.mul (fl.mul (fl.lit 2 0) r) (fl.atan2 (fl.sqrt a) (fl.sqrt (fl.sub (fl.lit 1 0) a)))

  dist_from : Option (F64 × F64) → F64 → F64 → F64
  unfolding haversine_m
  dist_from none lat lng = fl.lit 0 0
  dist_from (some (plat, plng)) lat lng = haversine_m plat plng lat lng

  first_of : Option (F64 × F64 × ℤ) → F64 × F64 × ℤ → Option (F64 × F64 × ℤ)
  first_of none p = some p
  first_of (some q) p = some q

  -- (gps.get_flags() % 2 == 1) || gps.get_has_fix()
  unfoldable pub has_gps_fix : Gps fl → Bool
  has_gps_fix g = g.flags % 2 == 1 || g.has_fix

  unfoldable pub on_gps : F64 → Gps fl → Accum fl → Accum fl
  unfolding has_gps_fix dist_from first_of
  on_gps time g acc =
      if not (has_gps_fix g)
      then acc
      else (let dist : F64 = dist_from acc.last_pt g.latitude g.longitude in
          record acc {
            has_gps = true;
            first_gps = first_of acc.first_gps (g.latitude, g.longitude, g.unix_timestamp_millis);
            last_gps = some (g.latitude, g.longitude, g.unix_timestamp_millis);
            total_meters = fl.add acc.total_meters dist;
            last_pt = some (g.latitude, g.longitude);
            coords =
                acc.coords
                ++ record {
                  t = time;
                  lat = g.latitude;
                  lng = g.longitude;
                  speed = g.speed;
                  dist = dist;
                }
                  ∷ [];
          })

  unfoldable pub on_device_state : F32 → F32 → ℤ → Accum fl → Accum fl
  on_device_state temp fsp mem acc = record acc {
    max_temp = if fl.lt32 acc.max_temp temp then temp else acc.max_temp;
    min_free = if not acc.has_health || fl.lt32 fsp acc.min_free then fsp else acc.min_free;
    max_mem = if ltb_ℤ acc.max_mem mem then mem else acc.max_mem;
    has_health = true;
  }

  unfoldable pub on_init_data : InitData → Accum fl → Accum fl
  on_init_data d acc = record acc {
    git_branch = text_field d.git_branch acc.git_branch;
    git_commit = text_field d.git_commit acc.git_commit;
    git_remote = text_field d.git_remote acc.git_remote;
    device_type = elim d.device_type [ none ↦ acc.device_type | some dt ↦ device_type_name dt ];
  }

  unfoldable pub on_selfdrive_state : F64 → ℕ → SelfdriveState → Accum fl → Accum fl
  on_selfdrive_state time mono ss acc = emit_state_change fl time mono (record acc {
    engagement = record acc.engagement {
      cur_engaged = ss.enabled;
      seen_selfdrive = true;
      cur_alert = alert_level ss.alert_status ss.alert_size ss.engageable;
    };
  })

  unfoldable pub on_mads : F64 → ℕ → Bool → Accum fl → Accum fl
  on_mads time mono active acc = emit_state_change fl time mono (record acc {
    engagement = record acc.engagement { cur_lat = active; seen_selfdrive = true };
  })

  unfoldable pub telem_of : F64 → CarState fl → Accum fl → Telem fl
  telem_of time cs acc =
      let g : Engagement = acc.engagement in
      let dm : DmState fl = acc.dm in
      record {
        t = time;
        speed = fl.mul32 cs.v_ego (fl.lit32 2236936 6);
        gear = elim cs.gear_shifter [ none ↦ t "unknown" | some s ↦ gear_name s ];
        lb = cs.left_blinker;
        rb = cs.right_blinker;
        brake = cs.brake_pressed;
        gas = cs.gas_pressed;
        steer = cs.steering_angle_deg;
        steer_override = cs.steering_pressed;
        engaged = g.cur_engaged || g.cur_lat;
        lat = g.cur_lat;
        long = g.cur_engaged;
        cruise = unwrap_or cs.cruise_enabled false;
        soc = fl.mul32 cs.fuel_gauge (fl.lit32 100 0);
        charging = cs.charging;
        dm_aware = if dm.is_active_mode then dm.awareness_status else fl.neg32 (fl.lit32 1 0);
        dm_distracted = dm.is_active_mode && dm.is_distracted;
        dm_face = dm.is_active_mode && dm.face_detected;
      }

  unfoldable pub on_car_state : F64 → ℕ → CarState fl → Accum fl → Accum fl
  on_car_state time mono cs acc =
      if acc.engagement.seen_selfdrive && leb (min u64_max (acc.last_telem_mono + telem_step)) mono
      then record acc {
        last_telem_mono = mono;
        telemetry = acc.telemetry ++ telem_of time cs acc ∷ [];
      }
      else acc

  unfoldable pub on_which : F64 → ℕ → Which fl → Accum fl → Accum fl
  unfolding on_gps on_device_state on_init_data on_selfdrive_state on_mads on_car_state
  on_which time mono (gps_location g) acc = on_gps time g acc
  on_which time mono (device_state temp fsp mem) acc = on_device_state temp fsp mem acc
  on_which time mono (car_params none) acc = acc
  on_which time mono (car_params (some s)) acc = record acc { car_fingerprint = s }
  on_which time mono (init_data d) acc = on_init_data d acc
  on_which time mono (selfdrive_state ss) acc = on_selfdrive_state time mono ss acc
  on_which time mono (selfdrive_state_sp none) acc = acc
  on_which time mono (selfdrive_state_sp (some active)) acc = on_mads time mono active acc
  on_which time mono (driver_monitoring_state dm) acc = record acc { dm = dm }
  on_which time mono (car_state cs) acc = on_car_state time mono cs acc
  on_which time mono can acc = record acc { has_can = true }
  on_which time mono (thumbnail none) acc = acc
  on_which time mono (thumbnail (some bytes)) acc = record acc {
    thumbnails = acc.thumbnails ++ bytes ∷ [];
  }
  on_which time mono unread acc = acc

  -- acc.route_base_mono.get_or_insert(mono)
  unfoldable pub accumulate : Which fl → ℕ → Accum fl → Accum fl
  unfolding on_which
  accumulate which mono acc =
      let base : ℕ = unwrap_or acc.route_base_mono mono in
      let time : F64 = fl.div (fl.of_int (pos (mono - base))) (fl.lit 1000000000 0) in
      on_which time mono which (record acc { route_base_mono = some base })

  -- The loop of parse_and_store over the messages that are read and known, with their mono times.
  unfoldable pub accumulate_all : List (Which fl × ℕ) → Accum fl → Accum fl
  unfolding accumulate
  accumulate_all [] acc = acc
  accumulate_all ((which, mono) ∷ ms) acc = accumulate_all ms (accumulate which mono acc)
