-- ===== src/Logs/Accumulate.antt =====
-- src/parse.rs: the accumulator over the messages of a segment's log, and the state events.
use homeconnect.Logs.{AlertSize, AlertStatus, Coord, DmState, DriveEvent, Telem}
use homeconnect.Prelude.{
  Bool, List, Option, [], false, if◌then◌else◌, max, none, not, some, true, unwrap_or, ℕ, ◌&&◌,
  ◌++◌, ◌==◌, ◌||◌, ◌∷◌,
}
use homeconnect.Prelude.Floats.{Floats}
use homeconnect.Prelude.Int.{pos, ℤ}
use homeconnect.Prelude.Text.{Text, t}
use homeconnect.Storage.{Bytes}

abbrev pub u64_max : ℕ
u64_max = 18446744073709551615

-- The latest reading of engagement and of the alert level.
pub record Engagement : Type 0 where
  pub cur_engaged : Bool
  pub cur_lat : Bool
  pub cur_alert : ℕ
  pub seen_selfdrive : Bool

abbrev set_end : ℤ → DriveEvent → DriveEvent
set_end off e = record e { payload = record e.payload { end_route_offset_millis = some off } }

-- if let Some(prev) = acc.events.last_mut() { … }
unfoldable pub close_last : ℤ → List DriveEvent → List DriveEvent
close_last off [] = []
close_last off (e ∷ []) = set_end off e ∷ []
close_last off (e ∷ f ∷ es) = e ∷ close_last off (f ∷ es)

unfoldable pub state_event : Engagement → ℤ → ℕ → DriveEvent
state_event g off mono =
    let engaged : Bool = g.cur_engaged || g.cur_lat in
    record {
      kind = t "state";
      time = mono;
      route_offset_millis = off;
      payload = record {
        state = if engaged then t "enabled" else t "disabled";
        enabled = engaged;
        lat = g.cur_lat;
        long = g.cur_engaged;
        alert_status = g.cur_alert;
        end_route_offset_millis = none;
      };
    }

-- acc.last_state == Some(cur)
unfoldable pub same_state : Option (Bool × ℕ) → Bool → ℕ → Bool
same_state none engaged alert = false
same_state (some (e, a)) engaged alert = (if e then engaged else not engaged) && a == alert

-- The match on the alert of a SelfdriveState.
unfoldable pub alert_of : Option AlertStatus → ℕ
alert_of none = 0
alert_of (some AlertStatus.normal) = 0
alert_of (some AlertStatus.user_prompt) = 1
alert_of (some AlertStatus.critical) = 2

shows : Option AlertSize → Bool
shows none = false
shows (some AlertSize.hidden) = false
shows (some AlertSize.small) = true
shows (some AlertSize.mid) = true
shows (some AlertSize.full) = true

unfoldable pub alert_level : Option AlertStatus → Option AlertSize → Bool → ℕ
unfolding alert_of shows
alert_level status size engageable =
    if shows size && not engageable then max (alert_of status) 1 else alert_of status

-- if let Ok(v) = … { field = v.to_str().unwrap_or_default().to_string() }
unfoldable pub text_field : Option (Option Text) → Text → Text
text_field none old = old
text_field (some v) old = unwrap_or v []

module _ (fl : Floats) where
  open fl use {F64, F32}

  -- `first_gps` and `last_gps` are (lat, lng, unix_ms).
  pub record Accum : Type 0 where
    pub coords : List (Coord fl)
    pub events : List DriveEvent
    pub telemetry : List (Telem fl)
    pub last_telem_mono : ℕ
    pub thumbnails : List Bytes
    pub total_meters : F64
    pub first_gps : Option (F64 × F64 × ℤ)
    pub last_gps : Option (F64 × F64 × ℤ)
    pub route_base_mono : Option ℕ
    pub last_pt : Option (F64 × F64)
    pub car_fingerprint : Text
    pub git_remote : Text
    pub git_branch : Text
    pub git_commit : Text
    pub device_type : Text
    pub has_can : Bool
    pub has_gps : Bool
    pub engagement : Engagement
    pub dm : DmState fl
    pub max_temp : F32
    pub min_free : F32
    pub max_mem : ℤ
    pub has_health : Bool
    pub last_state : Option (Bool × ℕ)

  -- Accum::default()
  unfoldable pub new_accum : Accum
  new_accum = record {
    coords = [];
    events = [];
    telemetry = [];
    last_telem_mono = 0;
    thumbnails = [];
    total_meters = fl.lit 0 0;
    first_gps = none;
    last_gps = none;
    route_base_mono = none;
    last_pt = none;
    car_fingerprint = [];
    git_remote = [];
    git_branch = [];
    git_commit = [];
    device_type = [];
    has_can = false;
    has_gps = false;
    engagement = record {
      cur_engaged = false;
      cur_lat = false;
      cur_alert = 0;
      seen_selfdrive = false;
    };
    dm = record {
      is_active_mode = false;
      face_detected = false;
      is_distracted = false;
      awareness_status = fl.lit32 0 0;
    };
    max_temp = fl.lit32 0 0;
    min_free = fl.lit32 0 0;
    max_mem = pos 0;
    has_health = false;
    last_state = none;
  }

  unfoldable pub emit_state_change : F64 → ℕ → Accum → Accum
  unfolding close_last state_event same_state
  emit_state_change time mono acc =
      let g : Engagement = acc.engagement in
      let off : ℤ = fl.to_i64 (fl.mul time (fl.lit 1000 0)) in
      if same_state acc.last_state (g.cur_engaged || g.cur_lat) g.cur_alert
      then acc
      else record acc {
        events = close_last off acc.events ++ state_event g off mono ∷ [];
        last_state = some (g.cur_engaged || g.cur_lat, g.cur_alert);
      }
