-- ===== src/Examples/Logs.antt =====
-- The theorems on logs, applied to a short log with whole numbers in the place of floats.
use homeconnect.Examples.{household}
use homeconnect.Examples.Drives.{conf}
use homeconnect.Logs.{
  AlertStatus, CarState, GearShifter, SelfdriveState, Telem, Which, car_state, selfdrive_state,
}
use homeconnect.Logs.Accumulate.{new_accum}
use homeconnect.Logs.Decode.{Decoders, Images, decompress}
use homeconnect.Logs.Edges.{IsSummary, start_of, telemetry_stats_lem}
use homeconnect.Logs.Listed.{parse_and_store_lem}
use homeconnect.Logs.Messages.{accumulate_all}
use homeconnect.Logs.Recomputed.{Lists}
use homeconnect.Logs.Rows.{Tables, parse_and_store}
use homeconnect.Logs.Sampling.{telemetry_bound}
use homeconnect.Logs.Stats.{telemetry_stats}
use homeconnect.Logs.Timeline.{IsTimeline, accumulate_all-IsTimeline}
use homeconnect.Prelude.{
  Bool, List, [], arith, false, leb, length, ltb, max, min, none, ok, refl, some, true, ℕ, ◌*◌, ◌+◌,
  ◌-◌, ◌/◌, ◌==◌, ◌^◌, ◌∷◌, ◌≡◌, ◌≤◌,
}
use homeconnect.Prelude.Floats.{Floats}
use homeconnect.Prelude.Int.{pos, pos_part}
use homeconnect.Prelude.Split.{ends_with}
use homeconnect.Prelude.Text.{contains, strip_prefix, t, text_eq}
use homeconnect.Segments.{file_kind}
use homeconnect.Storage.{fullname_of}

abbrev pub whole : Floats
whole = record {
  F64 = ℕ;
  F32 = ℕ;
  lit = λ n k. n / 10 ^ k;
  lit32 = λ n k. n / 10 ^ k;
  neg = λ x. x;
  neg32 = λ x. x;
  add = λ x y. x + y;
  sub = λ x y. x - y;
  mul = λ x y. x * y;
  div = λ x y. x / y;
  mul32 = λ x y. x * y;
  fmax = max;
  fmin = min;
  lt = ltb;
  le = leb;
  eq = λ x y. x == y;
  lt32 = ltb;
  widen = λ x. x;
  of_int = pos_part;
  to_i64 = pos;
  max_value = 1000000;
  to_radians = λ x. x;
  sin = λ x. x;
  cos = λ x. x;
  sqrt = λ x. x;
  atan2 = λ x y. x;
}

abbrev reading : Bool → SelfdriveState
reading enabled = record {
  enabled = enabled;
  engageable = true;
  alert_status = some AlertStatus.normal;
  alert_size = none;
}

abbrev car : CarState whole
car = record {
  gear_shifter = some GearShifter.drive;
  cruise_enabled = some true;
  v_ego = 20;
  left_blinker = false;
  right_blinker = false;
  brake_pressed = false;
  gas_pressed = false;
  steering_angle_deg = 0;
  steering_pressed = false;
  fuel_gauge = 1;
  charging = false;
}

-- Engaged at the start, a sample, and disengaged after a second.
abbrev log : List (Which whole × ℕ)
log =
    (selfdrive_state (reading true), 1000000000)
    ∷ (car_state car, 1300000000)
    ∷ (car_state car, 1400000000)
    ∷ (selfdrive_state (reading false), 2000000000)
    ∷ []

accumulate_all-IsTimeline_example :
    IsTimeline
      (accumulate_all whole log (new_accum whole)).events
      (accumulate_all whole log (new_accum whole)).last_state
accumulate_all-IsTimeline_example = accumulate_all-IsTimeline whole log

telemetry_example :
    length (accumulate_all whole log (new_accum whole)).telemetry * 250000000 ≤ 2000000000
telemetry_example = telemetry_bound whole 2000000000 log (omega arith) (omega arith)

abbrev sample : ℕ → ℕ → Bool → Telem whole
sample time speed engaged = record {
  t = time;
  speed = speed;
  gear = [];
  lb = false;
  rb = false;
  brake = false;
  gas = false;
  steer = 0;
  steer_override = false;
  engaged = engaged;
  lat = false;
  long = engaged;
  cruise = false;
  soc = 0;
  charging = false;
  dm_aware = 0;
  dm_distracted = false;
  dm_face = false;
}

stats_example :
    IsSummary whole
      (start_of whole (sample 1 50 true))
      (sample 1 50 true)
      (sample 2 60 true ∷ sample 3 40 false ∷ [])
      (telemetry_stats whole (sample 1 50 true ∷ sample 2 60 true ∷ sample 3 40 false ∷ []))
stats_example =
    telemetry_stats_lem whole (sample 1 50 true) (sample 2 60 true ∷ sample 3 40 false ∷ [])

abbrev blank : Images
blank = record {
  Canvas = Unit {0};
  Image = Unit {0};
  new = λ w h. tt;
  load_from_memory = λ b. none;
  paste_resized = λ i w h x c. c;
  encode_jpeg = λ q c. none;
}

-- A log without compression, of one message.
abbrev pub decoders : Decoders whole
decoders = record {
  bz2 = λ b. some b ∷ [];
  zstd = λ b. some (some b ∷ []);
  messages = λ b. log;
  coords_json = λ c. [];
  events_json = λ c. [];
  telemetry_json = λ c. [];
  images = blank;
}

abbrev pub tables : Tables whole
tables = record {
  app = record {
    db = household;
    blobs = record { sha256_hex = λ key. 97 ∷ []; root = []; files = [] };
    transcodes = [];
  };
  segment_columns = [];
  route_columns = [];
  route_meta = [];
  device_gps = [];
}

parse_example :
    ((parse_and_store whole decoders conf
        (pos 1)
        (100 ∷ [])
        (116 ∷ [])
        (pos 0)
        (t "qlog")
        (1 ∷ [])
        tables).0
      ≡ ok tt)
    × Lists whole
        (fullname_of (100 ∷ []) (116 ∷ []))
        (pos 0)
        (parse_and_store whole decoders conf
          (pos 1)
          (100 ∷ [])
          (116 ∷ [])
          (pos 0)
          (t "qlog")
          (1 ∷ [])
          tables).1
unfolding decompress file_kind ends_with contains strip_prefix t text_eq
parse_example =
    parse_and_store_lem whole decoders conf (pos 1) (100 ∷ []) (116 ∷ []) (t "qlog") (t "qlog")
      (pos 0) (1 ∷ []) (1 ∷ []) tables refl refl tt
