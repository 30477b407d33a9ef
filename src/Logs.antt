-- ===== src/Logs.antt =====
-- src/parse.rs, the logs: what a segment's log yields. Decoding (bzip2, zstd, capnp) is a library's, so
-- a log is the list of its messages, each with the fields that the parser reads; floats are a parameter.
pub mod Accumulate
pub mod Messages
pub mod Timeline
pub mod Stats
pub mod Aggregate
pub mod Recomputed
pub mod Listed
pub mod Decode
pub mod Rows
pub mod Maxima
pub mod Sampling
pub mod Edges
use homeconnect.Prelude.{Bool, Option, ℕ}
use homeconnect.Prelude.Floats.{Floats}
use homeconnect.Prelude.Int.{ℤ}
use homeconnect.Prelude.Text.{Text, t}
use homeconnect.Storage.{Bytes}

-- The enumerations of the log's schema.
pub data GearShifter : Type 0 where
  unknown : GearShifter
  park : GearShifter
  drive : GearShifter
  neutral : GearShifter
  reverse : GearShifter
  sport : GearShifter
  low : GearShifter
  brake : GearShifter
  eco : GearShifter
  manumatic : GearShifter

unfoldable pub gear_name : GearShifter → Text
gear_name GearShifter.unknown = t "unknown"
gear_name GearShifter.park = t "park"
gear_name GearShifter.drive = t "drive"
gear_name GearShifter.neutral = t "neutral"
gear_name GearShifter.reverse = t "reverse"
gear_name GearShifter.sport = t "sport"
gear_name GearShifter.low = t "low"
gear_name GearShifter.brake = t "brake"
gear_name GearShifter.eco = t "eco"
gear_name GearShifter.manumatic = t "manumatic"

pub data DeviceType : Type 0 where
  unknown : DeviceType
  neo : DeviceType
  chffr_android : DeviceType
  chffr_ios : DeviceType
  tici : DeviceType
  pc : DeviceType
  tizi : DeviceType
  mici : DeviceType

unfoldable pub device_type_name : DeviceType → Text
device_type_name DeviceType.unknown = t "unknown"
device_type_name DeviceType.neo = t "neo"
device_type_name DeviceType.chffr_android = t "chffrAndroid"
device_type_name DeviceType.chffr_ios = t "chffrIos"
device_type_name DeviceType.tici = t "tici"
device_type_name DeviceType.pc = t "pc"
device_type_name DeviceType.tizi = t "tizi"
device_type_name DeviceType.mici = t "mici"

pub data AlertStatus : Type 0 where
  normal : AlertStatus
  user_prompt : AlertStatus
  critical : AlertStatus

pub data AlertSize : Type 0 where
  hidden : AlertSize
  small : AlertSize
  mid : AlertSize
  full : AlertSize

-- The object in the field `data` of a state event.
pub record StateData : Type 0 where
  pub state : Text
  pub enabled : Bool
  pub lat : Bool
  pub long : Bool
  pub alert_status : ℕ
  pub end_route_offset_millis : Option ℤ

pub record DriveEvent : Type 0 where
  pub kind : Text
  pub time : ℕ
  pub route_offset_millis : ℤ
  pub payload : StateData

-- A reader's result, and the check that a text is UTF-8, are options.
pub record InitData : Type 0 where
  pub git_branch : Option (Option Text)
  pub git_commit : Option (Option Text)
  pub git_remote : Option (Option Text)
  pub device_type : Option DeviceType

pub record SelfdriveState : Type 0 where
  pub enabled : Bool
  pub engageable : Bool
  pub alert_status : Option AlertStatus
  pub alert_size : Option AlertSize

module _ (fl : Floats) where
  open fl use {F64, F32}

  pub record Gps : Type 0 where
    pub flags : ℕ
    pub has_fix : Bool
    pub latitude : F64
    pub longitude : F64
    pub unix_timestamp_millis : ℤ
    pub speed : F32

  pub record CarState : Type 0 where
    pub gear_shifter : Option GearShifter
    pub cruise_enabled : Option Bool
    pub v_ego : F32
    pub left_blinker : Bool
    pub right_blinker : Bool
    pub brake_pressed : Bool
    pub gas_pressed : Bool
    pub steering_angle_deg : F32
    pub steering_pressed : Bool
    pub fuel_gauge : F32
    pub charging : Bool

  pub record DmState : Type 0 where
    pub is_active_mode : Bool
    pub face_detected : Bool
    pub is_distracted : Bool
    pub awareness_status : F32

  -- What `event.which()` gives: a variant whose reader fails, or that is not read, is `unread`.
  pub data Which : Type 0 where
    gps_location : Gps → Which
    device_state : F32 → F32 → ℤ → Which
    car_params : Option Text → Which
    init_data : InitData → Which
    selfdrive_state : SelfdriveState → Which
    selfdrive_state_sp : Option Bool → Which
    driver_monitoring_state : DmState → Which
    car_state : CarState → Which
    can : Which
    thumbnail : Option Bytes → Which
    unread : Which

  pub record Coord : Type 0 where
    pub t : F64
    pub lat : F64
    pub lng : F64
    pub speed : F32
    pub dist : F64

  pub record Telem : Type 0 where
    pub t : F64
    pub speed : F32
    pub gear : Text
    pub lb : Bool
    pub rb : Bool
    pub brake : Bool
    pub gas : Bool
    pub steer : F32
    pub steer_override : Bool
    pub engaged : Bool
    pub lat : Bool
    pub long : Bool
    pub cruise : Bool
    pub soc : F32
    pub charging : Bool
    pub dm_aware : F32
    pub dm_distracted : Bool
    pub dm_face : Bool
