-- ===== src/DeviceParams/Specs.antt =====
-- The allowlist of src/device_params.rs: for each key its kind, and the values or bounds. The labels, the
-- help texts, the steps, the units and the dependencies are for the page and are left out.
use homeconnect.Prelude.{List, [], ◌∷◌}
use homeconnect.Prelude.Int.{negsuc, pos, ℤ}
use homeconnect.Prelude.Text.{Text, t}

pub data Kind : Type 0 where
  bool_kind : Kind
  int_kind : Kind
  enum_kind : Kind
  info_kind : Kind

pub record Spec : Type 0 where
  pub key : Text
  pub kind : Kind
  pub options : List Text
  pub low : ℤ
  pub high : ℤ

-- b
abbrev pub boolean : Text → Spec
boolean key = record { key = key; kind = bool_kind; options = []; low = pos 0; high = pos 0 }

-- e
abbrev pub enumerated : Text → List Text → Spec
enumerated key options = record {
  key = key;
  kind = enum_kind;
  options = options;
  low = pos 0;
  high = pos 0;
}

-- int_
abbrev pub integer : Text → ℤ → ℤ → Spec
integer key low high = record { key = key; kind = int_kind; options = []; low = low; high = high }

-- info
abbrev pub information : Text → Spec
information key = record { key = key; kind = info_kind; options = []; low = pos 0; high = pos 0 }

-- SPECS
abbrev pub specs : List Spec
specs =
    boolean (t "OpenpilotEnabledToggle")
    ∷ boolean (t "ExperimentalMode")
    ∷ boolean (t "AlphaLongitudinalEnabled")
    ∷ boolean (t "DynamicExperimentalControl")
    ∷ boolean (t "DisengageOnAccelerator")
    ∷ enumerated (t "LongitudinalPersonality") (t "0" ∷ t "1" ∷ t "2" ∷ [])
    ∷ enumerated (t "HyundaiLongitudinalTuning") (t "0" ∷ t "1" ∷ t "2" ∷ [])
    ∷ boolean (t "IntelligentCruiseButtonManagement")
    ∷ boolean (t "SmartCruiseControlVision")
    ∷ boolean (t "SmartCruiseControlMap")
    ∷ boolean (t "CustomAccIncrementsEnabled")
    ∷ integer (t "CustomAccShortPressIncrement") (pos 1) (pos 10)
    ∷ enumerated (t "SpeedLimitMode") (t "0" ∷ t "1" ∷ t "2" ∷ t "3" ∷ [])
    ∷ enumerated (t "SpeedLimitPolicy") (t "0" ∷ t "1" ∷ t "2" ∷ t "3" ∷ t "4" ∷ [])
    ∷ enumerated (t "SpeedLimitOffsetType") (t "0" ∷ t "1" ∷ t "2" ∷ [])
    ∷ integer (t "SpeedLimitValueOffset") (negsuc 29) (pos 30)
    ∷ boolean (t "Mads")
    ∷ boolean (t "MadsMainCruiseAllowed")
    ∷ boolean (t "MadsUnifiedEngagementMode")
    ∷ enumerated (t "MadsSteeringMode") (t "0" ∷ t "1" ∷ t "2" ∷ [])
    ∷ boolean (t "NeuralNetworkLateralControl")
    ∷ boolean (t "EnforceTorqueControl")
    ∷ boolean (t "BlinkerPauseLateralControl")
    ∷ integer (t "BlinkerMinLateralControlSpeed") (pos 0) (pos 255)
    ∷ integer (t "BlinkerLateralReengageDelay") (pos 0) (pos 10)
    ∷ enumerated (t "AutoLaneChangeTimer")
        (t "-1" ∷ t "0" ∷ t "1" ∷ t "2" ∷ t "3" ∷ t "4" ∷ t "5" ∷ [])
    ∷ boolean (t "AutoLaneChangeBsmDelay")
    ∷ boolean (t "IsLdwEnabled")
    ∷ boolean (t "BlindSpot")
    ∷ boolean (t "GreenLightAlert")
    ∷ boolean (t "LeadDepartAlert")
    ∷ boolean (t "RoadNameToggle")
    ∷ boolean (t "ShowTurnSignals")
    ∷ boolean (t "TorqueBar")
    ∷ boolean (t "RocketFuel")
    ∷ boolean (t "StandstillTimer")
    ∷ boolean (t "TrueVEgoUI")
    ∷ boolean (t "HideVEgoUI")
    ∷ boolean (t "RainbowMode")
    ∷ enumerated (t "ChevronInfo") (t "0" ∷ t "1" ∷ t "2" ∷ t "3" ∷ t "4" ∷ [])
    ∷ enumerated (t "DevUIInfo") (t "0" ∷ t "1" ∷ t "2" ∷ t "3" ∷ [])
    ∷ enumerated (t "OnroadScreenOffBrightness")
        (t "0" ∷ t "1" ∷ t "2" ∷ t "7" ∷ t "12" ∷ t "17" ∷ t "22" ∷ [])
    ∷ enumerated (t "OnroadScreenOffTimer") (
        t "3"
        ∷ t "5"
        ∷ t "7"
        ∷ t "10"
        ∷ t "15"
        ∷ t "30"
        ∷ t "60"
        ∷ t "120"
        ∷ t "180"
        ∷ t "240"
        ∷ t "300"
        ∷ t "360"
        ∷ t "420"
        ∷ t "480"
        ∷ t "540"
        ∷ t "600"
        ∷ [])
    ∷ integer (t "InteractivityTimeout") (pos 0) (pos 120)
    ∷ boolean (t "RecordFront")
    ∷ boolean (t "RecordAudio")
    ∷ boolean (t "RecordAudioFeedback")
    ∷ enumerated (t "DeviceBootMode") (t "0" ∷ t "1" ∷ [])
    ∷ boolean (t "OffroadMode")
    ∷ enumerated (t "MaxTimeOffroad") (
        t "0"
        ∷ t "5"
        ∷ t "10"
        ∷ t "15"
        ∷ t "30"
        ∷ t "60"
        ∷ t "120"
        ∷ t "180"
        ∷ t "300"
        ∷ t "600"
        ∷ t "1440"
        ∷ t "1800"
        ∷ [])
    ∷ boolean (t "QuietMode")
    ∷ information (t "SshEnabled")
    ∷ boolean (t "AdbEnabled")
    ∷ boolean (t "GsmMetered")
    ∷ boolean (t "OnroadUploads")
    ∷ boolean (t "SunnylinkEnabled")
    ∷ boolean (t "DisableUpdates")
    ∷ boolean (t "ShowAdvancedControls")
    ∷ boolean (t "QuickBootToggle")
    ∷ information (t "Version")
    ∷ information (t "GitBranch")
    ∷ information (t "DongleId")
    ∷ information (t "HardwareSerial")
    ∷ information (t "GithubUsername")
    ∷ []
