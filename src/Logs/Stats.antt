-- ===== src/Logs/Stats.antt =====
-- src/parse.rs: the driving statistics of a segment, in one pass over its telemetry.
use homeconnect.Logs.{Telem}
use homeconnect.Prelude.{Bool, List, [], false, if◌then◌else◌, not, ℕ, ◌&&◌, ◌+◌, ◌∷◌}
use homeconnect.Prelude.Floats.{Floats}

module _ (fl : Floats) where
  open fl use {F64, F32}

  pub record SegStats : Type 0 where
    pub engaged_m : F64
    pub telem_m : F64
    pub engaged_s : F64
    pub drive_s : F64
    pub max_speed : F64
    pub disengage : ℕ
    pub hard_brake : ℕ
    pub hard_accel : ℕ

  -- SegStats::default()
  unfoldable pub no_stats : SegStats
  no_stats = record {
    engaged_m = fl.lit 0 0;
    telem_m = fl.lit 0 0;
    engaged_s = fl.lit 0 0;
    drive_s = fl.lit 0 0;
    max_speed = fl.lit 0 0;
    disengage = 0;
    hard_brake = 0;
    hard_accel = 0;
  }

  abbrev pub mph_to_ms : F64
  mph_to_ms = fl.lit 44704 5

  -- HARD_BRAKE_MS2 and HARD_ACCEL_MS2
  abbrev pub hard_brake_ms2 : F64
  hard_brake_ms2 = fl.neg (fl.lit 3 0)

  abbrev pub hard_accel_ms2 : F64
  hard_accel_ms2 = fl.lit 25 1

  unfoldable pub v_ms : Telem fl → F64
  v_ms s = fl.mul (fl.widen s.speed) mph_to_ms

  -- dt > 0.0 && dt < 2.0
  unfoldable pub in_step : F64 → Bool
  in_step dt = fl.lt (fl.lit 0 0) dt && fl.lt dt (fl.lit 2 0)

  -- The state of the loop after its first round: `prev_v` is Some from then on.
  pub record Pass : Type 0 where
    pub stats : SegStats
    pub in_brake : Bool
    pub in_accel : Bool

  unfoldable pub step_moved : Telem fl → Telem fl → Pass → Pass
  unfolding v_ms
  step_moved prev cur p =
      let s : SegStats = p.stats in
      let dt : F64 = fl.sub cur.t prev.t in
      let dist : F64 = fl.mul (v_ms cur) dt in
      let a : F64 = fl.div (fl.sub (v_ms cur) (v_ms prev)) dt in
      let braking : Bool = fl.le a hard_brake_ms2 in
      let accelerating : Bool = fl.le hard_accel_ms2 a in
      record {
        stats = record s {
          telem_m = fl.add s.telem_m dist;
          drive_s = fl.add s.drive_s dt;
          engaged_m = if cur.engaged then fl.add s.engaged_m dist else s.engaged_m;
          engaged_s = if cur.engaged then fl.add s.engaged_s dt else s.engaged_s;
          hard_brake = if braking && not p.in_brake then s.hard_brake + 1 else s.hard_brake;
          hard_accel = if accelerating && not p.in_accel then s.hard_accel + 1 else s.hard_accel;
        };
        in_brake = braking;
        in_accel = accelerating;
      }

  see_speed : Telem fl → SegStats → SegStats
  see_speed cur s = record s { max_speed = fl.fmax s.max_speed (fl.widen cur.speed) }

  see_disengage : Telem fl → Telem fl → SegStats → SegStats
  see_disengage prev cur s =
      if prev.engaged && not cur.engaged then record s { disengage = s.disengage + 1 } else s

  -- One round of the loop with i > 0.
  unfoldable pub stats_step : Telem fl → Telem fl → Pass → Pass
  unfolding step_moved see_speed see_disengage in_step
  stats_step prev cur p =
      let seen : Pass = record p { stats = see_speed cur p.stats } in
      let moved : Pass = if in_step (fl.sub cur.t prev.t) then step_moved prev cur seen else seen in
      record moved { stats = see_disengage prev cur moved.stats }

  unfoldable pub stats_from : Telem fl → List (Telem fl) → Pass → Pass
  unfolding stats_step
  stats_from prev [] p = p
  stats_from prev (cur ∷ ts) p = stats_from cur ts (stats_step prev cur p)

  unfoldable pub telemetry_stats : List (Telem fl) → SegStats
  unfolding stats_from no_stats see_speed
  telemetry_stats [] = no_stats
  telemetry_stats (s ∷ ts) =
      (stats_from s ts
        (record { stats = see_speed s no_stats; in_brake = false; in_accel = false })).stats
