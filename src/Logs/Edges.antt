-- ===== src/Logs/Edges.antt =====
-- The one pass of `telemetry_stats` against sums and counts over the pairs of neighbouring samples.
use homeconnect.Logs.{Telem}
use homeconnect.Logs.Stats.{
  Pass, SegStats, hard_accel_ms2, hard_brake_ms2, in_step, no_stats, stats_from, stats_step,
  telemetry_stats, v_ms,
}
use homeconnect.Prelude.{
  Bool, List, [], arith, count, false, if◌then◌else◌, map, not, select, ℕ, ◌&&◌, ◌+◌, ◌∷◌, ◌≡◌,
}
use homeconnect.Prelude.Floats.{Floats}

-- How often the list goes from false to true, with `before` in front.
abbrev pub rising : Bool → List Bool → ℕ
rising before [] = 0
rising before (b ∷ bs) = (if b && not before then 1 else 0) + rising b bs

module _ (fl : Floats) where
  open fl use {F64, F32}

  abbrev pub Pair : Type 0
  Pair = Telem fl × Telem fl

  abbrev pub pairs : Telem fl → List (Telem fl) → List Pair
  pairs prev [] = []
  pairs prev (cur ∷ ts) = (prev, cur) ∷ pairs cur ts

  abbrev pub dt_of : Pair → F64
  dt_of p = fl.sub p.1.t p.0.t

  abbrev pub dist_of : Pair → F64
  dist_of p = fl.mul (v_ms fl p.1) (dt_of p)

  abbrev pub accel_of : Pair → F64
  accel_of p = fl.div (fl.sub (v_ms fl p.1) (v_ms fl p.0)) (dt_of p)

  -- The pairs whose distance in time counts.
  abbrev pub moved : List Pair → List Pair
  moved = select (λ p. in_step fl (dt_of p))

  abbrev pub while_engaged : List Pair → List Pair
  while_engaged = select (λ (p : Pair). p.1.engaged)

  abbrev pub total : (Pair → F64) → F64 → List Pair → F64
  total f acc [] = acc
  total f acc (p ∷ ps) = total f (fl.add acc (f p)) ps

  abbrev pub top_speed : F64 → List (Telem fl) → F64
  top_speed m [] = m
  top_speed m (s ∷ ts) = top_speed (fl.fmax m (fl.widen s.speed)) ts

  abbrev pub braking : Pair → Bool
  braking p = fl.le (accel_of p) (hard_brake_ms2 fl)

  abbrev pub accelerating : Pair → Bool
  accelerating p = fl.le (hard_accel_ms2 fl) (accel_of p)

  abbrev pub disengages : Pair → Bool
  disengages p = p.0.engaged && not p.1.engaged

  -- The statistics by sums and counts.
  pub record IsSummary (start : Pass fl) (s : Telem fl) (ts : List (Telem fl)) (r : SegStats fl)
      : Type 0 where
    pub telem_m : r.telem_m ≡ total dist_of start.stats.telem_m (moved (pairs s ts))
    pub drive_s : r.drive_s ≡ total dt_of start.stats.drive_s (moved (pairs s ts))
    pub engaged_m :
        r.engaged_m ≡ total dist_of start.stats.engaged_m (while_engaged (moved (pairs s ts)))
    pub engaged_s :
        r.engaged_s ≡ total dt_of start.stats.engaged_s (while_engaged (moved (pairs s ts)))
    pub max_speed : r.max_speed ≡ top_speed start.stats.max_speed ts
    pub disengage : r.disengage ≡ start.stats.disengage + count disengages (pairs s ts)
    pub hard_brake :
        r.hard_brake
        ≡ start.stats.hard_brake + rising start.in_brake (map braking (moved (pairs s ts)))
    pub hard_accel :
        r.hard_accel
        ≡ start.stats.hard_accel + rising start.in_accel (map accelerating (moved (pairs s ts)))

  stats_from_lem :
      (start : Pass fl) (s : Telem fl) (ts : List (Telem fl))
      → IsSummary start s ts (stats_from fl s ts start).stats
  unfolding stats_from stats_step
  stats_from_lem start s [] = ground arith
  stats_from_lem start s (c ∷ ts) =
      let ih : IsSummary (stats_step fl s c start) c ts
          (stats_from fl c ts (stats_step fl s c start)).stats =
        stats_from_lem (stats_step fl s c start) c ts in
      ground (arith, ih)

  -- The loop's state after the first sample: no sums, and the first speed.
  abbrev pub start_of : Telem fl → Pass fl
  start_of s = record {
    stats = record (no_stats fl) { max_speed = fl.fmax (fl.lit 0 0) (fl.widen s.speed) };
    in_brake = false;
    in_accel = false;
  }

  -- For every telemetry series with a sample in it, the one pass gives: the sums of distance and time over the
  -- neighbouring samples of which the later one is later by less than two seconds, the same sums over those where
  -- openpilot is engaged at the later sample, the top speed, the number of neighbours where engagement ends, and the number
  -- of times that hard braking and hard acceleration begin among the pairs that count.
  pub telemetry_stats_lem :
      (s : Telem fl) (ts : List (Telem fl))
      → IsSummary (start_of s) s ts (telemetry_stats fl (s ∷ ts))
  unfolding telemetry_stats no_stats
  telemetry_stats_lem s ts = stats_from_lem (start_of s) s ts
