-- ===== src/Logs/Aggregate.antt =====
-- src/parse.rs, recompute_route: the row of a drive from the rows of its segments, which come in the order of
-- their numbers. The JSON texts of three columns are kept as the lists that they print.
use homeconnect.Prelude.{
  Bool, List, Option, [], find, if◌then◌else◌, is_empty, map, none, not, select, some, ◌∷◌,
}
use homeconnect.Prelude.Floats.{Floats}
use homeconnect.Prelude.Int.{eq_ℤ, ltb_ℤ, negsuc, pos, ℤ, ◌+ℤ◌}
use homeconnect.Prelude.Text.{Text}
use mathlib.Core.List.{foldl, reverse}

-- .sum() of integers
unfoldable pub sum_ℤ : List ℤ → ℤ
sum_ℤ xs = foldl ◌+ℤ◌ (pos 0) xs

-- i64::max
unfoldable pub max_ℤ : ℤ → ℤ → ℤ
max_ℤ a b = if ltb_ℤ a b then b else a

-- .max().unwrap_or(d)
unfoldable pub max_or : ℤ → List ℤ → ℤ
max_or d [] = d
max_or d (n ∷ ns) = max_ℤ n (max_or n ns)

module _ (fl : Floats) where
  open fl use {F64}

  pub record SegRow : Type 0 where
    pub number : ℤ
    pub qcam_url : Text
    pub fcam_url : Text
    pub dcam_url : Text
    pub ecam_url : Text
    pub qlog_url : Text
    pub rlog_url : Text
    pub start_lat : F64
    pub start_lng : F64
    pub end_lat : F64
    pub end_lng : F64
    pub miles : F64
    pub start_time_utc_millis : ℤ
    pub end_time_utc_millis : ℤ
    pub engaged_meters : F64
    pub telem_meters : F64
    pub engaged_seconds : F64
    pub drive_seconds : F64
    pub max_speed : F64
    pub disengage_count : ℤ
    pub hard_brake_count : ℤ
    pub hard_accel_count : ℤ
    pub max_temp : F64
    pub min_free : F64
    pub max_mem : ℤ

  -- The columns of routes that recompute_route sets.
  pub record RouteStats : Type 0 where
    pub start_time_utc_millis : ℤ
    pub end_time_utc_millis : ℤ
    pub start_lat : F64
    pub start_lng : F64
    pub end_lat : F64
    pub end_lng : F64
    pub length : F64
    pub segment_numbers : List ℤ
    pub segment_start_times : List ℤ
    pub segment_end_times : List ℤ
    pub maxqcamera : ℤ
    pub maxcamera : ℤ
    pub maxdcamera : ℤ
    pub maxecamera : ℤ
    pub maxqlog : ℤ
    pub maxlog : ℤ
    pub engaged_meters : F64
    pub telem_meters : F64
    pub engaged_seconds : F64
    pub drive_seconds : F64
    pub max_speed : F64
    pub disengage_count : ℤ
    pub hard_brake_count : ℤ
    pub hard_accel_count : ℤ
    pub max_temp : F64
    pub min_free : F64
    pub max_mem : ℤ

  -- .sum() of floats
  unfoldable pub sum : List F64 → F64
  sum xs = foldl fl.add (fl.lit 0 0) xs

  -- .fold(0.0, f64::max)
  unfoldable pub top : List F64 → F64
  top xs = foldl fl.fmax (fl.lit 0 0) xs

  -- the first row with a start time, and the last row with an end time
  unfoldable pub first_start : List SegRow → Option SegRow
  first_start segs = find (λ (s : SegRow). not (eq_ℤ s.start_time_utc_millis (pos 0))) segs

  unfoldable pub last_end : List SegRow → Option SegRow
  last_end segs = find (λ (s : SegRow). not (eq_ℤ s.end_time_utc_millis (pos 0))) (reverse segs)

  -- max_of
  unfoldable pub max_of : (SegRow → Bool) → List SegRow → ℤ
  unfolding max_or
  max_of pred segs = max_or (negsuc 0) (map (λ (s : SegRow). s.number) (select pred segs))

  -- The lowest free space that was measured, -1.0 where none was.
  unfoldable pub min_free_of : List SegRow → F64
  min_free_of segs =
      let m : F64 =
        foldl fl.fmin fl.max_value
          (select (λ f. fl.le (fl.lit 0 0) f) (map (λ (s : SegRow). s.min_free) segs)) in
      if fl.eq m fl.max_value then fl.neg (fl.lit 1 0) else m

  unfoldable pub aggregate : List SegRow → RouteStats
  unfolding sum sum_ℤ max_ℤ top first_start last_end max_of max_or min_free_of
  aggregate segs = record {
    start_time_utc_millis = elim (first_start segs) [
      | none ↦ pos 0
      | some s ↦ s.start_time_utc_millis
    ];
    end_time_utc_millis = elim (last_end segs) [ none ↦ pos 0 | some s ↦ s.end_time_utc_millis ];
    start_lat = elim (first_start segs) [ none ↦ fl.lit 0 0 | some s ↦ s.start_lat ];
    start_lng = elim (first_start segs) [ none ↦ fl.lit 0 0 | some s ↦ s.start_lng ];
    end_lat = elim (last_end segs) [ none ↦ fl.lit 0 0 | some s ↦ s.end_lat ];
    end_lng = elim (last_end segs) [ none ↦ fl.lit 0 0 | some s ↦ s.end_lng ];
    length = sum (map (λ (s : SegRow). s.miles) segs);
    segment_numbers = map (λ (s : SegRow). s.number) segs;
    segment_start_times = map (λ (s : SegRow). s.start_time_utc_millis) segs;
    segment_end_times = map (λ (s : SegRow). s.end_time_utc_millis) segs;
    maxqcamera = max_of (λ s. not (is_empty s.qcam_url)) segs;
    maxcamera = max_of (λ s. not (is_empty s.fcam_url)) segs;
    maxdcamera = max_of (λ s. not (is_empty s.dcam_url)) segs;
    maxecamera = max_of (λ s. not (is_empty s.ecam_url)) segs;
    maxqlog = max_of (λ s. not (is_empty s.qlog_url)) segs;
    maxlog = max_of (λ s. not (is_empty s.rlog_url)) segs;
    engaged_meters = sum (map (λ (s : SegRow). s.engaged_meters) segs);
    telem_meters = sum (map (λ (s : SegRow). s.telem_meters) segs);
    engaged_seconds = sum (map (λ (s : SegRow). s.engaged_seconds) segs);
    drive_seconds = sum (map (λ (s : SegRow). s.drive_seconds) segs);
    max_speed = top (map (λ (s : SegRow). s.max_speed) segs);
    disengage_count = sum_ℤ (map (λ (s : SegRow). s.disengage_count) segs);
    hard_brake_count = sum_ℤ (map (λ (s : SegRow). s.hard_brake_count) segs);
    hard_accel_count = sum_ℤ (map (λ (s : SegRow). s.hard_accel_count) segs);
    max_temp = top (map (λ (s : SegRow). s.max_temp) segs);
    min_free = min_free_of segs;
    max_mem = max_or (pos 0) (map (λ (s : SegRow). s.max_mem) segs);
  }

  -- Without segments the row stays as it is.
  unfoldable pub recompute : List SegRow → RouteStats → RouteStats
  unfolding aggregate
  recompute [] r = r
  recompute (s ∷ segs) r = aggregate (s ∷ segs)
