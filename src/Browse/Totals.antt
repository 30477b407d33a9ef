-- ===== src/Browse/Totals.antt =====
-- src/api/v1.rs, my_stats: the totals over the drives that a user sees, and which devices these are.
use homeconnect.Access.{can_manage_loaded}
use homeconnect.Browse.{sees_device}
use homeconnect.Browse.Drives.{
  RouteRow, all_rows, autonomy_of, avg_speed_of, is_parsed, meters_per_mile, row_ignored,
}
use homeconnect.Browse.Paging.{length-select}
use homeconnect.Db.{Db, Device, User, device_by_dongle, owned_by}
use homeconnect.Ignore.{Rule, RulesJson, load_rules}
use homeconnect.Logs.Rows.{Tables}
use homeconnect.Prelude.{
  All, Bool, Bool-cases, List, [], any, ap, arith, count, false, find, if◌then◌else◌, inl, inr,
  length, not, refl, select, some, true, ℕ, ◌&&◌, ◌+◌, ◌==◌, ◌||◌, ◌∙◌, ◌∷◌, ◌≡◌, ◌≤◌,
}
use homeconnect.Prelude.Floats.{Floats}
use homeconnect.Prelude.Int.{pos, ℤ, ◌+ℤ◌}
use homeconnect.Prelude.Text.{text_eq}

any_only :
    (f : Device → Bool) (device : Device) (xs : List Device)
    → All (λ (d : Device). text_eq d.dongle_id device.dongle_id ≡ true → d ≡ device) xs
    → f device ≡ false
    → any (λ (d : Device). text_eq d.dongle_id device.dongle_id && f d) xs ≡ false
any_only f device [] u h = refl
any_only f device (d ∷ ds) u h = elim (Bool-cases (text_eq d.dongle_id device.dongle_id)) [
  | inl e ↦
      let off : f d ≡ false = ap f (u.0 e) ∙ h in ground (arith, e, off, any_only f device ds u.1 h)
  | inr e ↦ ground (arith, e, any_only f device ds u.1 h)
]

any_unique :
    (f : Device → Bool) (device : Device) (xs : List Device)
    → find (λ (d : Device). text_eq d.dongle_id device.dongle_id) xs ≡ some device
    → All (λ (d : Device). text_eq d.dongle_id device.dongle_id ≡ true → d ≡ device) xs
    → any (λ (d : Device). text_eq d.dongle_id device.dongle_id && f d) xs ≡ f device
any_unique f device [] h u = ground arith
any_unique f device (d ∷ ds) h u = elim (Bool-cases (text_eq d.dongle_id device.dongle_id)) [
  | inl e ↦
      let same : f d ≡ f device = ap f (u.0 e) in
      elim (Bool-cases (f device)) [
        | inl b ↦ ground (arith, e, b, same)
        | inr b ↦ ground (arith, e, b, same, any_only f device ds u.1 b)
      ]
  | inr e ↦ ground (arith, e, any_unique f device ds (ground (arith, h, e)) u.1)
]

-- The set of devices that the SQL of the totals and of the map selects is the set that the access rule gives the
-- user, for a device that is known by its name alone and an admin flag of 0 or 1.
pub sees_device_lem :
    (db : Db) (user : User) (device : Device)
    → device_by_dongle device.dongle_id db ≡ some device
    → All (λ (d : Device). text_eq d.dongle_id device.dongle_id ≡ true → d ≡ device) db.devices
    → user.is_admin ≤ 1
    → sees_device db user device.dongle_id ≡ can_manage_loaded db user device
unfolding sees_device can_manage_loaded device_by_dongle
sees_device_lem db user device k u a = ground (
  arith,
  any_unique (λ d. owned_by d.owner_id user.id || user.is_admin == 1) device db.devices k u,
)

module _ (fl : Floats) where
  open fl use {F64}

  pub record Totals : Type 0 where
    pub routes : ℕ
    pub miles : F64
    pub drive_s : F64
    pub engaged_m : F64
    pub telem_m : F64
    pub max_speed : F64
    pub disengage : ℤ
    pub hard_brake : ℤ
    pub hard_accel : ℤ

  unfoldable pub no_totals : Totals
  no_totals = record {
    routes = 0;
    miles = fl.lit 0 0;
    drive_s = fl.lit 0 0;
    engaged_m = fl.lit 0 0;
    telem_m = fl.lit 0 0;
    max_speed = fl.lit 0 0;
    disengage = pos 0;
    hard_brake = pos 0;
    hard_accel = pos 0;
  }

  unfoldable pub count_row : RouteRow fl → Totals → Totals
  count_row r a = record {
    routes = a.routes + 1;
    miles = fl.add a.miles r.columns.length;
    drive_s = fl.add a.drive_s r.columns.drive_seconds;
    engaged_m = fl.add a.engaged_m r.columns.engaged_meters;
    telem_m = fl.add a.telem_m r.columns.telem_meters;
    max_speed = fl.fmax a.max_speed r.columns.max_speed;
    disengage = a.disengage +ℤ r.columns.disengage_count;
    hard_brake = a.hard_brake +ℤ r.columns.hard_brake_count;
    hard_accel = a.hard_accel +ℤ r.columns.hard_accel_count;
  }

  -- The loop over the rows: a drive that the rules hide is skipped.
  unfoldable pub total_rows : List (Rule fl) → List (RouteRow fl) → Totals → Totals
  unfolding count_row
  total_rows rules [] a = a
  total_rows rules (r ∷ rs) a =
      total_rows rules rs (if row_ignored fl rules r then a else count_row r a)

  -- The answer of my_stats.
  pub record MyStats : Type 0 where
    pub totals : Totals
    pub drive_hours : F64
    pub engaged_miles : F64
    pub autonomy : F64
    pub disengagements_per_100mi : F64
    pub avg_speed : F64

  unfoldable pub my_stats : RulesJson fl → Tables fl → User → MyStats
  unfolding total_rows no_totals all_rows is_parsed autonomy_of avg_speed_of
  my_stats json s user =
      let rows : List (RouteRow fl) =
        select (λ r. is_parsed fl r && sees_device s.app.db user r.route.device_dongle_id)
          (all_rows fl s) in
      let a : Totals = total_rows (load_rules fl json s.app.db) rows no_totals in
      let engaged_mi : F64 = fl.div a.engaged_m (meters_per_mile fl) in
      record {
        totals = a;
        drive_hours = fl.div a.drive_s (fl.lit 3600 0);
        engaged_miles = engaged_mi;
        autonomy = autonomy_of fl a.engaged_m a.telem_m;
        disengagements_per_100mi =
            if fl.lt (fl.lit 0 0) engaged_mi
            then fl.mul (fl.div (fl.of_int a.disengage) engaged_mi) (fl.lit 100 0)
            else fl.lit 0 0;
        avg_speed = avg_speed_of fl a.telem_m a.drive_s;
      }

  -- The rows that my_stats counts: parsed, of a device that the user sees, and not hidden.
  abbrev pub counted : RulesJson fl → Tables fl → User → RouteRow fl → Bool
  counted json s user r =
      (is_parsed fl r && sees_device s.app.db user r.route.device_dongle_id)
      && not (row_ignored fl (load_rules fl json s.app.db) r)

  abbrev pub fold_rows : List (RouteRow fl) → Totals → Totals
  fold_rows [] a = a
  fold_rows (r ∷ rs) a = fold_rows rs (count_row r a)

  total_rows-select :
      (rules : List (Rule fl)) (p : RouteRow fl → Bool) (rs : List (RouteRow fl)) (a : Totals)
      → total_rows rules (select p rs) a
        ≡ fold_rows (select (λ r. p r && not (row_ignored fl rules r)) rs) a
  unfolding total_rows
  total_rows-select rules p [] a = refl
  total_rows-select rules p (r ∷ rs) a =
      ground (arith, total_rows-select rules p rs a, total_rows-select rules p rs (count_row r a))

  fold_rows_routes :
      (rs : List (RouteRow fl)) (a : Totals) → (fold_rows rs a).routes ≡ a.routes + length rs
  unfolding count_row
  fold_rows_routes [] a = omega arith
  fold_rows_routes (r ∷ rs) a = omega (arith, fold_rows_routes rs (count_row r a))

  -- The totals are those of the drives that have a parsed qlog, are on a device that the user sees, and are not
  -- hidden by the rules: each of them counts once, in the order of the table, and no other drive counts.
  pub my_stats_lem :
      (json : RulesJson fl) (s : Tables fl) (user : User)
      → ((my_stats json s user).totals
          ≡ fold_rows (select (counted json s user) (all_rows fl s)) no_totals)
        × ((my_stats json s user).totals.routes ≡ count (counted json s user) (all_rows fl s))
  unfolding my_stats no_totals
  my_stats_lem json s user =
      let p : RouteRow fl → Bool =
        λ r. is_parsed fl r && sees_device s.app.db user r.route.device_dongle_id in
      let e : total_rows (load_rules fl json s.app.db) (select p (all_rows fl s)) no_totals
          ≡ fold_rows (select (counted json s user) (all_rows fl s)) no_totals =
        total_rows-select (load_rules fl json s.app.db) p (all_rows fl s) no_totals in
      (
        e,
        ap (λ (a : Totals). a.routes) e
            ∙ omega (
              arith,
              fold_rows_routes (select (counted json s user) (all_rows fl s)) no_totals,
              length-select (counted json s user) (all_rows fl s),
            ),
      )
