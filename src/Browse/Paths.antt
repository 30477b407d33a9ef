-- ===== src/Browse/Paths.antt =====
-- src/api/v1.rs, my_paths: the GPS paths of a user's drives, thinned for the map. The reader of coords.json is a
-- parameter.
use homeconnect.Browse.{sees_device}
use homeconnect.Browse.Drives.{RouteRow, all_rows, autonomy_of, is_parsed, newest_rows, row_ignored}
use homeconnect.Db.{User}
use homeconnect.Ignore.{Rule, RulesJson, load_rules}
use homeconnect.Logs.Rows.{Tables}
use homeconnect.Prelude.{
  All, Bool-cases, List, Option, Option-cases, [], arith, if◌then◌else◌, inl, inr, leb, length,
  length-take, ltb, max, none, not, select, some, suc, sym, take, zero, ℕ, ◌&&◌, ◌*◌, ◌++◌, ◌+◌,
  ◌-◌, ◌/◌, ◌||◌, ◌∷◌, ◌≡◌, ◌≤◌,
}
use homeconnect.Prelude.Floats.{Floats}
use homeconnect.Prelude.Int.{ℤ}
use homeconnect.Prelude.Split.{split_once}
use homeconnect.Prelude.Text.{Text, t}
use homeconnect.Storage.{BlobStore, Bytes, blob_key, get}
use native.Mathlib.Nat.{mul-le-mul_right}

count_one : (n k len : ℕ) → n * suc k + k ≤ len + k → suc n * suc k + 0 ≤ suc len + k
count_one n k len h = grind arith

-- 300 steps are longer than the list.
few : (n k len : ℕ) → n * suc k ≤ len + k → suc k ≡ max (len / 150) 1 → n ≤ 299
few n k len h e = elim (Bool-cases (ltb n 300)) [
  | inl b ↦ ground (arith, b)
  | inr b ↦
      let many : 300 ≤ n = ground (arith, b) in
      absurd (omega (arith, mul-le-mul_right (suc k) many))
]

module _ {ℓ} {A : Type ℓ} where
  -- iter().step_by(step), with `wait` elements still to be left out
  unfoldable pub thin_from : ℕ → ℕ → List A → List A
  thin_from wait step [] = []
  thin_from zero step (x ∷ xs) = x ∷ thin_from (step - 1) step xs
  thin_from (suc wait) step (x ∷ xs) = thin_from wait step xs

  -- let step = (pts.len() / 150).max(1); pts.iter().step_by(step)
  unfoldable pub downsample : List A → List A
  unfolding thin_from
  downsample pts = thin_from 0 (max (length pts / 150) 1) pts

  thin_bound :
      (wait k : ℕ) (xs : List A)
      → wait ≤ k
      → length (thin_from wait (suc k) xs) * suc k + wait ≤ length xs + k
  unfolding thin_from
  thin_bound wait k [] h = omega arith
  thin_bound zero k (x ∷ xs) h =
      let e : suc k - 1 ≡ k = omega arith in
      rw e (
        count_one (length (thin_from k (suc k) xs)) k (length xs) (thin_bound k k xs (omega arith)))
  thin_bound (suc wait) k (x ∷ xs) h = omega (arith, thin_bound wait k xs (omega arith))

  -- However long a drive is, its path has at most 299 points.
  pub downsample_bound : (pts : List A) → length (downsample pts) ≤ 299
  unfolding downsample
  downsample_bound pts =
      let len : ℕ = length pts in
      let k : ℕ = max (len / 150) 1 - 1 in
      let e : max (len / 150) 1 ≡ suc k = omega arith in
      rw e (
        few (length (thin_from 0 (suc k) pts)) k len
          (omega (arith, thin_bound 0 k pts (omega arith))) (sym e))

module _ (fl : Floats) (read_coords : Bytes → Option (List (fl.F64 × fl.F64))) where
  open fl use {F64}

  -- A point (lat, lng) at the origin is no fix; the map takes (lng, lat).
  unfoldable pub points_of : List (F64 × F64) → List (F64 × F64)
  points_of [] = []
  points_of ((lat, lng) ∷ cs) =
      let rest = points_of cs in
      if not (fl.eq lat (fl.lit 0 0)) || not (fl.eq lng (fl.lit 0 0))
      then (lng, lat) ∷ rest
      else rest

  unfoldable pub segment_points : BlobStore → Text → Text → ℤ → List (F64 × F64)
  unfolding points_of
  segment_points blobs dongle ts n = elim (get blobs (blob_key dongle ts n (t "coords.json"))) [
    | none ↦ []
    | some bytes ↦ elim (read_coords bytes) [ none ↦ [] | some cs ↦ points_of cs ]
  ]

  unfoldable pub route_points : BlobStore → Text → Text → List ℤ → List (F64 × F64)
  unfolding segment_points
  route_points blobs dongle ts [] = []
  route_points blobs dongle ts (n ∷ nums) =
      segment_points blobs dongle ts n ++ route_points blobs dongle ts nums

  pub record RoutePath : Type 0 where
    pub fullname : Text
    pub autonomy : F64
    pub coords : List (F64 × F64)

  unfoldable pub path_of : BlobStore → Text → Text → RouteRow fl → RoutePath
  unfolding route_points autonomy_of
  path_of blobs dongle ts r = record {
    fullname = r.route.fullname;
    autonomy = autonomy_of fl r.columns.engaged_meters r.columns.telem_meters;
    coords = downsample (route_points blobs dongle ts r.columns.segment_numbers);
  }

  -- The loop of my_paths.
  unfoldable pub paths : List (Rule fl) → BlobStore → List (RouteRow fl) → List RoutePath
  unfolding path_of
  paths rules blobs [] = []
  paths rules blobs (r ∷ rs) =
      let rest : List RoutePath = paths rules blobs rs in
      if row_ignored fl rules r then rest else (elim (split_once b'|' r.route.fullname) [
        | none ↦ rest
        | some (dongle, ts) ↦
            if leb 2 (length (path_of blobs dongle ts r).coords)
            then path_of blobs dongle ts r ∷ rest
            else rest
      ])

  unfoldable pub my_paths : RulesJson fl → Tables fl → User → List RoutePath
  unfolding paths is_parsed all_rows newest_rows
  my_paths json s user = paths (load_rules fl json s.app.db) s.app.blobs (
      take 300 (
        newest_rows fl (
          select (λ r. is_parsed fl r && sees_device s.app.db user r.route.device_dongle_id)
            (all_rows fl s))))

  abbrev IsDrawable : RoutePath → Type 0
  IsDrawable p = (2 ≤ length p.coords) × (length p.coords ≤ 299)

  paths_lem :
      (rules : List (Rule fl)) (blobs : BlobStore) (rs : List (RouteRow fl))
      → All IsDrawable (paths rules blobs rs) × (length (paths rules blobs rs) ≤ length rs)
  unfolding paths
  paths_lem rules blobs [] = (tt, omega arith)
  paths_lem rules blobs (r ∷ rs) =
      let ih = paths_lem rules blobs rs in
      elim (Bool-cases (row_ignored fl rules r)) [
        | inl i ↦ rw (i, paths) (ih.0, omega (arith, ih.1))
        | inr i ↦ elim (Option-cases (split_once b'|' r.route.fullname)) [
          | inl n ↦ rw (i, paths, n) (ih.0, omega (arith, ih.1))
          | inr ((dongle, ts), n) ↦
              elim (Bool-cases (leb 2 (length (path_of blobs dongle ts r).coords))) [
                | inl b ↦
                    rw (i, paths, n, b)
                      (
                        (
                          (
                            ground (arith, b),
                            downsample_bound
                                (route_points blobs dongle ts r.columns.segment_numbers),
                          ),
                          ih.0,
                        ),
                        omega (arith, ih.1),
                      )
                | inr b ↦ rw (i, paths, n, b) (ih.0, omega (arith, ih.1))
              ]
        ]
      ]

  -- The map gets at most 300 drives, each with a path of 2 to 299 points, however many drives and points there are.
  pub my_paths_bounds :
      (json : RulesJson fl) (s : Tables fl) (user : User)
      → All IsDrawable (my_paths json s user) × (length (my_paths json s user) ≤ 300)
  unfolding my_paths
  my_paths_bounds json s user =
      let rows : List (RouteRow fl) = newest_rows fl (
        select (λ r. is_parsed fl r && sees_device s.app.db user r.route.device_dongle_id)
          (all_rows fl s)) in
      let h = paths_lem (load_rules fl json s.app.db) s.app.blobs (take 300 rows) in
      (h.0, omega (arith, h.1, length-take 300 rows))
