-- ===== src/Movies/Build/Settled.antt =====
-- A build is not repeated without a reason, and what it installs comes from ffmpeg.
use homeconnect.AppState.{AppState}
use homeconnect.Movies.{coverage, movie_key, record_movie, segments_with_cam, source_file}
use homeconnect.Movies.Build.{
  Inputs, Tools, build, build_from, checking, encode_movie, fail_build, gpu_run, install,
  is_movie_enabled, lead_of, movie_cpu_args, movie_gpu_args, movie_inputs, others, part_path, pause,
  record_build, rename_output, run, segs_of, usable,
}
use homeconnect.Movies.Build.Records.{
  IsMeasured, IsOutput, IsSettled, SamePaths, Writes, count-segments, fail_build-IsSettled,
  get-write_output, install-IsMeasured, no_segments, paths-write_output, uncovered,
}
use homeconnect.Movies.Encode.{encode_opts}
use homeconnect.Movies.Sweep.{needs_build-record_movie}
use homeconnect.Prelude.{
  AppError, AppResult, Bool, Bool-cases, List, Option, Option-cases, arith, err, false,
  if◌then◌else◌, inl, inr, is_empty, length, none, other, refl, some, sym, true, ℕ, ◌∙◌, ◌≡◌, ◌⊎◌,
}
use homeconnect.Prelude.Containers.{map_get}
use homeconnect.Prelude.Int.{ℤ}
use homeconnect.Prelude.Text.{Text, t}
use homeconnect.Storage.{Bytes, fullname_of, get, path_for}
use homeconnect.Transcode.{current_device, gpu_backend}

module _ (tools : Tools) where
  -- After runs that write to `out`.
  abbrev Made : Text → AppState → Bool × AppState → Type 0
  Made out s r =
      SamePaths s r.1
      × (r.0 ≡ true
          → (b : Bytes) × (map_get out r.1.blobs.files ≡ some b) × IsOutput tools.ffmpeg b)

  run-Made :
      (args : List Text) (out : Text) (s : AppState)
      → Writes tools.ffmpeg
      → Made out s (run tools args out s)
  unfolding run others path_for
  run-Made args out s w = (
    λ k. paths-write_output out (tools.ffmpeg args).1 (others (tools.meanwhile args s) s) k,
    λ h.
        let (b, e) = w args h in
        (
          b,
          rw e (get-write_output out b (others (tools.meanwhile args s) s)),
          (args, λ i. (h i, e i)),
        ),
  )

  gpu_run-Made :
      (device : Option Text) (i : Inputs) (s : AppState)
      → Writes tools.ffmpeg
      → Made i.out s (gpu_run tools device i s)
  unfolding gpu_run path_for
  gpu_run-Made none i s w = (λ k. refl, λ h. ground (arith, h))
  gpu_run-Made (some dev) i s w =
      let args : List Text = movie_gpu_args (gpu_backend tools.is_nvidia tools.has_nvenc dev) i in
      let r : Bool × AppState = run tools args i.out s in
      let (p, k) = run-Made args i.out s w in
      elim (Bool-cases r.0) [
        | inl y ↦ rw (y, gpu_run) (p, λ h. k y)
        | inr y ↦ elim (Bool-cases (is_movie_enabled tools.enabled_seed r.1.db)) [
          | inl e ↦ rw (y, gpu_run, e) (p, λ h. ground (arith, h))
          | inr e ↦ rw (y, gpu_run, e) (p, λ h. ground (arith, h))
        ]
      ]

  encode_movie-Made :
      (device : Option Text) (i : Inputs) (s : AppState)
      → Writes tools.ffmpeg
      → Made i.out s (encode_movie tools device i s)
  unfolding encode_movie
  encode_movie-Made device i s w =
      let r : Bool × AppState = gpu_run tools device i s in
      let (p, k) = gpu_run-Made device i s w in
      let (p', k') = run-Made (movie_cpu_args i) i.out r.1 w in
      elim (Bool-cases r.0) [
        | inl y ↦ rw (y, encode_movie) (p, λ h. k y)
        | inr y ↦ elim (Bool-cases (is_movie_enabled tools.enabled_seed r.1.db)) [
          | inl e ↦ rw (y, encode_movie, e) (λ key. p' key ∙ p key, k')
          | inr e ↦ rw (y, encode_movie, e) (p, λ h. ground (arith, h))
        ]
      ]

  -- A build is an error that is settled, or has renamed what a run of ffmpeg has written to the movie's path, in a state
  -- `s` after which it is only measured.
  abbrev pub IsBuilt : Text → Text → Text → ℕ → AppResult ℕ × AppState → Type 0
  IsBuilt dongle ts cam n r =
      ((e : AppError) × (r.0 ≡ err e) × IsSettled tools.enabled_seed dongle ts cam n r.1)
      ⊎ ((b : Bytes) × (s : AppState) × IsOutput tools.ffmpeg b
          × (get s.blobs (movie_key dongle ts cam) ≡ some b)
          × IsMeasured tools dongle ts cam n s r)

  -- The end of a build, after the runs of ffmpeg.
  built :
      (dongle ts cam out : Text) (n : ℕ) (r : Bool × AppState)
      → path_for r.1.blobs (movie_key dongle ts cam) ≡ out
      → (r.0 ≡ true
          → (b : Bytes) × (map_get (part_path out) r.1.blobs.files ≡ some b)
            × IsOutput tools.ffmpeg b)
      → IsBuilt dongle ts cam n (
          if r.0
          then install tools out (movie_key dongle ts cam) (fullname_of dongle ts) cam n r.1
          else fail_build tools out (fullname_of dongle ts) cam n r.1)
  built dongle ts cam out n (true, s) p k =
      let (b, g, o) = k refl in
      let (h, m) = install-IsMeasured tools dongle ts cam out n b s p g in
      inr (b, rename_output out b s, o, h, m)
  built dongle ts cam out n (false, s) p k =
      let (a, d) = fail_build-IsSettled tools dongle ts cam out n s in inl (other, a, d)

  build_from-IsSettled :
      (dongle ts cam : Text) (n : ℕ) (v_paths a_paths : List Text) (s : AppState)
      → Writes tools.ffmpeg
      → IsBuilt dongle ts cam n (build_from tools dongle ts cam n v_paths a_paths s)
  unfolding build_from path_for others movie_inputs
  build_from-IsSettled dongle ts cam n v_paths a_paths begun w =
      let lead : Option ℕ = lead_of tools a_paths in
      let wav : Option Text × AppState = tools.build_wav a_paths lead begun in
      let s : AppState = others wav.1 begun in
      let out : Text = path_for s.blobs (movie_key dongle ts cam) in
      let i : Inputs =
        movie_inputs cam v_paths a_paths lead wav.0 (encode_opts s.db) (part_path out) in
      let device : Option Text = current_device tools.device_seed s.db in
      let (p, k) = encode_movie-Made device i s w in
      built dongle ts cam out n (encode_movie tools device i s) (p (movie_key dongle ts cam)) k

  -- With the segments that have the camera counted.
  build_counted :
      (dongle ts cam src_file : Text) (s : AppState)
      → Writes tools.ffmpeg
      → source_file cam ≡ some src_file
      → IsBuilt dongle ts cam
          (length (segs_of (segments_with_cam (fullname_of dongle ts) cam s.db)))
          (build tools dongle ts cam s)
  unfolding build record_build coverage record_movie
  build_counted dongle ts cam src_file begun w c =
      let s : AppState = pause tools checking begun in
      let fullname : Text = fullname_of dongle ts in
      let segs : List ℤ = segs_of (segments_with_cam fullname cam begun.db) in
      let v_paths : List Text = usable s.blobs dongle ts src_file segs in
      let a_paths : List Text =
        usable s.blobs dongle ts (t "qcamera.ts")
          (segs_of (segments_with_cam fullname (t "qcamera") s.db)) in
      elim (Bool-cases (is_empty segs)) [
        | inl e ↦
            let n : (coverage begun.db fullname cam).1 ≡ 0 =
              ground (arith, count-segments fullname cam src_file begun.db c, e) in
            rw (c, build, e) (inl (_, refl, inr (inr (no_segments begun fullname dongle ts cam n))))
        | inr e ↦ elim (Bool-cases (is_empty v_paths)) [
          | inl v ↦
              rw (c, build, e, v)
                (inl (
                  _,
                  refl,
                  inr (
                      needs_build-record_movie s fullname dongle ts cam (length segs) 0 (inl refl)),
                ))
          | inr v ↦
              rw (c, build, e, v)
                (build_from-IsSettled dongle ts cam (length segs) v_paths a_paths s w)
        ]
      ]

  -- A build that is not an error has renamed what a run of ffmpeg that succeeded has written to the movie's path, and gives
  -- the size of what is there when it measures it. The sweep does not try a build again after it, an error or not, unless
  -- encoding has been turned off, the number of the drive's segments is not that of the segments which had the camera at
  -- the start, or another request has removed the movie after the rename: whatever ffmpeg and the enhancement do, and
  -- whatever other requests do at the awaits, if a run of ffmpeg that succeeds has written its output.
  pub build_lem :
      Writes tools.ffmpeg
      → (dongle ts cam : Text) (s : AppState)
      → IsBuilt dongle ts cam
          (coverage s.db (fullname_of dongle ts) cam).1
          (build tools dongle ts cam s)
  unfolding build
  build_lem w dongle ts cam s = elim (Option-cases (source_file cam)) [
    | inl c ↦
        rw (c, build)
          (inl (
            _,
            refl,
            inr (
                inr (
                  no_segments s (fullname_of dongle ts) dongle ts cam
                    (uncovered s.db (fullname_of dongle ts) cam c))),
          ))
    | inr (src_file, c) ↦
        rw (sym (count-segments (fullname_of dongle ts) cam src_file s.db c))
          (build_counted dongle ts cam src_file s w c)
  ]
