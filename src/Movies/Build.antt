-- ===== src/Movies/Build.antt =====
-- `build` of src/movie.rs. ffmpeg, the probing of the GPU and of the audio's lead-in, and the enhancement of the audio are
-- arguments (`Tools`); so is what other requests do to the state in the meantime, for which `build` takes no lock but
-- that of the builds' semaphore: no other build, and no other code, touches the temporary file.
pub mod Records
pub mod Settled
use homeconnect.AppState.{AppState}
use homeconnect.Browse.Paths.{paths}
use homeconnect.Db.{Db}
use homeconnect.Movies.{movie_key, record_movie, segments_with_cam, source_file}
use homeconnect.Movies.Encode.{
  EncodeOpts, GpuBackend, Src, cpu_args, encode_opts, gpu_args, hevc_src, qcam_src,
}
use homeconnect.Prelude.{
  Action, AppResult, Bool, List, Option, [], bad_request, err, false, if◌then◌else◌, is_empty,
  length, ltb, none, not, not_found, ok, other, some, unwrap_or, ℕ, ◌&&◌, ◌++◌, ◌∷◌,
}
use homeconnect.Prelude.Containers.{map_get, map_insert, map_remove}
use homeconnect.Prelude.Int.{ℤ}
use homeconnect.Prelude.Split.{join, rsplit_once}
use homeconnect.Prelude.Text.{Text, contains, t, text_eq}
use homeconnect.Settings.{get_toggle}
use homeconnect.Storage.{BlobStore, Bytes, blob_key, fullname_of, path_for, size}
use homeconnect.Transcode.{current_device, gpu_backend}

unfoldable pub is_movie_enabled : Bool → Db → Bool
is_movie_enabled seed db = get_toggle (t "movie_enabled") seed db

-- out_path.with_extension("part.mp4"); the last `.` of a movie's file name is that of `.mp4`
unfoldable pub part_path : Text → Text
part_path path = elim (rsplit_once (t ".") path) [
  | none ↦ path ++ t ".part.mp4"
  | some (stem, ext) ↦ if contains (t "/") ext then path ++ t ".part.mp4" else stem ++ t ".part.mp4"
]

-- "concat:{paths.join("|")}"
unfoldable pub concat_input : List Text → Text
concat_input paths = t "concat:" ++ join b'|' paths

-- The blob exists and is not empty.
unfoldable pub nonempty : BlobStore → Text → Bool
nonempty blobs key = elim (size blobs key) [ none ↦ false | some n ↦ ltb 0 n ]

-- The paths of the segments' blobs that can be used.
unfoldable pub usable : BlobStore → Text → Text → Text → List ℤ → List Text
unfolding nonempty
usable blobs dongle ts file [] = []
usable blobs dongle ts file (n ∷ ns) =
    let rest = usable blobs dongle ts file ns in
    if nonempty blobs (blob_key dongle ts n file)
    then path_for blobs (blob_key dongle ts n file) ∷ rest
    else rest

unfoldable pub segs_of : AppResult (List ℤ) → List ℤ
segs_of (ok ns) = ns
segs_of (err e) = []

-- What ffmpeg has written to a path.
unfoldable pub write_output : Text → Option Bytes → AppState → AppState
write_output path none s = s
write_output path (some b) s = record s {
  blobs = record s.blobs { files = map_insert path b s.blobs.files };
}

unfoldable pub remove_output : Text → AppState → AppState
remove_output path s = record s { blobs = record s.blobs { files = map_remove path s.blobs.files } }

unfoldable pub record_build : Text → Text → ℕ → ℕ → AppState → AppState
record_build fullname cam seg_count bytes s = record s {
  db = record_movie fullname cam seg_count bytes s.db;
}

-- The rename of the output to the movie's path.
unfoldable pub rename_output : Text → Bytes → AppState → AppState
unfolding remove_output write_output
rename_output out b s = write_output out (some b) (remove_output (part_path out) s)

-- What other requests may change: the tables and the files, not where the store is.
unfoldable pub others : AppState → AppState → AppState
others s' s = record s' { blobs = record s.blobs { files = s'.blobs.files } }

-- The arguments of ffmpeg but for the device: the inputs, the audio's delay, the options and the output.
pub record Inputs : Type 0 where
  pub src : Src
  pub v_in : Text
  pub a_in : Text
  pub have_audio : Bool
  pub lead : Option ℕ
  pub opts : EncodeOpts
  pub out : Text

unfoldable pub movie_gpu_args : GpuBackend → Inputs → List Text
movie_gpu_args backend i = gpu_args backend i.src i.v_in i.a_in i.have_audio i.lead i.opts i.out

unfoldable pub movie_cpu_args : Inputs → List Text
movie_cpu_args i = cpu_args i.src i.v_in i.a_in i.have_audio i.lead i.opts i.out

-- The audio input and its delay: the enhanced track has the delay in it.
unfoldable pub audio_input : Option Text → List Text → Option ℕ → Text × Option ℕ
unfolding concat_input
audio_input none a_paths lead = (concat_input a_paths, lead)
audio_input (some p) a_paths lead = (p, none)

unfoldable pub movie_inputs :
    Text → List Text → List Text → Option ℕ → Option Text → EncodeOpts → Text → Inputs
unfolding audio_input concat_input
movie_inputs cam v_paths a_paths lead clean opts out =
    let (a_in, lead') = audio_input clean a_paths lead in
    record {
      src = if text_eq cam (t "qcamera") then qcam_src else hevc_src;
      v_in = concat_input v_paths;
      a_in = a_in;
      have_audio = not (is_empty a_paths);
      lead = lead';
      opts = opts;
      out = out;
    }

-- Awaits of `build` at which other requests may change the state: the tests of the segments' files, `metadata` of the
-- renamed output, `probe_duration`, and `is_enabled` after a failure.
pub data Pause : Type 0 where
  checking : Pause
  sizing : Pause
  probing : Pause
  giving_up : Pause

-- What `build` calls or reads besides the state: whether a run of ffmpeg succeeds (a run that is stopped, when encoding is
-- turned off or the time is up, does not), with what it has written; what other requests do during it, and at the other
-- awaits; the GPU's probes;
-- the lead-in of the audio in milliseconds; the enhancement, with the wait for the permit of the semaphore; the settings' seeds.
pub record Tools : Type 0 where
  pub ffmpeg : List Text → Bool × Option Bytes
  pub meanwhile : List Text → AppState → AppState
  pub pauses : Pause → AppState → AppState
  pub is_nvidia : Text → Bool
  pub has_nvenc : Bool
  pub av_lead : Text → Option ℕ
  pub build_wav : List Text → Option ℕ → AppState → Option Text × AppState
  pub enabled_seed : Bool
  pub device_seed : Option Text

module _ (tools : Tools) where
  unfoldable pub run : List Text → Text → AppState → Bool × AppState
  unfolding write_output others
  run args out s = (
    (tools.ffmpeg args).0,
    write_output out (tools.ffmpeg args).1 (others (tools.meanwhile args s) s),
  )

  -- The GPU, if one is selected; what it leaves is removed before the CPU is tried.
  unfoldable pub gpu_run : Option Text → Inputs → AppState → Bool × AppState
  unfolding run movie_gpu_args remove_output
  gpu_run none i s = (false, s)
  gpu_run (some dev) i s =
      let (succeeded, s') =
        run (movie_gpu_args (gpu_backend tools.is_nvidia tools.has_nvenc dev) i) i.out s in
      if not succeeded && is_movie_enabled tools.enabled_seed s'.db
      then (succeeded, remove_output i.out s')
      else (succeeded, s')

  unfoldable pub encode_movie : Option Text → Inputs → AppState → Bool × AppState
  unfolding gpu_run run movie_cpu_args
  encode_movie device i s =
      let (succeeded, s') = gpu_run device i s in
      let cpu = run (movie_cpu_args i) i.out s' in
      if not succeeded && is_movie_enabled tools.enabled_seed s'.db then cpu else (succeeded, s')

  unfoldable pub lead_of : List Text → Option ℕ
  lead_of [] = none
  lead_of (p ∷ ps) = tools.av_lead p

  unfoldable pub pause : Pause → AppState → AppState
  unfolding others
  pause p s = others (tools.pauses p s) s

  -- The size of what is at the movie's path, and its record.
  unfoldable pub measure : Text → Text → Text → ℕ → Action AppState ℕ
  unfolding record_build
  measure key fullname cam seg_count s =
      let bytes = unwrap_or (size s.blobs key) 0 in
      (ok bytes, record_build fullname cam seg_count bytes (pause probing s))

  -- The rename to the movie's path, and the record of its size.
  unfoldable pub install : Text → Text → Text → Text → ℕ → Action AppState ℕ
  unfolding measure rename_output
  install out key fullname cam seg_count s = elim (map_get (part_path out) s.blobs.files) [
    | none ↦ (err other, s)
    | some b ↦ measure key fullname cam seg_count (pause sizing (rename_output out b s))
  ]

  -- A build that has no output: an abort, if encoding has been turned off, and else a failure.
  unfoldable pub fail_build : Text → Text → Text → ℕ → Action AppState ℕ
  unfolding record_build remove_output
  fail_build out fullname cam seg_count s =
      let s' = remove_output (part_path out) s in
      if not (is_movie_enabled tools.enabled_seed s'.db)
      then (err other, s')
      else (err other, record_build fullname cam seg_count 0 (pause giving_up s'))

  -- The part of `build` from the enhancement of the audio to the end.
  unfoldable pub build_from : Text → Text → Text → ℕ → List Text → List Text → Action AppState ℕ
  unfolding encode_movie lead_of movie_inputs install fail_build others
  build_from dongle ts cam seg_count v_paths a_paths begun =
      let (clean, enhanced) = tools.build_wav a_paths (lead_of a_paths) begun in
      let s = others enhanced begun in
      let out = path_for s.blobs (movie_key dongle ts cam) in
      let (succeeded, s') =
        encode_movie (current_device tools.device_seed s.db)
          (movie_inputs cam v_paths a_paths (lead_of a_paths) clean (encode_opts s.db)
            (part_path out))
          s in
      let built = install out (movie_key dongle ts cam) (fullname_of dongle ts) cam seg_count s' in
      let failed = fail_build out (fullname_of dongle ts) cam seg_count s' in
      if succeeded then built else failed

  unfoldable pub build : Text → Text → Text → Action AppState ℕ
  unfolding build_from usable segs_of record_build
  build dongle ts cam begun = elim (source_file cam) [
    | none ↦ (err (bad_request (t "unknown camera: " ++ cam)), begun)
    | some src_file ↦
        let segs = segs_of (segments_with_cam (fullname_of dongle ts) cam begun.db) in
        let s = pause checking begun in
        let v_paths = usable s.blobs dongle ts src_file segs in
        let qsegs = segs_of (segments_with_cam (fullname_of dongle ts) (t "qcamera") s.db) in
        let made =
          build_from dongle ts cam (length segs) v_paths
            (usable s.blobs dongle ts (t "qcamera.ts") qsegs) s in
        if is_empty segs
        then (
          err (not_found (t "no " ++ cam ++ t " segments for " ++ fullname_of dongle ts)),
          begun,
        )
        else if is_empty v_paths
        then (
          err (not_found (t "no usable " ++ cam ++ t " source for " ++ fullname_of dongle ts)),
          record_build (fullname_of dongle ts) cam (length segs) 0 s,
        )
        else made
  ]
