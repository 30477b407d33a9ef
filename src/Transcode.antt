-- ===== src/Transcode.antt =====
-- src/transcode.rs: cached transcodes and audio tracks of segments. The cache is a directory of named files;
-- `AppState` has only their names. ffmpeg and the probing of GPUs are parameters.
pub mod Args
pub mod Files
pub mod Cache
pub mod Clean
pub mod Race
pub mod Devices
use homeconnect.Db.{Db, get_setting}
use homeconnect.Manage.{transcode_name}
use homeconnect.Movies.Encode.{GpuBackend, nvenc, vaapi}
use homeconnect.Prelude.{
  Action, Bool, List, Option, [], bad_request, err, false, if◌then◌else◌, is_empty, is_some, max,
  none, not, not_found, ok, other, some, true, ℕ, ◌&&◌, ◌*◌, ◌++◌, ◌/◌, ◌||◌, ◌∷◌,
}
use homeconnect.Prelude.Containers.{map_get, map_insert, map_remove}
use homeconnect.Prelude.Decimal.{show_ℕ, show_ℤ}
use homeconnect.Prelude.Int.{pos_part, ℤ}
use homeconnect.Prelude.Split.{ends_with}
use homeconnect.Prelude.Text.{Text, t, text_eq}
use homeconnect.Storage.{BlobStore, Bytes, blob_key, exists, path_for}
use homeconnect.Transcode.Args.{audio_args, transcode_cpu_args, transcode_gpu_args}

pub record Media : Type 0 where
  pub blobs : BlobStore
  pub files : List (Text × Bytes)

-- The setting, or the device of the environment; `none` is the CPU.
unfoldable pub current_device : Option Text → Db → Option Text
current_device seed db = elim (get_setting (t "transcode_device") db) [
  | none ↦ seed
  | some s ↦ if text_eq s (t "cpu") then none else if is_empty s then seed else some s
]

unfoldable pub camera_source : Text → Option Text
camera_source cam =
    if text_eq cam (t "fcamera")
    then some (t "fcamera.hevc")
    else if text_eq cam (t "dcamera")
    then some (t "dcamera.hevc")
    else if text_eq cam (t "ecamera")
    then some (t "ecamera.hevc")
    else none

-- The permits of the semaphore, by the number of processors.
unfoldable pub permits : ℕ → ℕ
permits n = max (n / 2) 2

-- (seg.max(0) * SEGMENT_SECS).to_string()
abbrev pub offset_of : ℤ → Text
offset_of seg = show_ℕ (pos_part seg * 60)

-- out.with_extension("tmp.ts"), for a name that ends in .ts
unfoldable pub tmp_name : Text → Text → ℤ → Text → Text
tmp_name dongle ts seg cam =
    dongle ++ b'_' ∷ ts ++ t "--" ++ show_ℤ seg ++ t "--" ++ cam ++ t ".tmp.ts"

-- What a run of ffmpeg has written to its output, if anything.
unfoldable pub written : Text → Option Bytes → List (Text × Bytes) → List (Text × Bytes)
written tmp none files = files
written tmp (some b) files = map_insert tmp b files

-- tokio::fs::rename
unfoldable pub publish : Text → Text → Action (List (Text × Bytes)) Text
publish tmp out files = elim (map_get tmp files) [
  | none ↦ (err other, files)
  | some b ↦ (ok out, map_insert out b (map_remove tmp files))
]

unfoldable pub finish_run : Text → Text → Bool → Action (List (Text × Bytes)) Text
unfolding publish
finish_run tmp out succeeded files =
    if succeeded then publish tmp out files else (err other, map_remove tmp files)

unfoldable pub gpu_backend : (Text → Bool) → Bool → Text → GpuBackend
gpu_backend is_nvidia has_nvenc value = if is_nvidia value && has_nvenc then nvenc else vaapi value

-- What the encoding calls or reads besides the state: whether a run of ffmpeg succeeds, with what it has written; whether a
-- device is Nvidia's; whether ffmpeg has h264_nvenc; the transcode directory.
pub record FfmpegTools : Type 0 where
  pub ffmpeg : List Text → Bool × Option Bytes
  pub is_nvidia : Text → Bool
  pub has_nvenc : Bool
  pub dir : Text

module _ (enc : FfmpegTools) where
  -- A run of ffmpeg on the temporary file `tmp`.
  unfoldable pub run_ffmpeg : List Text → Text → List (Text × Bytes) → Bool × List (Text × Bytes)
  unfolding written
  run_ffmpeg args tmp files = ((enc.ffmpeg args).0, written tmp (enc.ffmpeg args).1 files)

  unfoldable pub try_gpu :
      Option Text → Text → Text → Text → List (Text × Bytes) → Bool × List (Text × Bytes)
  unfolding gpu_backend run_ffmpeg
  try_gpu none src tmp offset files = (false, files)
  try_gpu (some dev) src tmp offset files =
      let (succeeded, files') =
        run_ffmpeg
          (transcode_gpu_args (gpu_backend enc.is_nvidia enc.has_nvenc dev) src
            (enc.dir ++ b'/' ∷ tmp) offset)
          tmp files in
      if succeeded then (true, files') else (false, map_remove tmp files')

  -- The GPU if one is selected, and the CPU if that fails.
  unfoldable pub encode :
      Option Text → Text → Text → Text → List (Text × Bytes) → Bool × List (Text × Bytes)
  unfolding try_gpu
  encode device src tmp offset files =
      let (succeeded, files') = try_gpu device src tmp offset files in
      let cpu = run_ffmpeg (transcode_cpu_args src (enc.dir ++ b'/' ∷ tmp) offset) tmp files' in
      if succeeded then (true, files') else cpu

  -- One request alone: the second look at the cache, under the semaphore, sees what the first saw.
  unfoldable pub ensure_transcode : Option Text → Text → Text → ℤ → Text → Action Media Text
  unfolding camera_source encode finish_run
  ensure_transcode device dongle ts seg cam s = elim (camera_source cam) [
    | none ↦ (err (bad_request (t "not a transcodable camera: " ++ cam)), s)
    | some src_file ↦
        if is_some (map_get (transcode_name dongle ts seg cam) s.files)
        then (ok (transcode_name dongle ts seg cam), s)
        else if not (exists s.blobs (blob_key dongle ts seg src_file))
        then (err (not_found (t "no " ++ src_file ++ t " for segment")), s)
        else (let (succeeded, files) =
              encode device (path_for s.blobs (blob_key dongle ts seg src_file))
                (tmp_name dongle ts seg cam) (offset_of seg) s.files in
            let (r, files') =
              finish_run (tmp_name dongle ts seg cam) (transcode_name dongle ts seg cam) succeeded
                files in
            (r, record s { files = files' }))
  ]

  unfoldable pub ensure_audio : Text → Text → ℤ → Action Media Text
  unfolding run_ffmpeg finish_run
  ensure_audio dongle ts seg s =
      if is_some (map_get (transcode_name dongle ts seg (t "audio")) s.files)
      then (ok (transcode_name dongle ts seg (t "audio")), s)
      else if not (exists s.blobs (blob_key dongle ts seg (t "qcamera.ts")))
      then (err (not_found (t "no qcamera for segment")), s)
      else (let tmp = tmp_name dongle ts seg (t "audio") in
          let (succeeded, files) =
            run_ffmpeg
              (audio_args (path_for s.blobs (blob_key dongle ts seg (t "qcamera.ts")))
                (enc.dir ++ b'/' ∷ tmp) (offset_of seg))
              tmp s.files in
          let (r, files') =
            finish_run tmp (transcode_name dongle ts seg (t "audio")) succeeded files in
          (r, record s { files = files' }))

unfoldable pub is_partial : Text → Bool
is_partial name = ends_with (t ".tmp.ts") name || ends_with (t ".part") name

unfoldable pub clean_cache_tmp : List (Text × Bytes) → List (Text × Bytes)
unfolding is_partial
clean_cache_tmp [] = []
clean_cache_tmp ((name, b) ∷ files) =
    let rest = clean_cache_tmp files in if is_partial name then rest else (name, b) ∷ rest
