-- ===== src/Examples/Media.antt =====
-- The theorems on transcodes and served files, applied to a stored camera file and to the public drive.
use homeconnect.AppState.{AppState}
use homeconnect.Db.{Db}
use homeconnect.Examples.{drive, household}
use homeconnect.Examples.Drives.{shared}
use homeconnect.Examples.Logs.{tables}
use homeconnect.Examples.Sweeps.{part}
use homeconnect.Manage.{transcode_name}
use homeconnect.Movies.{coverage}
use homeconnect.Movies.Build.{Tools, build}
use homeconnect.Movies.Build.Settled.{IsBuilt, build_lem}
use homeconnect.Prelude.{
  Bool, List, Option, [], err, false, if◌then◌else◌, none, ok, other, refl, some, true, ◌∷◌, ◌≡◌,
  ◌≤◌,
}
use homeconnect.Prelude.Containers.{map_get}
use homeconnect.Prelude.Int.{pos}
use homeconnect.Prelude.Text.{Text, t, text_eq}
use homeconnect.Serve.{serve_blob}
use homeconnect.Serve.Media.{
  MayView, MayViewNamed, Unless, media_guarded, serve_audio, serve_movie, serve_subs,
  serve_transcode,
}
use homeconnect.Storage.{Bytes, blob_key, fullname_of, put}
use homeconnect.Transcode.{
  FfmpegTools, Media, camera_source, clean_cache_tmp, ensure_transcode, finish_run, is_partial,
  permits, run_ffmpeg, tmp_name,
}
use homeconnect.Transcode.Cache.{IsServed, ensure_transcode_lem}
use homeconnect.Transcode.Clean.{clean_cache_tmp_lem}
use homeconnect.Transcode.Race.{transcode_race}

-- Every run of ffmpeg succeeds, and writes one byte.
abbrev runs : List Text → Bool × Option Bytes
runs args = (true, some (9 ∷ []))

abbrev coder : FfmpegTools
coder = record { ffmpeg = runs; is_nvidia = λ d. false; has_nvenc = true; dir = [] }

abbrev stored : Media
stored = record {
  blobs = put (blob_key (100 ∷ []) (116 ∷ []) (pos 0) (t "fcamera.hevc")) (1 ∷ []) tables.app.blobs;
  files = [];
}

ensure_transcode_example :
    IsServed coder none
      (100 ∷ [])
      (116 ∷ [])
      (pos 0)
      (t "fcamera")
      (t "fcamera.hevc")
      stored
      (ensure_transcode coder none (100 ∷ []) (116 ∷ []) (pos 0) (t "fcamera") stored)
unfolding camera_source text_eq t
ensure_transcode_example =
    ensure_transcode_lem coder (λ args h. (9 ∷ [], refl)) none (100 ∷ []) (116 ∷ []) (t "fcamera")
      (t "fcamera.hevc") (pos 0) stored refl

-- A cache with the remains of an interrupted run beside a finished one.
abbrev dusty : List (Text × Bytes)
dusty =
    (tmp_name (100 ∷ []) (116 ∷ []) (pos 0) (t "fcamera"), 1 ∷ [])
    ∷ (transcode_name (100 ∷ []) (116 ∷ []) (pos 0) (t "fcamera"), 2 ∷ [])
    ∷ []

clean_example :
    (map_get (tmp_name (100 ∷ []) (116 ∷ []) (pos 0) (t "fcamera")) (clean_cache_tmp dusty) ≡ none)
    × (map_get (transcode_name (100 ∷ []) (116 ∷ []) (pos 0) (t "fcamera")) (clean_cache_tmp dusty)
        ≡ map_get (transcode_name (100 ∷ []) (116 ∷ []) (pos 0) (t "fcamera")) dusty)
    × ((n : Text)
        → map_get n (clean_cache_tmp dusty) ≡ (if is_partial n then none else map_get n dusty))
unfolding text_eq t
clean_example = clean_cache_tmp_lem dusty (100 ∷ []) (116 ∷ []) (t "fcamera") (pos 0) refl

abbrev open_house : Db
open_house = record household { routes = record drive { is_public = 1 } ∷ [] }

media_example :
    Unless
      (serve_blob open_house stored.blobs (100 ∷ []) (116 ∷ []) (pos 0) (t "fcamera.ts") none none)
      (MayView open_house (fullname_of (100 ∷ []) (116 ∷ [])) (100 ∷ []) none)
    × Unless
        (serve_transcode coder open_house none
          (100 ∷ [])
          (116 ∷ [])
          (pos 0)
          (t "fcamera.ts")
          none
          none
          stored).0
        (MayView open_house (fullname_of (100 ∷ []) (116 ∷ [])) (100 ∷ []) none)
    × Unless
        (serve_audio coder open_house (100 ∷ []) (116 ∷ []) (pos 0) none none stored).0
        (MayView open_house (fullname_of (100 ∷ []) (116 ∷ [])) (100 ∷ []) none)
    × Unless
        (serve_movie open_house stored.blobs (t "d|t") (t "fcamera.ts") none none)
        (MayViewNamed open_house (t "d|t") none)
    × Unless
        (serve_subs open_house stored.blobs (t "d|t") none none)
        (MayViewNamed open_house (t "d|t") none)
media_example =
    media_guarded coder open_house none (100 ∷ []) (116 ∷ []) (t "fcamera.ts") (t "d|t") (pos 0)
      none none stored

-- The drive with one segment, which has a qcamera file.
abbrev film : AppState
film = record shared {
  db = record household { segments = part ∷ [] };
  blobs = put (blob_key (100 ∷ []) (116 ∷ []) (pos 0) (t "qcamera.ts")) (1 ∷ []) shared.blobs;
}

abbrev workshop : Tools
workshop = record {
  ffmpeg = runs;
  meanwhile = λ args s. s;
  pauses = λ p s. s;
  is_nvidia = λ d. false;
  has_nvenc = true;
  av_lead = λ p. none;
  build_wav = λ paths lead s. (none, s);
  enabled_seed = true;
  device_seed = none;
}

build_example :
    IsBuilt workshop
      (100 ∷ [])
      (116 ∷ [])
      (t "qcamera")
      (coverage film.db (fullname_of (100 ∷ []) (116 ∷ [])) (t "qcamera")).1
      (build workshop (100 ∷ []) (116 ∷ []) (t "qcamera") film)
build_example =
    build_lem workshop (λ args h. (9 ∷ [], refl)) (100 ∷ []) (116 ∷ []) (t "qcamera") film

transcode_race_example :
    (2 ≤ permits 2)
    × ((finish_run
          (tmp_name [] [] (pos 0) [])
          (transcode_name [] [] (pos 0) [])
          true
          (run_ffmpeg coder []
            (tmp_name [] [] (pos 0) [])
            (run_ffmpeg coder [] (tmp_name [] [] (pos 0) []) []).1).1).0
        ≡ ok (transcode_name [] [] (pos 0) []))
    × (map_get
          (transcode_name [] [] (pos 0) [])
          (finish_run
            (tmp_name [] [] (pos 0) [])
            (transcode_name [] [] (pos 0) [])
            true
            (run_ffmpeg coder []
              (tmp_name [] [] (pos 0) [])
              (run_ffmpeg coder [] (tmp_name [] [] (pos 0) []) []).1).1).1
        ≡ some (9 ∷ []))
    × ((finish_run
          (tmp_name [] [] (pos 0) [])
          (transcode_name [] [] (pos 0) [])
          true
          (finish_run
            (tmp_name [] [] (pos 0) [])
            (transcode_name [] [] (pos 0) [])
            true
            (run_ffmpeg coder []
              (tmp_name [] [] (pos 0) [])
              (run_ffmpeg coder [] (tmp_name [] [] (pos 0) []) []).1).1).1).0
        ≡ err other)
transcode_race_example = transcode_race coder [] [] [] (pos 0) 2 [] [] (9 ∷ []) [] refl
