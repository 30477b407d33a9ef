-- ===== src/Examples/Drives.antt =====
-- The theorems on settings, drives and their files, applied to the household.
use homeconnect.AppState.{AppState}
use homeconnect.DevSync.{parse_remote_path, remote_path, safe_char, safe_component, scan_file}
use homeconnect.DevSync.Paths.{parse_remote_path-remote_path}
use homeconnect.DevSync.Remote.{IsPlainPath, delete_paths, delete_paths-IsPlainPath}
use homeconnect.DevSync.Scan.{scan_file-set_segment_file}
use homeconnect.Examples.{comma, household}
use homeconnect.Ingest.{add_storage, created, store}
use homeconnect.Ingest.Uploads.{store_lem}
use homeconnect.Prelude.{
  All, AppError, [], arith, err, false, none, ok, refl, some, true, ◌∷◌, ◌≡◌, ◌⊎◌,
}
use homeconnect.Prelude.Int.{pos}
use homeconnect.Prelude.Text.{contains, strip_prefix, t}
use homeconnect.Segments.{file_kind, qlog_url, set_segment_file}
use homeconnect.Settings.{Config}
use homeconnect.Storage.{get, path_for, with_part}

abbrev pub conf : Config
conf = record {
  public_url = [];
  data_dir = [];
  sync_enabled = true;
  sync_interval_secs = 300;
  sync_fullres = false;
  device_autoprune = false;
  movie_enabled = true;
  movie_interval_secs = 120;
  subs_enabled = false;
  whisper_url = [];
  retain_days = pos 0;
  retain_max_drives = pos 0;
}

path_example :
    parse_remote_path (remote_path (116 ∷ []) (pos 5) (102 ∷ []))
    ≡ some (116 ∷ [], (pos 5, 102 ∷ []))
path_example =
    parse_remote_path-remote_path (116 ∷ []) (102 ∷ []) 5 (ground arith) (ground arith, tt) refl
      refl

scan_once_example :
    scan_file conf
      (set_segment_file conf (pos 9) (100 ∷ []) (116 ∷ []) (pos 0) (t "qlog.zst") household)
      comma
      (record { types = none; route = none })
      (116 ∷ [], (pos 0, t "qlog.zst"))
    ≡ none
unfolding file_kind contains t strip_prefix
scan_once_example =
    scan_file-set_segment_file conf (pos 9) comma (record { types = none; route = none }) (116 ∷ [])
      (t "qlog.zst") (t "qlog") (pos 0) qlog_url household (λ h. (refl, refl, refl, refl)) refl tt

script_example :
    All IsPlainPath (delete_paths (116 ∷ []) ((pos 1, 113 ∷ []) ∷ (pos 2, 39 ∷ []) ∷ []))
unfolding safe_component safe_char
script_example =
    delete_paths-IsPlainPath (116 ∷ []) ((pos 1, 113 ∷ []) ∷ (pos 2, 39 ∷ []) ∷ []) refl

abbrev pub shared : AppState
shared = record {
  db = household;
  blobs = record { sha256_hex = λ key. 97 ∷ []; root = []; files = [] };
  transcodes = [];
}

store_example :
    ((path_for shared.blobs [] ≡ with_part (path_for shared.blobs []))
      ⊎ (get shared.blobs [] ≡ none)
      ⊎ (get (store (100 ∷ []) [] (7 ∷ []) shared).1.blobs [] ≡ get shared.blobs []))
    × (((e : AppError) × (store (100 ∷ []) [] (7 ∷ []) shared ≡ (err e, shared)))
        ⊎ (((store (100 ∷ []) [] (7 ∷ []) shared).0 ≡ ok created)
            × (get (store (100 ∷ []) [] (7 ∷ []) shared).1.blobs [] ≡ some (7 ∷ []))
            × ((store (100 ∷ []) [] (7 ∷ []) shared).1.db ≡ add_storage (100 ∷ []) 1 household)))
store_example = store_lem (100 ∷ []) [] [] (7 ∷ []) shared
