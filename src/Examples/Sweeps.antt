-- ===== src/Examples/Sweeps.antt =====
-- The theorems on movies, subtitles, retention and deletions, applied to the household.
use homeconnect.AppState.{AppState}
use homeconnect.Db.{Param, Route, Segment, Sub}
use homeconnect.DevSync.{file_type, scan_file}
use homeconnect.DeviceParams.{
  cache_set, find_spec, fits, flush_one, is_param, is_writable, refresh_one,
}
use homeconnect.DeviceParams.Edits.{edit_lost}
use homeconnect.Examples.{comma, drive, household}
use homeconnect.Examples.Drives.{conf, shared}
use homeconnect.Manage.{delete_cam_movies, delete_on_server, delete_segments, segment_numbers}
use homeconnect.Manage.Deletions.{delete_on_server_lem, qlog_repulled}
use homeconnect.Prelude.{
  All, [], any, arith, count, false, find, is_some, length, none, refl, some, true, ◌∷◌, ◌≡◌, ◌≤◌,
  ◌⊎◌,
}
use homeconnect.Prelude.Containers.{map_get}
use homeconnect.Prelude.Int.{pos}
use homeconnect.Prelude.Split.{split_once}
use homeconnect.Prelude.Text.{Text, contains, strip_prefix, t, text_eq}
use homeconnect.Retention.{Policy, delete_route, delete_routes, to_delete, until_under}
use homeconnect.Retention.Counts.{max_drives_lem}
use homeconnect.Retention.Deletion.{HasNoFiles, delete_route_lem}
use homeconnect.Retention.Limits.{until_under_lem}
use homeconnect.Retention.Names.{of_device}
use homeconnect.Segments.{clear_segment_col, qlog_url}
use homeconnect.Storage.{blob_key, fullname_of, put}
use homeconnect.Storage.{size}

abbrev camera : Text
camera = t "qcamera"

abbrev pub part : Segment
part = record {
  canonical_name = 100 ∷ b'|' ∷ 116 ∷ b'-' ∷ b'-' ∷ 48 ∷ [];
  canonical_route_name = 100 ∷ b'|' ∷ 116 ∷ [];
  number = pos 0;
  qcam_url = 1 ∷ [];
  fcam_url = [];
  dcam_url = [];
  ecam_url = [];
  qlog_url = 1 ∷ [];
  rlog_url = [];
}

full_example :
    ((λ (s : AppState). length s.db.routes) (until_under (λ s. length s.db.routes) 0 1 shared).1
      ≤ 0)
    ⊎ ((until_under (λ s. length s.db.routes) 0 1 shared).1.db.routes ≡ [])
unfolding split_once
full_example = until_under_lem (λ s. length s.db.routes) 0 1 shared (ground arith) (refl, tt)

abbrev newer : Route
newer = record drive { fullname = 100 ∷ b'|' ∷ 117 ∷ []; start_time_utc_millis = pos 20 }

abbrev crowded : AppState
crowded = record shared { db = record household { routes = drive ∷ newer ∷ [] } }

abbrev one_drive : Policy
one_drive = record { days = pos 0; max_drives = pos 1; cap = none }

count_example :
    count
      (of_device (100 ∷ []))
      (delete_routes (to_delete (pos 30) one_drive crowded.db) crowded).db.routes
    ≤ 1
unfolding split_once text_eq
count_example = max_drives_lem (pos 30) one_drive 0 (100 ∷ []) crowded refl (refl, (refl, tt)) refl

-- Two drives and one segment, and its file in the store.
abbrev parked : AppState
parked = record shared {
  db = record household { routes = drive ∷ newer ∷ []; segments = part ∷ [] };
}

abbrev stocked : AppState
stocked = record parked {
  blobs = put (blob_key (100 ∷ []) (116 ∷ []) (pos 0) (t "qcamera.ts")) (1 ∷ []) shared.blobs;
}

deleted_route_example :
    let r = delete_route drive.fullname stocked in
    All (HasNoFiles (100 ∷ []) (116 ∷ []) r.blobs) (segment_numbers drive.fullname stocked.db)
    × (any (λ (s : Segment). text_eq s.canonical_route_name drive.fullname) r.db.segments ≡ false)
    × (any (λ (r : Route). text_eq r.fullname drive.fullname) r.db.routes ≡ false)
    × (any (λ (s : Sub). text_eq s.fullname (fullname_of (100 ∷ []) (116 ∷ []))) r.db.subs ≡ false)
    × ((newer.fullname ≡ drive.fullname)
        ⊎ (find (λ (r : Route). text_eq r.fullname newer.fullname) r.db.routes
            ≡ find (λ (r : Route). text_eq r.fullname newer.fullname) stocked.db.routes))
unfolding split_once
deleted_route_example =
    delete_route_lem drive.fullname (100 ∷ []) (116 ∷ []) newer.fullname stocked refl

deleted_types_example :
    scan_file conf
      (delete_on_server conf (λ d ts s. s) (100 ∷ []) (116 ∷ []) (t "rlog" ∷ []) parked).state.db
      comma
      (record { types = none; route = none })
      (116 ∷ [], (pos 0, t "rlog.zst"))
    ≡ none
unfolding fullname_of text_eq segment_numbers t delete_segments delete_cam_movies file_type contains
    strip_prefix clear_segment_col size map_get
deleted_types_example =
    delete_on_server_lem conf (λ d ts s. s) comma (116 ∷ []) (t "rlog") (t "rlog.zst") (pos 0)
      (t "rlog" ∷ []) none parked drive refl refl refl refl

qlog_example :
    is_some (
      scan_file conf
        (clear_segment_col qlog_url (100 ∷ []) (116 ∷ []) (pos 0) household)
        comma
        (record { types = none; route = none })
        (116 ∷ [], (pos 0, t "qlog.zst")))
    ≡ true
unfolding contains t strip_prefix
qlog_example =
    qlog_repulled conf household comma (record { types = none; route = none }) (116 ∷ [])
      (t "qlog.zst") (pos 0) refl refl

abbrev waiting : Param
waiting = record {
  dongle_id = 100 ∷ [];
  key = t "RecordAudio";
  value = t "1";
  pending = 1;
  updated_at = pos 1;
}

lost_example :
    (q : Param) × (find
        (is_param (100 ∷ []) (t "RecordAudio"))
        (refresh_one
          (pos 6)
          (100 ∷ [])
          (t "RecordAudio")
          (t "1")
          (flush_one
            (λ k v. true)
            (100 ∷ [])
            (t "RecordAudio")
            (t "1")
            (0, cache_set (pos 5) (100 ∷ []) (t "RecordAudio") (t "0") household)).1).device_params
      ≡ some q)
    × (q.value ≡ t "1")
    × (q.pending ≡ 0)
unfolding is_writable find_spec fits t text_eq
lost_example =
    edit_lost (λ k v. true) (pos 5) (pos 6) 0 (100 ∷ []) (t "RecordAudio") (t "1") (t "0") household
      refl refl
