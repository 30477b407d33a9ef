-- ===== src/Examples/Pulls.antt =====
-- The theorems on the SSH pull and on the settings of syncing, applied to one device and its files.
use homeconnect.Admin.{SyncSettings}
use homeconnect.Db.{get_setting}
use homeconnect.DevSync.{remote_path, safe_component}
use homeconnect.DevSync.Options.{is_autoprune_enabled}
use homeconnect.DevSync.Passes.{KeepsPass, Syncing, sync_all, sync_all_lem}
use homeconnect.DevSync.Pull.{
  IsPruned, extract, forget_status, ingest_segment_file, process_item, process_item_prunes, prune,
  register_segment_file, register_stored, then_prune,
}
use homeconnect.DevSync.Pull.Listing.{process_item-Lists}
use homeconnect.DevSync.Remote.{maybe_prune}
use homeconnect.Examples.{alice, drive, household}
use homeconnect.Examples.Drives.{conf}
use homeconnect.Examples.Logs.{decoders, tables, whole}
use homeconnect.Ingest.{store}
use homeconnect.Logs.Decode.{decompress}
use homeconnect.Logs.Recomputed.{Lists}
use homeconnect.Logs.Rows.{recompute_route}
use homeconnect.Prelude.{
  AppError, AppResult, List, Option, [], err, false, none, ok, refl, some, true, ◌++◌, ◌∷◌, ◌≡◌,
  ◌⊎◌,
}
use homeconnect.Prelude.Containers.{map_get, map_insert, map_remove}
use homeconnect.Prelude.Decimal.{show_ℤ}
use homeconnect.Prelude.Int.{pos}
use homeconnect.Prelude.Split.{ends_with, rsplit_once}
use homeconnect.Prelude.Text.{Text, contains, strip_prefix, t, text_eq}
use homeconnect.Segments.{file_kind, set_column, set_segment_file}
use homeconnect.Settings.{Config, get_toggle}
use homeconnect.Storage.{Bytes, blob_key, canonical_of, exists, fullname_of, put}
use homeconnect.SyncApi.{RouteSync, RouteSyncReq, authorize_route, get_route_sync, set_route_sync}
use homeconnect.SyncApi.Overrides.{Leaves, set_route_sync_lem}
use homeconnect.SyncQueue.{QueueItem, default}

-- Every device answers with one camera file.
abbrev answers : Text → AppResult (List Text)
answers addr = ok (remote_path (116 ∷ []) (pos 0) (t "qcamera.ts") ∷ [])

abbrev idle : Syncing
idle = record { athena = record { inner = []; syncing = [] }; queue = default }

pass_example : KeepsPass conf household answers idle (sync_all conf household answers idle)
pass_example = sync_all_lem conf household answers idle

abbrev queued : Text → QueueItem
queued file = record {
  dongle = 100 ∷ [];
  addr = 49 ∷ [];
  ts = 116 ∷ [];
  seg = pos 0;
  file = file;
  key = blob_key (100 ∷ []) (116 ∷ []) (pos 0) file;
}

-- The device hands every file over.
abbrev hand_over : Text → Text → Option Bytes
hand_over addr path = some (1 ∷ [])

abbrev no_frames : Text → Bytes → Option Bytes
no_frames file raw = none

listed_example :
    Lists whole
      (fullname_of (100 ∷ []) (116 ∷ []))
      (pos 0)
      (process_item whole decoders conf (pos 1) no_frames hand_over (queued (t "qlog")) tables).0
unfolding exists decompress file_kind ends_with contains strip_prefix t text_eq map_get
listed_example =
    process_item-Lists whole decoders conf (pos 1) no_frames hand_over (queued (t "qlog")) tables
      (1 ∷ []) (1 ∷ []) (t "qlog") refl refl refl refl refl refl refl tt

-- Automatic pruning is on.
abbrev pruning : Config
pruning = record conf { device_autoprune = true }

prunes_example :
    IsPruned whole decoders pruning
      (pos 1)
      no_frames
      hand_over
      (queued (t "qcamera.ts"))
      (process_item whole decoders pruning
        (pos 1)
        no_frames
        hand_over
        (queued (t "qcamera.ts"))
        tables).0
      ((t "rm -f '" ++ remote_path (116 ∷ []) (pos 0) (t "qcamera.ts") ++ t "'") ∷ [])
unfolding process_item exists map_get ingest_segment_file register_stored extract then_prune
    forget_status prune register_segment_file store contains t maybe_prune is_autoprune_enabled
    get_toggle get_setting recompute_route set_segment_file set_column text_eq fullname_of
    canonical_of show_ℤ put map_insert map_remove rsplit_once blob_key safe_component ends_with
prunes_example =
    process_item_prunes whole decoders pruning (pos 1) no_frames hand_over (queued (t "qcamera.ts"))
      tables
      (process_item whole decoders pruning (pos 1) no_frames hand_over (queued (t "qcamera.ts"))
        tables).0
      (t "rm -f '" ++ remote_path (116 ∷ []) (pos 0) (t "qcamera.ts") ++ t "'") [] refl refl

abbrev request : SyncSettings
request = record {
  enabled = some false;
  interval_secs = some 30;
  types = some (t "rlog" ∷ t "unknown" ∷ []);
  autoprune = none;
}

abbrev trim_down : RouteSyncReq
trim_down = record { types = some (t "qcamera" ∷ []); reset = none }

route_sync_example :
    ((e : AppError) × (authorize_route household alice drive.fullname ≡ err e)
      × (set_route_sync conf alice drive.fullname trim_down household ≡ (err e, household)))
    ⊎ ((v : RouteSync) × (authorize_route household alice drive.fullname ≡ ok tt)
        × ((set_route_sync conf alice drive.fullname trim_down household).0 ≡ ok v)
        × Leaves conf household drive.fullname trim_down v
        × (get_route_sync conf
              (set_route_sync conf alice drive.fullname trim_down household).1
              alice
              drive.fullname
            ≡ ok v))
unfolding text_eq
route_sync_example = set_route_sync_lem conf alice drive.fullname trim_down household drive refl
