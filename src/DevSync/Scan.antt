-- ===== src/DevSync/Scan.antt =====
-- What a scan puts into the queue.
use homeconnect.Db.{Db, Device}
use homeconnect.DevSync.{
  SyncOpts, in_route, load_registration, registered, scan_file, types_for, wanted,
}
use homeconnect.DevSync.Registration.{IsOneKind, OfRoute, registered-set_segment_file}
use homeconnect.Prelude.{All, arith, is_some, none, not, some, ◌&&◌, ◌≡◌}
use homeconnect.Prelude.Containers.{map_get}
use homeconnect.Prelude.Int.{ℤ}
use homeconnect.Prelude.Text.{Text}
use homeconnect.Segments.{Column, file_kind, set_segment_file}
use homeconnect.Settings.{Config}
use homeconnect.Storage.{blob_key, canonical_of, fullname_of}
use homeconnect.SyncQueue.{QueueItem}

-- A file is queued exactly when its drive is the one asked for (or none is named), its type is selected for
-- that drive and its segment's row does not yet register it; the queue entry names the device, its
-- address and the blob's key.
pub scan_file_lem :
    (config : Config) (db : Db) (device : Device) (opts : SyncOpts) (ts file : Text) (seg : ℤ)
    → (is_some (scan_file config db device opts (ts, (seg, file))) ≡ (
        in_route opts ts
        && wanted file (types_for config db device.dongle_id opts ts)
        && not (
            registered
              (map_get
                (canonical_of device.dongle_id ts seg)
                (load_registration device.dongle_id db))
              file)))
      × ((it : QueueItem)
          → scan_file config db device opts (ts, (seg, file)) ≡ some it
          → (it.key ≡ blob_key device.dongle_id ts seg file)
            × (it.addr ≡ device.last_addr)
            × (it.file ≡ file))
unfolding scan_file
scan_file_lem config db device opts ts file seg = (ground arith, λ it h. ground (arith, h))

-- A file of a known kind that `set_segment_file` has registered is not queued by a later scan,
-- whatever the options and the settings, if rows with the segment's name belong to the segment's drive
-- and the file's name does not name both the qlog and a camera.
pub scan_file-set_segment_file :
    (config : Config) (now : ℤ) (device : Device) (opts : SyncOpts) (ts file ty : Text) (seg : ℤ)
    (col : Column) (db : Db)
    → IsOneKind file
    → file_kind file ≡ some (ty, col)
    → All
        (OfRoute (canonical_of device.dongle_id ts seg) (fullname_of device.dongle_id ts))
        db.segments
    → scan_file config
        (set_segment_file config now device.dongle_id ts seg file db)
        device
        opts
        (ts, (seg, file))
      ≡ none
scan_file-set_segment_file config now device opts ts file ty seg col db k h a =
    let db' : Db = set_segment_file config now device.dongle_id ts seg file db in
    let r = registered-set_segment_file config now device.dongle_id ts file ty seg col db k h a in
    let (s, _) = scan_file_lem config db' device opts ts file seg in ground (arith, s, r)
