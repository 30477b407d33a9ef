-- ===== src/Ingest.antt =====
-- src/ingest.rs: uploads by a device. The parser of a qlog and the aggregation of a drive's row
-- (src/parse.rs) are arguments of the upload.
pub mod Uploads
use homeconnect.Access.{Auth}
use homeconnect.AppState.{AppState}
use homeconnect.Db.{Db, Device}
use homeconnect.Prelude.{
  Action, AppResult, err, forbidden, if◌then◌else◌, length, lift, modify, none, ok, pure, some,
  unauthorized, update_where, ℕ, ◌&&◌, ◌++◌, ◌+◌, ◌>>=◌, ◌>>◌,
}
use homeconnect.Prelude.Int.{ℤ}
use homeconnect.Prelude.Text.{Text, contains, t, text_eq}
use homeconnect.Segments.{set_segment_file}
use homeconnect.Settings.{Config}
use homeconnect.Storage.{Bytes, blob_key, exists, put}

unfoldable pub require_device : Auth → Text → AppResult (Unit {0})
require_device auth dongle = elim auth.device [
  | some d ↦
      if text_eq d.dongle_id dongle && text_eq auth.claims.identity dongle
      then ok tt
      else err (forbidden (t "device/dongle mismatch"))
  | none ↦ err (unauthorized (t "device token required"))
]

-- UPDATE devices SET server_storage = server_storage + ?
unfoldable pub add_storage : Text → ℕ → Db → Db
add_storage dongle n db = record db {
  devices =
      update_where (λ (d : Device). text_eq d.dongle_id dongle)
        (λ d. record d { server_storage = d.server_storage + n }) db.devices;
}

-- StatusCode::CREATED
abbrev pub created : ℕ
created = 201

unfoldable pub store : Text → Text → Bytes → Action AppState ℕ
unfolding add_storage
store dongle key body state =
    if exists state.blobs key then (err (forbidden (t "file already uploaded")), state) else (
      ok created,
      record state {
        blobs = put key body state.blobs;
        db = add_storage dongle (length body) state.db;
      },
    )

module _ (config : Config) (now : ℤ)
    (parse_and_store : Text → Text → ℤ → Text → Bytes → AppState → AppState)
    (recompute_route : Text → Text → AppState → AppState) where
  -- What follows a stored driving-log segment; an error there is only logged.
  unfoldable pub register : Text → Text → ℤ → Text → Bytes → AppState → AppState
  register dongle ts seg file body state =
      if contains (t "qlog") file
      then parse_and_store dongle ts seg file body state
      else recompute_route dongle ts
          (record state { db = set_segment_file config now dongle ts seg file state.db })

  unfoldable pub upload_driving : Text → Text → ℤ → Text → Auth → Bytes → Action AppState ℕ
  unfolding register
  upload_driving dongle ts seg file auth body = do
    lift (require_device auth dongle)
    status ← store dongle (blob_key dongle ts seg file) body
    modify (register dongle ts seg file body)
    pure status

unfoldable pub upload_boot : Text → Text → Auth → Bytes → Action AppState ℕ
upload_boot dongle file auth body = do
  lift (require_device auth dongle)
  store dongle (dongle ++ t "_boot_" ++ file) body

unfoldable pub upload_crash : Text → Text → Text → Text → Auth → Bytes → Action AppState ℕ
upload_crash dongle log_id commit name auth body = do
  lift (require_device auth dongle)
  store dongle (dongle ++ t "_crash_" ++ log_id ++ t "_" ++ commit ++ t "_" ++ name) body
