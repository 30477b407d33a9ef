-- ===== src/Admin.antt =====
-- src/api/settings.rs: the settings that an admin changes.
pub mod Sync
use homeconnect.Db.{Db, User, get_setting, set_setting}
use homeconnect.DevSync.Options.{
  all_types, get_interval, get_sync_types, is_autoprune_enabled, is_enabled, listed, set_autoprune,
  set_enabled, set_interval, set_sync_types,
}
use homeconnect.Prelude.{
  Action, AppResult, Bool, List, Option, bad_request, err, forbidden, gets, guard, if◌then◌else◌,
  is_empty, is_some, lift, modify, none, not, ok, pure, some, ℕ, ◌&&◌, ◌==◌, ◌>>=◌, ◌>>◌, ◌||◌,
}
use homeconnect.Prelude.Split.{trim_start_matches}
use homeconnect.Prelude.Text.{Text, strip_prefix, t, text_eq, trim}
use homeconnect.Settings.{Config, set_toggle}
use mathlib.Core.List.{reverse}

unfoldable pub require_admin : User → AppResult (Unit {0})
require_admin user = if user.is_admin == 0 then err (forbidden (t "admin required")) else ok tt

pub record SyncSettings : Type 0 where
  pub enabled : Option Bool
  pub interval_secs : Option ℕ
  pub types : Option (List Text)
  pub autoprune : Option Bool

-- The answer of `get_sync`, and of `set_sync`.
pub record SyncView : Type 0 where
  pub enabled : Bool
  pub interval_secs : ℕ
  pub types : List Text
  pub all_types : List Text
  pub autoprune : Bool

-- A field that may be left out.
pub apply_if {ℓ} : {A : Type ℓ} → Option A → (A → Db → Db) → Db → Db
apply_if none f db = db
apply_if (some a) f db = f a db

unfoldable pub sync_view : Config → Db → SyncView
sync_view config db = record {
  enabled = is_enabled config db;
  interval_secs = get_interval config db;
  types = get_sync_types config db;
  all_types = all_types;
  autoprune = is_autoprune_enabled config db;
}

unfoldable pub get_sync : Config → User → Action Db SyncView
unfolding sync_view
get_sync config user = do lift (require_admin user); gets (sync_view config)

unfoldable pub write_sync : SyncSettings → Db → Db
write_sync req db = apply_if req.autoprune set_autoprune (
    apply_if req.types set_sync_types
      (apply_if req.interval_secs set_interval (apply_if req.enabled set_enabled db)))

unfoldable pub set_sync : Config → User → SyncSettings → Action Db SyncView
unfolding sync_view write_sync
set_sync config user req = do
  lift (require_admin user)
  modify (write_sync req)
  gets (sync_view config)

abbrev clean_url : Text → Text
clean_url raw = reverse (trim_start_matches b'/' (reverse (trim raw)))

unfoldable pub whisper_url : Config → Db → Text
whisper_url config db = elim (get_setting (t "whisper_url") db) [
  | none ↦ clean_url config.whisper_url
  | some s ↦ clean_url (if is_empty (trim s) then config.whisper_url else s)
]

abbrev is_http : Text → Bool
is_http url = is_some (strip_prefix (t "http://") url) || is_some (strip_prefix (t "https://") url)

unfoldable pub set_whisper_url : Text → Action Db (Unit {0})
set_whisper_url url db =
    if not (is_empty (trim url)) && not (is_http (trim url))
    then (err (bad_request (t "whisper url must be http(s)")), db)
    else (ok tt, set_setting (t "whisper_url") (trim url) db)

pub record SubsReq : Type 0 where
  pub enabled : Option Bool
  pub whisper_url : Option Text

unfoldable pub write_url : Option Text → Action Db (Unit {0})
unfolding set_whisper_url
write_url none db = (ok tt, db)
write_url (some url) db = set_whisper_url url db

-- Without its answer, the settings and whether the whisper server can be reached.
unfoldable pub set_subs : User → SubsReq → Action Db (Unit {0})
unfolding write_url
set_subs user req = do
  lift (require_admin user)
  write_url req.whisper_url
  modify (apply_if req.enabled (set_toggle (t "subs_enabled")))

-- The devices are those that `list_devices` finds.
unfoldable pub set_transcode : List Text → User → Text → Action Db Text
set_transcode devices user device = do
  lift (require_admin user)
  guard (text_eq device (t "cpu") || listed devices device)
      (bad_request (t "unknown transcode device"))
  modify (set_setting (t "transcode_device") device)
  pure device
