-- ===== src/Admin/Sync.antt =====
-- What `set_sync` answers after it has written the fields that are given.
use homeconnect.Admin.{SyncSettings, SyncView}
use homeconnect.Db.{Db, get_setting}
use homeconnect.DevSync.Options.{
  clean_types, get_interval, get_sync_types, is_autoprune_enabled, is_enabled,
}
use homeconnect.Prelude.{List, Option, false, none, some, unwrap_or, ◌≡◌}
use homeconnect.Prelude.Text.{Text, text_eq}
use homeconnect.Settings.{Config}

-- A writer of one key.
abbrev pub Writes {ℓ} : {A : Type ℓ} → Text → (A → Db → Db) → Type ℓ
Writes {A} key f =
    (a : A) (db : Db) (j : Text) → text_eq key j ≡ false → get_setting j (f a db) ≡ get_setting j db

abbrev pub cleaned_or : Option (List Text) → List Text → List Text
cleaned_or none before = before
cleaned_or (some types) before = clean_types types

-- What the answer has to be: the fields of the request, the types cleaned, and the value before where it has none.
abbrev pub Answers : Config → Db → SyncSettings → SyncView → Type 0
Answers config db req v =
    (v.enabled ≡ unwrap_or req.enabled (is_enabled config db))
    × (v.interval_secs ≡ unwrap_or req.interval_secs (get_interval config db))
    × (v.types ≡ cleaned_or req.types (get_sync_types config db))
    × (v.autoprune ≡ unwrap_or req.autoprune (is_autoprune_enabled config db))
