-- ===== src/Settings.antt =====
-- The settings table behind the toggles of src/devsync.rs, src/movie.rs, src/subs.rs and
-- src/denoise.rs: the keys, the defaults of src/config.rs, and the two forms that repeat there.
pub mod Laws
use homeconnect.Db.{Db, get_setting, set_setting}
use homeconnect.Prelude.{Bool, if◌then◌else◌, none, some, unwrap_or, ℕ, ◌||◌}
use homeconnect.Prelude.Decimal.{parse_u64, show_ℕ}
use homeconnect.Prelude.Int.{ℤ}
use homeconnect.Prelude.Text.{Text, t, text_eq, to_ascii_lowercase}

-- The fields of `Config` that seed the settings.
pub record Config : Type 0 where
  pub public_url : Text
  pub data_dir : Text
  pub sync_enabled : Bool
  pub sync_interval_secs : ℕ
  pub sync_fullres : Bool
  pub device_autoprune : Bool
  pub movie_enabled : Bool
  pub movie_interval_secs : ℕ
  pub subs_enabled : Bool
  pub whisper_url : Text
  pub retain_days : ℤ
  pub retain_max_drives : ℤ

-- s == "1" || s.eq_ignore_ascii_case("true")
unfoldable pub truthy : Text → Bool
truthy s = text_eq s (t "1") || text_eq (to_ascii_lowercase s) (t "true")

unfoldable pub get_toggle : Text → Bool → Db → Bool
unfolding truthy
get_toggle key seed db = elim (get_setting key db) [ none ↦ seed | some s ↦ truthy s ]

unfoldable pub set_toggle : Text → Bool → Db → Db
set_toggle key on db = set_setting key (if on then t "1" else t "0") db

unfoldable pub get_secs : Text → ℕ → Db → ℕ
get_secs key seed db = elim (get_setting key db) [
  | none ↦ seed
  | some s ↦ unwrap_or (parse_u64 s) seed
]

unfoldable pub set_secs : Text → ℕ → Db → Db
set_secs key secs db = set_setting key (show_ℕ secs) db
