-- ===== src/Db.antt =====
-- src/models.rs and the tables of migrations/*.sql: the rows that the modelled statements read or
-- write, and the keyed statements. A statement is taken to succeed, unless a constraint that the
-- code handles forbids it. INTEGER columns that hold flags, counters or row ids are natural numbers.
pub mod Keys
use homeconnect.Prelude.{
  Bool, List, Option, [], any, false, find, if◌then◌else◌, none, some, ℕ, ◌&&◌, ◌==◌, ◌∷◌,
}
use homeconnect.Prelude.Containers.{map_get, map_insert}
use homeconnect.Prelude.Int.{ℤ}
use homeconnect.Prelude.Text.{Text, text_eq}

pub record User : Type 0 where
  pub id : ℕ
  pub identity : Text
  pub username : Text
  pub password_hash : Text
  pub email : Option Text
  pub is_admin : ℕ
  pub created_at : ℤ

pub record Device : Type 0 where
  pub dongle_id : Text
  pub serial : Text
  pub imei : Text
  pub imei2 : Text
  pub public_key : Text
  pub owner_id : Option ℕ
  pub online : ℕ
  pub last_athena_ping : ℤ
  pub alias : Text
  pub device_type : Text
  pub server_storage : ℕ
  pub created_at : ℤ
  pub last_addr : Text

-- A row of authorized_users.
pub record Share : Type 0 where
  pub user_id : ℕ
  pub device_dongle_id : Text

-- A row of routes, of the columns that access and retention read.
pub record Route : Type 0 where
  pub fullname : Text
  pub device_dongle_id : Text
  pub start_time_utc_millis : ℤ
  pub created_at : ℤ
  pub is_public : ℕ
  pub sync_types : Option Text

-- A row of segments.
pub record Segment : Type 0 where
  pub canonical_name : Text
  pub canonical_route_name : Text
  pub number : ℤ
  pub qcam_url : Text
  pub fcam_url : Text
  pub dcam_url : Text
  pub ecam_url : Text
  pub qlog_url : Text
  pub rlog_url : Text

-- A row of movies.
pub record Movie : Type 0 where
  pub fullname : Text
  pub cam : Text
  pub seg_count : ℕ
  pub bytes : ℕ
  pub disabled : ℕ

-- A row of subs.
pub record Sub : Type 0 where
  pub fullname : Text
  pub seg_count : ℕ
  pub cues : ℕ
  pub bytes : ℕ
  pub disabled : ℕ

-- A row of device_params.
pub record Param : Type 0 where
  pub dongle_id : Text
  pub key : Text
  pub value : Text
  pub pending : ℕ
  pub updated_at : ℤ

-- `next_user_id` is the AUTOINCREMENT counter of users.
pub record Db : Type 0 where
  pub users : List User
  pub next_user_id : ℕ
  pub devices : List Device
  pub authorized_users : List Share
  pub routes : List Route
  pub segments : List Segment
  pub settings : List (Text × Text)
  pub movies : List Movie
  pub subs : List Sub
  pub device_params : List Param

abbrev pub empty : Db
empty = record {
  users = [];
  next_user_id = 1;
  devices = [];
  authorized_users = [];
  routes = [];
  segments = [];
  settings = [];
  movies = [];
  subs = [];
  device_params = [];
}

-- i64 equality on row ids that may be NULL, as in `owner_id == Some(id)`.
abbrev pub owned_by : Option ℕ → ℕ → Bool
owned_by none id = false
owned_by (some o) id = o == id

-- SELECT * FROM devices WHERE dongle_id = ?
unfoldable pub device_by_dongle : Text → Db → Option Device
device_by_dongle dongle db = find (λ (d : Device). text_eq d.dongle_id dongle) db.devices

-- SELECT * FROM users WHERE identity = ?
unfoldable pub user_by_identity_row : Text → Db → Option User
user_by_identity_row identity db = find (λ (u : User). text_eq u.identity identity) db.users

-- SELECT 1 FROM authorized_users WHERE user_id = ? AND device_dongle_id = ?
unfoldable pub is_shared : ℕ → Text → Db → Bool
is_shared user_id dongle db =
    any (λ (a : Share). a.user_id == user_id && text_eq a.device_dongle_id dongle)
      db.authorized_users

-- INSERT OR IGNORE INTO authorized_users
unfoldable pub insert_share : ℕ → Text → Db → Db
unfolding is_shared
insert_share user_id dongle db = if is_shared user_id dongle db then db else record db {
  authorized_users = record { user_id = user_id; device_dongle_id = dongle } ∷ db.authorized_users;
}

-- SELECT value FROM settings WHERE key = ?
unfoldable pub get_setting : Text → Db → Option Text
get_setting key db = map_get key db.settings

-- INSERT INTO settings … ON CONFLICT(key) DO UPDATE SET value = excluded.value
unfoldable pub set_setting : Text → Text → Db → Db
set_setting key value db = record db { settings = map_insert key value db.settings }
