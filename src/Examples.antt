-- ===== src/Examples.antt =====
-- The data of the tests: a small household, and each theorem applied to it.
pub mod Accounts
pub mod Queues
pub mod Files
pub mod Drives
pub mod Sweeps
pub mod Tokens
pub mod Logs
pub mod Browse
pub mod Pulls
pub mod Media
pub mod Subtitles
use homeconnect.Db.{Db, Device, Route, User}
use homeconnect.Prelude.{[], none, some, ◌∷◌}
use homeconnect.Prelude.Int.{pos}
use homeconnect.Prelude.Text.{text_eq}
use homeconnect.Users.{Passwords}

abbrev pub alice : User
alice = record {
  id = 1;
  identity = 101 ∷ [];
  username = 97 ∷ [];
  password_hash = 115 ∷ [];
  email = none;
  is_admin = 1;
  created_at = pos 5;
}

abbrev pub bob : User
bob = record {
  id = 2;
  identity = 102 ∷ [];
  username = 98 ∷ [];
  password_hash = 116 ∷ [];
  email = none;
  is_admin = 1;
  created_at = pos 6;
}

abbrev pub guest : User
guest = record {
  id = 3;
  identity = 103 ∷ [];
  username = 99 ∷ [];
  password_hash = 117 ∷ [];
  email = none;
  is_admin = 0;
  created_at = pos 7;
}

-- Owned by bob, seen online at an address.
abbrev pub comma : Device
comma = record {
  dongle_id = 100 ∷ [];
  serial = [];
  imei = [];
  imei2 = [];
  public_key = [];
  owner_id = some 2;
  online = 1;
  last_athena_ping = pos 0;
  alias = [];
  device_type = [];
  server_storage = 0;
  created_at = pos 0;
  last_addr = 49 ∷ [];
}

abbrev pub drive : Route
drive = record {
  fullname = 100 ∷ b'|' ∷ 116 ∷ [];
  device_dongle_id = 100 ∷ [];
  start_time_utc_millis = pos 10;
  created_at = pos 11;
  is_public = 0;
  sync_types = none;
}

abbrev pub household : Db
household = record {
  users = alice ∷ bob ∷ guest ∷ [];
  next_user_id = 4;
  devices = comma ∷ [];
  authorized_users = record { user_id = 3; device_dongle_id = 100 ∷ [] } ∷ [];
  routes = drive ∷ [];
  segments = [];
  settings = [];
  movies = [];
  subs = [];
  device_params = [];
}

-- Hashes that are the passwords themselves.
abbrev pub plain : Passwords
plain = record { hash = λ salt p. some p; verify = text_eq }
