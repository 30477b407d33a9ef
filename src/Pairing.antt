-- ===== src/Pairing.antt =====
-- src/api/v2.rs and `claim_device` of src/api/v1.rs: how a device is registered and gets an owner. The
-- checks of a device's tokens are the JWT library's, so their results are arguments.
pub mod Owners
pub mod Pilotpair
use homeconnect.Db.{Db, Device, device_by_dongle, insert_share}
use homeconnect.Prelude.{
  Action, AppResult, Bool, [], any, err, false, forbidden, if◌then◌else◌, is_none, none, not,
  not_found, ok, some, true, unauthorized, update_where, ℕ, ◌&&◌, ◌==◌, ◌∷◌,
}
use homeconnect.Prelude.Int.{pos, ℤ}
use homeconnect.Prelude.Text.{Text, t, text_eq}

-- The row that `pilotauth` writes: an existing row keeps its owner, alias and counters.
unfoldable pub register_device : Text → Text → Text → Text → Text → ℤ → Db → Db
register_device dongle serial imei imei2 public_key now db =
    if any (λ (d : Device). text_eq d.dongle_id dongle) db.devices
    then record db {
      devices =
          update_where (λ (d : Device). text_eq d.dongle_id dongle)
            (λ d. record d { serial = serial; imei = imei; imei2 = imei2; public_key = public_key })
            db.devices;
    }
    else record db {
      devices =
          record {
            dongle_id = dongle;
            serial = serial;
            imei = imei;
            imei2 = imei2;
            public_key = public_key;
            owner_id = none;
            online = 0;
            last_athena_ping = pos 0;
            alias = [];
            device_type = t "unknown";
            server_storage = 0;
            created_at = now;
            last_addr = [];
          }
          ∷ db.devices;
    }

-- `register` is the flag of the verified register token, or the error of its verification.
unfoldable pub pilotauth : AppResult Bool → Text → Text → Text → Text → Text → ℤ → Action Db Text
unfolding register_device
pilotauth register dongle serial imei imei2 public_key now db = elim register [
  | err e ↦ (err e, db)
  | ok flag_set ↦
      if not flag_set
      then (err (unauthorized (t "register claim missing")), db)
      else (ok dongle, register_device dongle serial imei imei2 public_key now db)
]

-- UPDATE devices SET owner_id = ? WHERE dongle_id = ?
abbrev pub set_owner : ℕ → Text → Db → Db
set_owner user_id dongle db = record db {
  devices =
      update_where (λ (d : Device). text_eq d.dongle_id dongle)
        (λ d. record d { owner_id = some user_id }) db.devices;
}

-- … AND owner_id IS NULL
abbrev pub set_first_owner : ℕ → Text → Db → Db
set_first_owner user_id dongle db = record db {
  devices =
      update_where (λ (d : Device). text_eq d.dongle_id dongle && is_none d.owner_id)
        (λ d. record d { owner_id = some user_id }) db.devices;
}

-- What `claim_device` checks: whether the caller owns the device already.
unfoldable pub claim_check : ℕ → Text → Db → AppResult Bool
claim_check user_id dongle db = elim (device_by_dongle dongle db) [
  | none ↦ err (not_found (t "unknown device"))
  | some d ↦ elim d.owner_id [
    | none ↦ ok false
    | some owner ↦ if owner == user_id then ok true else err (forbidden (t "device already paired"))
  ]
]

-- Its two writes.
unfoldable pub claim_writes : ℕ → Text → Db → Db
claim_writes user_id dongle db = insert_share user_id dongle (set_first_owner user_id dongle db)

unfoldable pub claim_device : ℕ → Text → Action Db Bool
unfolding claim_check claim_writes
claim_device user_id dongle db = elim (claim_check user_id dongle db) [
  | err e ↦ (err e, db)
  | ok owned ↦ if owned then (ok true, db) else (ok false, claim_writes user_id dongle db)
]
