-- ===== src/DeviceParams.antt =====
-- src/device_params.rs: the cache of a device's settings, the edits that wait for the device, and which
-- writes are allowed. What the device answers to a write or a read over SSH is an argument.
pub mod Specs
pub mod Edits
pub mod Writes
use homeconnect.Db.{Db, Param}
use homeconnect.DeviceParams.Specs.{Spec, bool_kind, enum_kind, info_kind, int_kind, specs}
use homeconnect.Prelude.{
  Bool, List, Option, [], any, false, find, if◌then◌else◌, none, not, select, some, update_where, ℕ,
  ◌&&◌, ◌+◌, ◌==◌, ◌||◌, ◌∷◌,
}
use homeconnect.Prelude.Decimal.{parse_i64}
use homeconnect.Prelude.Int.{leb_ℤ, ℤ}
use homeconnect.Prelude.Text.{Text, t, text_eq}

unfoldable pub find_spec : Text → Option Spec
find_spec key = find (λ (s : Spec). text_eq s.key key) specs

unfoldable pub in_bounds : ℤ → ℤ → Option ℤ → Bool
in_bounds low high none = false
in_bounds low high (some v) = leb_ℤ low v && leb_ℤ v high

unfoldable pub fits : Spec → Text → Bool
unfolding in_bounds
fits s value = elim s.kind [
  | bool_kind ↦ text_eq value (t "0") || text_eq value (t "1")
  | int_kind ↦ in_bounds s.low s.high (parse_i64 value)
  | enum_kind ↦ any (λ v. text_eq v value) s.options
  | info_kind ↦ false
]

unfoldable pub is_writable : Text → Text → Bool
unfolding find_spec fits
is_writable key value = elim (find_spec key) [ none ↦ false | some s ↦ fits s value ]

-- The key of a row of device_params.
abbrev pub is_param : Text → Text → Param → Bool
is_param dongle key p = text_eq p.dongle_id dongle && text_eq p.key key

-- INSERT … ON CONFLICT(dongle_id, key) DO UPDATE
unfoldable pub upsert_param : Param → (Param → Param) → List Param → List Param
upsert_param new f [] = new ∷ []
upsert_param new f (p ∷ ps) =
    let rest = upsert_param new f ps in
    if is_param new.dongle_id new.key p then f p ∷ ps else p ∷ rest

unfoldable pub cache_set : ℤ → Text → Text → Text → Db → Db
unfolding upsert_param
cache_set now dongle key value db = record db {
  device_params =
      upsert_param
        (record { dongle_id = dongle; key = key; value = value; pending = 1; updated_at = now })
        (λ p. record p { value = value; pending = 1; updated_at = now }) db.device_params;
}

unfoldable pub clear_pending : Text → Text → Db → Db
clear_pending dongle key db = record db {
  device_params =
      update_where (is_param dongle key) (λ p. record p { pending = 0 }) db.device_params;
}

-- SELECT key, value FROM device_params WHERE dongle_id = ? AND pending = 1
unfoldable pub pending_edits : Text → Db → List Param
pending_edits dongle db =
    select (λ (p : Param). text_eq p.dongle_id dongle && p.pending == 1) db.device_params

-- One round of the loop of `flush`; `written` is whether the device took the value.
unfoldable pub flush_one : (Text → Text → Bool) → Text → Text → Text → ℕ × Db → ℕ × Db
unfolding is_writable clear_pending
flush_one written dongle key value (n, db) =
    if not (is_writable key value)
    then (n, clear_pending dongle key db)
    else if written key value
    then (n + 1, clear_pending dongle key db)
    else (n, db)

unfoldable pub flush_all : (Text → Text → Bool) → Text → List Param → ℕ × Db → ℕ × Db
unfolding flush_one
flush_all written dongle [] s = s
flush_all written dongle (p ∷ ps) s =
    flush_all written dongle ps (flush_one written dongle p.key p.value s)

unfoldable pub flush : (Text → Text → Bool) → Text → Db → ℕ × Db
unfolding flush_all pending_edits
flush written dongle db = flush_all written dongle (pending_edits dongle db) (0, db)

-- One statement of `refresh`.
unfoldable pub refresh_one : ℤ → Text → Text → Text → Db → Db
unfolding upsert_param
refresh_one now dongle key value db = record db {
  device_params =
      upsert_param
        (record { dongle_id = dongle; key = key; value = value; pending = 0; updated_at = now })
        (λ p. if p.pending == 0 then record p { value = value; updated_at = now } else p)
        db.device_params;
}

unfoldable pub refresh : ℤ → Text → List (Text × Text) → Db → Db
unfolding refresh_one
refresh now dongle [] db = db
refresh now dongle ((k, v) ∷ actual) db = refresh now dongle actual (refresh_one now dongle k v db)
