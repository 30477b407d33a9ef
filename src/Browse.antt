-- ===== src/Browse.antt =====
-- src/api/v1.rs: the pages on devices and drives. A JSON answer is a record of what it says.
pub mod UploadUrls
pub mod Paging
pub mod Gaps
pub mod Drives
pub mod Playlist
pub mod Actions
pub mod Sharing
pub mod Requests
pub mod Totals
pub mod Paths
use homeconnect.Access.{Auth, Claims}
use homeconnect.Db.{Db, Device, User, device_by_dongle, is_shared, owned_by}
use homeconnect.Prelude.{
  AppResult, Bool, List, Option, [], any, err, false, forbidden, if◌then◌else◌, is_none, none,
  not_found, ok, other, select, some, suc, true, ℕ, ◌%◌, ◌&&◌, ◌-◌, ◌==◌, ◌||◌,
}
use homeconnect.Prelude.Decimal.{u64_mod}
use homeconnect.Prelude.Int.{negsuc, pos, ℤ, ◌+ℤ◌, ◌-ℤ◌}
use homeconnect.Prelude.Text.{Text, t, text_eq}

-- x as usize
as_usize : ℤ → ℕ
as_usize (pos n) = n % u64_mod
as_usize (negsuc n) = (u64_mod - (suc n % u64_mod)) % u64_mod

-- The encoder of the JWT library: HS512 with a base64 secret.
pub record Encoder : Type 0 where
  pub from_base64_secret : Text → Option Text
  pub encode : Text → Claims → Option Text

module _ (jwt : Encoder) (secret_b64 : Text) (now : ℤ) where
  unfoldable pub claims_for : Text → ℤ → Claims
  unfolding as_usize
  claims_for identity ttl_secs = record {
    identity = identity;
    nbf = some (as_usize (now -ℤ pos 5));
    iat = some (as_usize now);
    exp = as_usize (now +ℤ ttl_secs);
  }

  -- issue_hs512_ttl of src/auth.rs; `now` is in seconds.
  unfoldable pub issue_hs512_ttl : Text → ℤ → AppResult Text
  unfolding claims_for
  issue_hs512_ttl identity ttl_secs = elim (jwt.from_base64_secret secret_b64) [
    | none ↦ err other
    | some key ↦ elim (jwt.encode key (claims_for identity ttl_secs)) [
      | none ↦ err other
      | some token ↦ ok token
    ]
  ]

  -- A token for a caller that is logged in, and none for anyone else.
  unfoldable pub sig_for : Option Auth → AppResult Text
  unfolding issue_hs512_ttl
  sig_for none = ok []
  sig_for (some auth) = elim auth.user [
    | none ↦ ok []
    | some u ↦ issue_hs512_ttl u.identity (pos 86400)
  ]

authorized_as : Db → Option Device → Option User → Device → Bool
authorized_as db (some d) u device = text_eq d.dongle_id device.dongle_id
authorized_as db none (some u) device =
    if owned_by device.owner_id u.id then true else is_shared u.id device.dongle_id db
authorized_as db none none device = false

unfoldable pub authorize_view : Db → Auth → Device → Bool
unfolding authorized_as
authorize_view db auth device = authorized_as db auth.device auth.user device

-- The part of device_info, device_location and device_stats before the answer is printed.
unfoldable pub visible_device : Db → Auth → Text → AppResult Device
unfolding authorize_view
visible_device db auth dongle = elim (device_by_dongle dongle db) [
  | none ↦ err (not_found (t "unknown device"))
  | some device ↦
      if authorize_view db auth device
      then ok device
      else err (forbidden (t "not authorized for device"))
]

-- GET /v1/me/devices
unfoldable pub my_devices : Db → User → List Device
my_devices db user =
    select (λ (d : Device). owned_by d.owner_id user.id || is_shared user.id d.dongle_id db)
      db.devices

-- GET /v1/me/unpaired_devices
unfoldable pub unpaired_devices : Db → List Device
unpaired_devices db = select (λ (d : Device). is_none d.owner_id) db.devices

-- The devices of the queries of my_paths and my_stats: device_dongle_id IN (…)
unfoldable pub sees_device : Db → User → Text → Bool
sees_device db user dongle =
    any
      (λ (d : Device).
        text_eq d.dongle_id dongle && (owned_by d.owner_id user.id || user.is_admin == 1))
      db.devices
    || is_shared user.id dongle db
