-- ===== src/Access/Rules.antt =====
-- The access rules, stated on the tables.
use homeconnect.Access.{
  Auth, allow_route_view, can_manage_device, can_manage_loaded, can_view_device, can_view_route,
  check_route_access, is_public_route, load_device,
}
use homeconnect.Db.{Db, Device, User, device_by_dongle, is_shared}
use homeconnect.Prelude.{
  Bool-cases, arith, err, false, forbidden, inl, inr, none, not_found, ok, some, true, ℕ, ◌↔◌, ◌≡◌,
  ◌≢◌, ◌⊎◌,
}
use homeconnect.Prelude.Text.{Text, t, text_eq_iff}

-- The rows that name the user: the owner column, or a share.
abbrev pub IsLinked : Db → ℕ → Device → Type 0
IsLinked db id d = (d.owner_id ≡ some id) ⊎ (is_shared id d.dongle_id db ≡ true)

-- `can_manage_device` returns a device exactly when the device is known and the user is an admin, its
-- owner or a user that it is shared with; it answers NotFound for an unknown device.
pub can_manage_device_lem :
    (db : Db) (u : User) (dongle : Text)
    → ((d : Device)
        → can_manage_device db u dongle ≡ ok d
        → (device_by_dongle dongle db ≡ some d) × ((u.is_admin ≢ 0) ⊎ IsLinked db u.id d))
      × ((d : Device)
          → device_by_dongle dongle db ≡ some d
          → (u.is_admin ≢ 0) ⊎ IsLinked db u.id d
          → can_manage_device db u dongle ≡ ok d)
      × (device_by_dongle dongle db ≡ none
          → can_manage_device db u dongle ≡ err (not_found (t "unknown device")))
unfolding can_manage_device can_manage_loaded load_device
can_manage_device_lem db u dongle = (λ d h. ground arith, λ d e h. ground arith, λ e. ground arith)

-- A device token sees its own device's data and no other device's; a user without the admin flag or
-- with it sees a device's data exactly when they own it or it is shared with them.
pub can_view_device_lem :
    (db : Db) (a : Auth) (d : Device)
    → ((me : Device)
        → a.device ≡ some me
        → (can_view_device db a d ≡ true) ↔ (me.dongle_id ≡ d.dongle_id))
      × ((u : User)
          → a.device ≡ none
          → a.user ≡ some u
          → (can_view_device db a d ≡ true) ↔ IsLinked db u.id d)
unfolding can_view_device
can_view_device_lem db a d = (
  λ me e. (
    λ h. (text_eq_iff me.dongle_id d.dongle_id).0 (ground arith),
    λ h. ground (arith, (text_eq_iff me.dongle_id d.dongle_id).1 h),
  ),
  λ u e e'. (λ h. ground arith, λ h. ground arith),
)

-- The admin flag opens a route's pages and not its media: for an admin who neither owns the device
-- nor shares it, and a route that is not public, `allow_route_view` (route info, playlists, movie
-- list) succeeds where `check_route_access` (segments, transcodes, movie files) answers Forbidden.
pub admin_media_gap :
    (db : Db) (a : Auth) (u : User) (d : Device) (fullname dongle : Text)
    → is_public_route db fullname ≡ false
    → a.device ≡ none
    → a.user ≡ some u
    → u.is_admin ≢ 0
    → device_by_dongle dongle db ≡ some d
    → ¬ IsLinked db u.id d
    → (allow_route_view db fullname dongle (some a) ≡ ok tt)
      × (check_route_access db fullname dongle (some a)
          ≡ err (forbidden (t "not authorized for this route")))
unfolding allow_route_view check_route_access can_manage_loaded can_view_route can_view_device
admin_media_gap db a u d fullname dongle p q r s e n = (
  ground arith,
  elim (Bool-cases (can_view_device db a d)) [
    | inl b ↦ absurd (n (((can_view_device_lem db a d).1 u q r).0 b))
    | inr b ↦ ground arith
  ],
)
