-- ===== src/Access.antt =====
-- src/access.rs, `check_route_access` of src/serve.rs and `allow_route_view` of src/api/v1.rs: who may
-- see and manage a device's data. They only read the database.
pub mod Rules
use homeconnect.Db.{Db, Device, Route, User, device_by_dongle, is_shared, owned_by}
use homeconnect.Prelude.{
  AppResult, Bool, Option, err, false, find, forbidden, if◌then◌else◌, none, not, not_found, ok,
  some, true, unauthorized, ℕ, ◌==◌, ◌||◌,
}
use homeconnect.Prelude.Text.{Text, t, text_eq}

-- The principal of a request, from src/auth.rs.
pub record Claims : Type 0 where
  pub identity : Text
  pub nbf : Option ℕ
  pub iat : Option ℕ
  pub exp : ℕ

pub record Auth : Type 0 where
  pub claims : Claims
  pub user : Option User
  pub device : Option Device

unfoldable pub can_manage_loaded : Db → User → Device → Bool
can_manage_loaded db user device =
    if not (user.is_admin == 0) || owned_by device.owner_id user.id
    then true
    else is_shared user.id device.dongle_id db

unfoldable pub load_device : Db → Text → Option Device
load_device db dongle = device_by_dongle dongle db

unfoldable pub can_manage_device : Db → User → Text → AppResult Device
unfolding load_device
can_manage_device db user dongle = elim (load_device db dongle) [
  | none ↦ err (not_found (t "unknown device"))
  | some device ↦
      if can_manage_loaded db user device
      then ok device
      else err (forbidden (t "not authorized for device"))
]

can_view_as : Db → Option Device → Option User → Device → Bool
can_view_as db (some d) u device = text_eq d.dongle_id device.dongle_id
can_view_as db none (some u) device =
    if owned_by device.owner_id u.id then true else is_shared u.id device.dongle_id db
can_view_as db none none device = false

unfoldable pub can_view_device : Db → Auth → Device → Bool
unfolding can_view_as
can_view_device db auth device = can_view_as db auth.device auth.user device

unfoldable pub can_view_dongle : Db → Auth → Text → Bool
unfolding load_device
can_view_dongle db auth dongle = elim (load_device db dongle) [
  | none ↦ false
  | some d ↦ can_view_device db auth d
]

unfoldable pub can_view_route : Db → Auth → Text → Bool
unfolding can_view_dongle
can_view_route db auth dongle = can_view_dongle db auth dongle

-- SELECT is_public FROM routes WHERE fullname = ?, matched against `Some((1,))`
unfoldable pub is_public_route : Db → Text → Bool
is_public_route db fullname = elim (find (λ (r : Route). text_eq r.fullname fullname) db.routes) [
  | none ↦ false
  | some r ↦ r.is_public == 1
]

view_or_forbid : Db → Text → Option Auth → AppResult (Unit {0})
view_or_forbid db dongle none = err (unauthorized (t "login required"))
view_or_forbid db dongle (some auth) =
    if can_view_route db auth dongle
    then ok tt
    else err (forbidden (t "not authorized for this route"))

unfoldable pub check_route_access : Db → Text → Text → Option Auth → AppResult (Unit {0})
unfolding view_or_forbid
check_route_access db fullname dongle auth =
    if is_public_route db fullname then ok tt else view_or_forbid db dongle auth

-- auth.and_then(|a| a.user.as_ref())
user_of : Option Auth → Option User
user_of none = none
user_of (some a) = a.user

manage_or_forbid : Db → User → Option Device → AppResult (Unit {0})
manage_or_forbid db user none = err (not_found (t "unknown device"))
manage_or_forbid db user (some device) =
    if can_manage_loaded db user device
    then ok tt
    else err (forbidden (t "not authorized for device"))

login_then_manage : Db → Text → Option User → AppResult (Unit {0})
unfolding manage_or_forbid
login_then_manage db dongle none = err (unauthorized (t "login required"))
login_then_manage db dongle (some user) = manage_or_forbid db user (device_by_dongle dongle db)

unfoldable pub allow_route_view : Db → Text → Text → Option Auth → AppResult (Unit {0})
unfolding user_of login_then_manage
allow_route_view db fullname dongle auth =
    if is_public_route db fullname then ok tt else login_then_manage db dongle (user_of auth)
