-- ===== src/Users.antt =====
-- src/api/users.rs: login and the management of users, over the tables. A handler whose caller is
-- `AuthUser` takes the caller's row. Hashing, tokens and UUIDs are the libraries', so they are parameters.
pub mod Rows
pub mod Changes
pub mod Admins
pub mod Deletion
pub mod Races
pub mod Logins
use homeconnect.Db.{Db, Device, Share, User, owned_by, user_by_identity_row}
use homeconnect.Prelude.{
  Action, Bool, Option, any, bad_request, count, delete_where, err, false, find, forbidden, gets,
  guard, if◌then◌else◌, is_empty, leb, modify, none, not, not_found, ok, or_fail, other, pure, some,
  true, unauthorized, unwrap_or, update_where, ℕ, ◌&&◌, ◌+◌, ◌==◌, ◌>>=◌, ◌>>◌, ◌||◌, ◌∷◌,
}
use homeconnect.Prelude.Int.{ℤ}
use homeconnect.Prelude.Text.{Text, byte_len, t, text_eq, trim}
use homeconnect.Users.Rows.{admins}

-- src/auth.rs `hash_password` and `verify_password`, which call argon2; a salt is drawn for each hash.
pub record Passwords : Type 0 where
  pub hash : Text → Text → Option Text
  pub verify : Text → Text → Bool

pub record LoginResp : Type 0 where
  pub access_token : Text
  pub identity : Text
  pub username : Text
  pub is_admin : Bool

pub record CreateUserReq : Type 0 where
  pub username : Text
  pub password : Text
  pub email : Option Text
  pub is_admin : Bool

pub record UpdateUserReq : Type 0 where
  pub is_admin : Option Bool
  pub email : Option Text

-- b as i64
abbrev pub flag : Bool → ℕ
flag true = 1
flag false = 0

abbrev pub or_else {ℓ} : {A : Type ℓ} → Option A → Option A → Option A
or_else none b = b
or_else (some a) b = some a

-- SELECT * FROM users WHERE username = ?
unfoldable pub user_by_name : Text → Db → Option User
user_by_name username db = find (λ (u : User). text_eq u.username username) db.users

unfoldable pub require_admin : User → Action Db (Unit {0})
require_admin user = guard (not (user.is_admin == 0)) (forbidden (t "admin required"))

unfoldable pub user_by_identity : Text → Action Db User
user_by_identity identity db =
    or_fail (user_by_identity_row identity db) (not_found (t "unknown user")) db

unfoldable pub admin_count : Db → ℕ
admin_count db = count (λ (u : User). u.is_admin == 1) db.users

-- The token is `issue_hs512` of the configured secret, which may fail.
unfoldable pub login : Passwords → (Text → Option Text) → Text → Text → Action Db LoginResp
login pw issue_hs512 username password = do
  found ← gets (user_by_name username)
  user ← or_fail found (unauthorized (t "invalid credentials"))
  guard (pw.verify password user.password_hash) (unauthorized (t "invalid credentials"))
  token ← or_fail (issue_hs512 user.identity) other
  pure (record {
    access_token = token;
    identity = user.identity;
    username = user.username;
    is_admin = not (user.is_admin == 0);
  })

-- INSERT INTO users; `none` is the violation of UNIQUE(username) or UNIQUE(identity).
unfoldable pub insert_user : Text → Text → Text → Option Text → Bool → ℤ → Db → Option Db
insert_user identity username hash email is_admin now db =
    if any (λ (u : User). text_eq u.username username || text_eq u.identity identity) db.users
    then none
    else some (record db {
      next_user_id = db.next_user_id + 1;
      users =
          record {
            id = db.next_user_id;
            identity = identity;
            username = username;
            password_hash = hash;
            email = email;
            is_admin = flag is_admin;
            created_at = now;
          }
          ∷ db.users;
    })

-- The insert, or the handler's error for a violated constraint.
pub insert_or_exists : Option Db → Action Db (Unit {0})
insert_or_exists none db = (err (bad_request (t "username already exists")), db)
insert_or_exists (some db') db = (ok tt, db')

-- `uuid`, `salt` and `now` are what the libraries draw.
unfoldable pub create_user_row : Passwords → Text → Text → ℤ → CreateUserReq → Action Db (Unit {0})
unfolding insert_or_exists insert_user
create_user_row pw uuid salt now req = do
  guard (not (is_empty (trim req.username)) && leb 6 (byte_len req.password))
      (bad_request (t "username required, password >= 6 chars"))
  hash ← or_fail (pw.hash salt req.password) other
  inserted ← gets (insert_user uuid req.username hash req.email req.is_admin now)
  insert_or_exists inserted

unfoldable pub create_user :
    Passwords → Text → Text → ℤ → User → CreateUserReq → Action Db (Unit {0})
unfolding create_user_row
create_user pw uuid salt now caller req = do
  guard (not (caller.is_admin == 0)) (forbidden (t "admin required"))
  create_user_row pw uuid salt now req

-- UPDATE users SET password_hash = ? WHERE identity = ?
abbrev pub new_hash : Text → User → User
new_hash hash u = record u { password_hash = hash }

abbrev pub set_hash : Text → Text → Db → Db
set_hash identity hash db = record db {
  users = update_where (λ (u : User). text_eq u.identity identity) (new_hash hash) db.users;
}

unfoldable pub store_password : Passwords → Text → Text → Text → Action Db (Unit {0})
store_password pw salt identity new = do
  guard (leb 6 (byte_len new)) (bad_request (t "password must be >= 6 chars"))
  hash ← or_fail (pw.hash salt new) other
  modify (set_hash identity hash)

-- UPDATE users SET is_admin = ?, email = ? WHERE identity = ?
abbrev pub new_role : Bool → Option Text → User → User
new_role new_admin email u = record u { is_admin = flag new_admin; email = email }

abbrev pub set_role : Text → Bool → Option Text → Db → Db
set_role identity new_admin email db = record db {
  users =
      update_where (λ (u : User). text_eq u.identity identity) (new_role new_admin email) db.users;
}

-- What `update_user` reads and checks before its UPDATE: the new flag and address.
unfoldable pub update_check : Text → User → UpdateUserReq → Action Db (Bool × Option Text)
unfolding require_admin user_by_identity admin_count
update_check identity caller req = do
  require_admin caller
  target ← user_by_identity identity
  let new_admin = unwrap_or req.is_admin (not (target.is_admin == 0))
  admins ← gets admin_count
  guard (not (not (target.is_admin == 0) && (not new_admin && leb admins 1)))
      (bad_request (t "cannot remove the last admin"))
  pure (new_admin, or_else req.email target.email)

unfoldable pub update_user : Text → User → UpdateUserReq → Action Db Bool
unfolding update_check
update_user identity caller req = do
  checked ← update_check identity caller req
  modify (set_role identity checked.0 checked.1)
  pure checked.0

unfoldable pub admin_set_password : Passwords → Text → Text → User → Text → Action Db (Unit {0})
unfolding require_admin user_by_identity store_password
admin_set_password pw salt identity caller password = do
  require_admin caller
  user_by_identity identity
  store_password pw salt identity password

-- The transaction of `delete_user`: shares, owned devices, the row.
unfoldable pub delete_user_rows : ℕ → Db → Db
delete_user_rows id db = record db {
  authorized_users = delete_where (λ (a : Share). a.user_id == id) db.authorized_users;
  devices =
      update_where (λ (d : Device). owned_by d.owner_id id) (λ d. record d { owner_id = none })
        db.devices;
  users = delete_where (λ (u : User). u.id == id) db.users;
}

unfoldable pub delete_check : Text → User → Action Db User
unfolding require_admin user_by_identity admin_count
delete_check identity caller = do
  require_admin caller
  target ← user_by_identity identity
  guard (not (text_eq target.identity caller.identity))
      (bad_request (t "you can't delete your own account"))
  admins ← gets admin_count
  guard (not (not (target.is_admin == 0) && leb admins 1))
      (bad_request (t "cannot delete the last admin"))
  pure target

unfoldable pub delete_user : Text → User → Action Db (Unit {0})
unfolding delete_check delete_user_rows
delete_user identity caller = do
  target ← delete_check identity caller
  modify (delete_user_rows target.id)

unfoldable pub change_my_password : Passwords → Text → User → Text → Text → Action Db (Unit {0})
unfolding store_password
change_my_password pw salt user current new = do
  guard (pw.verify current user.password_hash) (unauthorized (t "current password is incorrect"))
  store_password pw salt user.identity new
