-- ===== src/Users/Admins.antt =====
-- The handlers never leave the system without an admin, and only admins manage users.
use homeconnect.Db.{Db, User, user_by_identity_row}
use homeconnect.Prelude.{
  Bool-cases, Keeps, Option, Option-cases, arith, continue, err, forbidden, guard, inl, inr,
  is_empty, keeps_rules, leb, none, not, or_fail, other, some, ◌&&◌, ◌>>=◌, ◌≡◌,
}
use homeconnect.Prelude.Int.{ℤ}
use homeconnect.Prelude.Text.{Text, byte_len, t, trim}
use homeconnect.Users.{
  CreateUserReq, Passwords, UpdateUserReq, admin_set_password, change_my_password, create_user,
  create_user_row, delete_user, insert_or_exists, insert_user, or_else, store_password, update_user,
  user_by_identity,
}
use homeconnect.Users.Changes.{
  IsAdministered, create-IsAdministered, delete_none, delete_some, granted, role_admins,
  rows-IsAdministered, set_hash-IsAdministered, set_role-IsWellFormed, update_none, update_some,
}

pub data Request : Type 0 where
  create : Text → Text → ℤ → User → CreateUserReq → Request
  update : Text → User → UpdateUserReq → Request
  reset : Text → Text → User → Text → Request
  remove : Text → User → Request
  change : Text → User → Text → Text → Request

-- The database after the handler of a request.
pub serve : Passwords → Request → Db → Db
serve pw (create uuid salt now caller req) db = (create_user pw uuid salt now caller req db).1
serve pw (update identity caller req) db = (update_user identity caller req db).1
serve pw (reset salt identity caller password) db =
    (admin_set_password pw salt identity caller password db).1
serve pw (remove identity caller) db = (delete_user identity caller db).1
serve pw (change salt user current new) db = (change_my_password pw salt user current new db).1

insert_when_new :
    (pw : Passwords) (uuid salt : Text) (now : ℤ) (req : CreateUserReq)
    → Keeps IsAdministered (create_user_row pw uuid salt now req)
unfolding create_user_row ◌>>=◌
insert_when_new pw uuid salt now req = record { kept = λ db v. kept db v }
  where
    hashed :
        (db : Db)
        → IsAdministered db
        → (o : Option Text)
        → IsAdministered
            (continue (or_fail o other db).0 (or_fail o other db).1 (λ hash db.
              insert_or_exists
                (insert_user uuid req.username hash req.email req.is_admin now db)
                db)).1
    hashed db v none = v
    hashed db v (some hash) =
        create-IsAdministered uuid req.username hash req.email req.is_admin now db v

    kept :
        (db : Db) → IsAdministered db → IsAdministered (create_user_row pw uuid salt now req db).1
    kept db v =
        elim (Bool-cases (not (is_empty (trim req.username)) && leb 6 (byte_len req.password))) [
          | inl good ↦ rw (good, guard) (hashed db v (pw.hash salt req.password))
          | inr bad ↦ rw (bad, guard) v
        ]

store_password-IsAdministered :
    (pw : Passwords) (salt identity new : Text)
    → Keeps IsAdministered (store_password pw salt identity new)
unfolding store_password
store_password-IsAdministered pw salt identity new = search (keeps_rules, set_hash-IsAdministered)

lookup-Keeps : (identity : Text) → Keeps IsAdministered (user_by_identity identity)
unfolding user_by_identity or_fail
lookup-Keeps identity = record {
  kept = λ db v. elim (Option-cases (user_by_identity_row identity db)) [
    | inl e ↦ rw (e, or_fail) v
    | inr (u, e) ↦ rw (e, or_fail) v
  ];
}

update-IsAdministered :
    (identity : Text) (caller : User) (req : UpdateUserReq)
    → Keeps IsAdministered (update_user identity caller req)
update-IsAdministered identity caller req = record {
  kept = λ db v. elim (Option-cases (user_by_identity_row identity db)) [
    | inl e ↦ rw (update_none identity caller req db e) v
    | inr (u, e) ↦ found db v u e
  ];
}
  where
    found :
        (db : Db)
        → IsAdministered db
        → (u : User) → user_by_identity_row identity db ≡ some u
        → IsAdministered (update_user identity caller req db).1
    found db v u e = elim (update_some identity caller req db u e) [
      | inl same ↦ rw same v
      | inr (safe, set) ↦ rw set (record {
        rows = set_role-IsWellFormed identity (granted req u) (or_else req.email u.email) db v.rows;
        has_admin = role_admins identity (granted req u) (or_else req.email u.email) db u v e safe;
      })
    ]

delete-IsAdministered :
    (identity : Text) (caller : User) → Keeps IsAdministered (delete_user identity caller)
delete-IsAdministered identity caller = record {
  kept = λ db v. elim (Option-cases (user_by_identity_row identity db)) [
    | inl e ↦ rw (delete_none identity caller db e) v
    | inr (u, e) ↦ elim (delete_some identity caller db u e) [
      | inl same ↦ rw same v
      | inr (safe, gone) ↦ rw gone (rows-IsAdministered identity db u v e safe)
    ]
  ];
}

create_user-IsAdministered :
    (pw : Passwords) (uuid salt : Text) (now : ℤ) (caller : User) (req : CreateUserReq)
    → Keeps IsAdministered (create_user pw uuid salt now caller req)
unfolding create_user
create_user-IsAdministered pw uuid salt now caller req = search (keeps_rules, insert_when_new)

reset-IsAdministered :
    (pw : Passwords) (salt identity : Text) (caller : User) (password : Text)
    → Keeps IsAdministered (admin_set_password pw salt identity caller password)
unfolding admin_set_password
reset-IsAdministered pw salt identity caller password =
    search (keeps_rules, store_password-IsAdministered, lookup-Keeps)

change-IsAdministered :
    (pw : Passwords) (salt : Text) (user : User) (current new : Text)
    → Keeps IsAdministered (change_my_password pw salt user current new)
unfolding change_my_password
change-IsAdministered pw salt user current new = search (keeps_rules, store_password-IsAdministered)

-- Whatever the request, whoever calls and whatever the handler answers: from a database with distinct
-- identities and ids and at least one admin, the handler leaves such a database.
pub serve-IsAdministered :
    (pw : Passwords) (r : Request) (db : Db) → IsAdministered db → IsAdministered (serve pw r db)
unfolding serve
serve-IsAdministered pw (create uuid salt now caller req) db =
    (create_user-IsAdministered pw uuid salt now caller req).kept db
serve-IsAdministered pw (update identity caller req) db =
    (update-IsAdministered identity caller req).kept db
serve-IsAdministered pw (reset salt identity caller password) db =
    (reset-IsAdministered pw salt identity caller password).kept db
serve-IsAdministered pw (remove identity caller) db =
    (delete-IsAdministered identity caller).kept db
serve-IsAdministered pw (change salt user current new) db =
    (change-IsAdministered pw salt user current new).kept db

-- Only an admin's request passes: for a caller without the admin flag, creating, updating, resetting
-- and deleting a user answer Forbidden, and the database is unchanged.
pub needs_admin :
    (pw : Passwords) (uuid salt identity password : Text) (now : ℤ) (caller : User)
    (new : CreateUserReq) (req : UpdateUserReq) (db : Db)
    → caller.is_admin ≡ 0
    → (create_user pw uuid salt now caller new db ≡ (err (forbidden (t "admin required")), db))
      × (update_user identity caller req db ≡ (err (forbidden (t "admin required")), db))
      × (admin_set_password pw salt identity caller password db
          ≡ (err (forbidden (t "admin required")), db))
      × (delete_user identity caller db ≡ (err (forbidden (t "admin required")), db))
unfolding create_user update_user admin_set_password delete_user ◌>>=◌
needs_admin pw uuid salt identity password now caller new req db h =
    (ground arith, ground arith, ground arith, ground arith)
