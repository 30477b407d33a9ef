-- ===== src/Users/Logins.antt =====
-- Login, and login after a change of password.
use homeconnect.Db.{Db, User}
use homeconnect.Prelude.{
  Option, arith, err, false, find, find-update_where, none, not, ok, refl, some, true, unauthorized,
  ◌==◌, ◌>>=◌, ◌≡◌,
}
use homeconnect.Prelude.Text.{Text, t, text_eq, text_eq_refl}
use homeconnect.Users.{
  LoginResp, Passwords, change_my_password, login, new_hash, set_hash, user_by_name,
}

-- A login succeeds exactly when a row has the name, its hash verifies the password and a token can be
-- issued; the answer then carries that row's identity, name and flag. Every other login is
-- Unauthorized with the one message for unknown names and wrong passwords, or the token's error, and
-- none changes the database.
pub login_lem :
    (pw : Passwords) (issue : Text → Option Text) (name password : Text) (db : Db)
    → (user_by_name name db ≡ none
        → login pw issue name password db ≡ (err (unauthorized (t "invalid credentials")), db))
      × ((u : User)
          → user_by_name name db ≡ some u
          → pw.verify password u.password_hash ≡ false
          → login pw issue name password db ≡ (err (unauthorized (t "invalid credentials")), db))
      × ((u : User) (token : Text)
          → user_by_name name db ≡ some u
          → pw.verify password u.password_hash ≡ true
          → issue u.identity ≡ some token
          → login pw issue name password db ≡ (
            ok (record {
              access_token = token;
              identity = u.identity;
              username = u.username;
              is_admin = not (u.is_admin == 0);
            }),
            db,
          ))
      × ((r : LoginResp)
          → (login pw issue name password db).0 ≡ ok r
          → (u : User) × (user_by_name name db ≡ some u)
            × (pw.verify password u.password_hash ≡ true))
unfolding login ◌>>=◌
login_lem pw issue name password db = (
  λ e. ground arith,
  λ u e v. ground arith,
  λ u token e v i. ground arith,
  λ r h. found (user_by_name name db) refl r h,
)
  where
    found :
        (o : Option User)
        → user_by_name name db ≡ o
        → (r : LoginResp) → (login pw issue name password db).0 ≡ ok r
        → (u : User) × (user_by_name name db ≡ some u) × (pw.verify password u.password_hash ≡ true)
    found none e r h = ground arith
    found (some u) e r h = (u, e, ground arith)

-- With a hasher whose hashes verify their own password: after a user has changed the password, and if
-- a token can be issued for them, the login under their name and the new password succeeds and answers
-- with their identity, name and flag.
pub login-change_my_password :
    (pw : Passwords) (issue : Text → Option Text)
    → ((salt p h : Text) → pw.hash salt p ≡ some h → pw.verify p h ≡ true)
    → (salt current new token : Text) (db : Db) (u : User) → user_by_name u.username db ≡ some u
    → (change_my_password pw salt u current new db).0 ≡ ok tt
    → issue u.identity ≡ some token
    → (login pw issue u.username new (change_my_password pw salt u current new db).1).0
      ≡ ok (record {
        access_token = token;
        identity = u.identity;
        username = u.username;
        is_admin = not (u.is_admin == 0);
      })
unfolding change_my_password login user_by_name ◌>>=◌
login-change_my_password pw issue sound salt current new token db u e h i =
    stored (pw.hash salt new) refl h
  where
    row :
        (hash : Text)
        → find (λ (v : User). text_eq v.username u.username) (set_hash u.identity hash db).users
          ≡ some (new_hash hash u)
    row hash = ground (
      arith,
      find-update_where (λ (v : User). text_eq v.username u.username)
          (λ (v : User). text_eq v.identity u.identity) (new_hash hash) db.users (λ v. refl),
      text_eq_refl u.identity,
    )

    stored :
        (o : Option Text)
        → pw.hash salt new ≡ o
        → (change_my_password pw salt u current new db).0 ≡ ok tt
        → (login pw issue u.username new (change_my_password pw salt u current new db).1).0
          ≡ ok (record {
            access_token = token;
            identity = u.identity;
            username = u.username;
            is_admin = not (u.is_admin == 0);
          })
    stored none e' h' = ground arith
    stored (some hash) e' h' = ground (arith, row hash, sound salt new hash e')
