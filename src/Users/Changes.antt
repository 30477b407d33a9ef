-- ===== src/Users/Changes.antt =====
-- What each change of the users' rows keeps, and the two ways in which an update or a deletion can end.
-- The database keeps its keys distinct and has an admin.
use homeconnect.Db.{Db, User, user_by_identity_row}
use homeconnect.Prelude.{
  All-find, Bool, Bool-cases, Option, any, arith, inl, inr, none, not, refl, some, true, unwrap_or,
  ◌<◌, ◌==◌, ◌>>=◌, ◌||◌, ◌≡◌, ◌≤◌, ◌⊎◌,
}
use homeconnect.Prelude.Int.{ℤ}
use homeconnect.Prelude.Text.{Text, text_eq}
use homeconnect.SyncQueue.{taken}
use homeconnect.Users.{
  UpdateUserReq, admin_count, delete_user, delete_user_rows, insert_or_exists, insert_user,
  new_hash, new_role, or_else, set_hash, set_role, update_user,
}
use homeconnect.Users.Rows.{
  All-changed, All-without_id, IsWellFormed, admins, admins-changed, admins-changed_same,
  admins-without_id, any-identity, changed-DistinctIdentities, changed-DistinctIds, fresh-any,
  fresh-suc, without_id-DistinctIdentities, without_id-DistinctIds,
}

pub record IsAdministered (db : Db) : Type 0 where
  pub rows : IsWellFormed db
  pub has_admin : 1 ≤ admin_count db

pub set_role-IsWellFormed :
    (identity : Text) (b : Bool) (email : Option Text) (db : Db)
    → IsWellFormed db
    → IsWellFormed (set_role identity b email db)
set_role-IsWellFormed identity b email db v =
    let f : User → User = new_role b email in
    record {
      identities = changed-DistinctIdentities identity f (λ u. refl) db.users v.identities;
      ids = changed-DistinctIds identity f (λ u. refl) db.users v.ids;
      fresh_id =
          All-changed identity f (λ (u : User). u.id < db.next_user_id) (λ u h. h) db.users
            v.fresh_id;
      flags =
          All-changed identity f (λ (u : User). u.is_admin ≤ 1) (λ u h. ground arith) db.users
            v.flags;
    }

pub set_hash-IsAdministered :
    (identity hash : Text) (db : Db)
    → IsAdministered db
    → IsAdministered (set_hash identity hash db)
unfolding admin_count
set_hash-IsAdministered identity hash db v =
    let f : User → User = new_hash hash in
    let w : IsWellFormed db = v.rows in
    record {
      rows = record {
        identities = changed-DistinctIdentities identity f (λ u. refl) db.users w.identities;
        ids = changed-DistinctIds identity f (λ u. refl) db.users w.ids;
        fresh_id =
            All-changed identity f (λ (u : User). u.id < db.next_user_id) (λ u h. h) db.users
              w.fresh_id;
        flags = All-changed identity f (λ (u : User). u.is_admin ≤ 1) (λ u h. h) db.users w.flags;
      };
      has_admin = rw (admins-changed_same identity f db.users (λ u. refl)) v.has_admin;
    }

pub create-IsAdministered :
    (uuid name hash : Text) (email : Option Text) (b : Bool) (now : ℤ) (db : Db)
    → IsAdministered db
    → IsAdministered (insert_or_exists (insert_user uuid name hash email b now db) db).1
unfolding insert_or_exists insert_user admin_count
create-IsAdministered uuid name hash email b now db v =
    elim (Bool-cases
      (any (λ (u : User). text_eq u.username name || text_eq u.identity uuid) db.users)) [
        | inl taken ↦ rw (taken, insert_or_exists) v
        | inr free ↦
            rw (free, insert_or_exists)
              (record {
                rows = record {
                  identities = (any-identity uuid name db.users free, v.rows.identities);
                  ids = (fresh-any db.next_user_id db.users v.rows.fresh_id, v.rows.ids);
                  fresh_id = (omega arith, fresh-suc db.next_user_id db.users v.rows.fresh_id);
                  flags = (ground arith, v.rows.flags);
                };
                has_admin = let h : 1 ≤ admin_count db = v.has_admin in omega arith;
              })
      ]

abbrev pub granted : UpdateUserReq → User → Bool
granted req u = unwrap_or req.is_admin (not (u.is_admin == 0))

pub update_none :
    (identity : Text) (caller : User) (req : UpdateUserReq) (db : Db)
    → user_by_identity_row identity db ≡ none
    → (update_user identity caller req db).1 ≡ db
unfolding update_user ◌>>=◌
update_none identity caller req db e = ground arith

pub update_some :
    (identity : Text) (caller : User) (req : UpdateUserReq) (db : Db) (u : User)
    → user_by_identity_row identity db ≡ some u
    → ((update_user identity caller req db).1 ≡ db)
      ⊎ (((u.is_admin ≡ 0) ⊎ ((granted req u ≡ true) ⊎ (2 ≤ admin_count db)))
          × ((update_user identity caller req db).1
              ≡ set_role identity (granted req u) (or_else req.email u.email) db))
unfolding update_user ◌>>=◌
update_some identity caller req db u e = ground arith

pub role_admins :
    (identity : Text) (b : Bool) (email : Option Text) (db : Db) (u : User)
    → IsAdministered db
    → user_by_identity_row identity db ≡ some u
    → (u.is_admin ≡ 0) ⊎ ((b ≡ true) ⊎ (2 ≤ admin_count db))
    → 1 ≤ admin_count (set_role identity b email db)
unfolding admin_count user_by_identity_row
role_admins identity b email db u v e safe =
    let h : 1 ≤ admins db.users = v.has_admin in
    ground (
      arith,
      h,
      admins-changed identity (new_role b email) db.users u v.rows.identities e,
      All-find (λ (w : User). w.is_admin ≤ 1) (λ (w : User). text_eq w.identity identity) db.users u
          v.rows.flags e,
    )

pub delete_none :
    (identity : Text) (caller : User) (db : Db)
    → user_by_identity_row identity db ≡ none
    → (delete_user identity caller db).1 ≡ db
unfolding delete_user ◌>>=◌
delete_none identity caller db e = ground arith

pub delete_some :
    (identity : Text) (caller : User) (db : Db) (u : User)
    → user_by_identity_row identity db ≡ some u
    → ((delete_user identity caller db).1 ≡ db)
      ⊎ (((u.is_admin ≡ 0) ⊎ (2 ≤ admin_count db))
          × ((delete_user identity caller db).1 ≡ delete_user_rows u.id db))
unfolding delete_user ◌>>=◌
delete_some identity caller db u e = ground arith

pub rows-IsAdministered :
    (identity : Text) (db : Db) (u : User)
    → IsAdministered db
    → user_by_identity_row identity db ≡ some u
    → (u.is_admin ≡ 0) ⊎ (2 ≤ admin_count db)
    → IsAdministered (delete_user_rows u.id db)
unfolding delete_user_rows admin_count user_by_identity_row
rows-IsAdministered identity db u v e safe = record {
  rows = record {
    identities = without_id-DistinctIdentities u.id db.users v.rows.identities;
    ids = without_id-DistinctIds u.id db.users v.rows.ids;
    fresh_id = All-without_id (λ (w : User). w.id < db.next_user_id) u.id db.users v.rows.fresh_id;
    flags = All-without_id (λ (w : User). w.is_admin ≤ 1) u.id db.users v.rows.flags;
  };
  has_admin =
      let h : 1 ≤ admins db.users = v.has_admin in
      ground (arith, h, admins-without_id db.users identity u v.rows.ids e);
}
