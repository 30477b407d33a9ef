-- ===== src/Users/Deletion.antt =====
-- What a successful `delete_user` does to the tables.
use homeconnect.Db.{
  Db, Device, Share, User, device_by_dongle, is_shared, owned_by, user_by_identity_row,
}
use homeconnect.Prelude.{
  List, [], any, any-delete_where_self, any-update_where_self, arith, delete_where, false, find,
  find-update_where, if◌then◌else◌, map_option, none, refl, some, ℕ, ◌&&◌, ◌==◌, ◌∷◌, ◌≡◌, ◌≢◌,
}
use homeconnect.Prelude.Text.{Text, text_eq, text_eq_iff}
use homeconnect.Users.{delete_user_rows}
use homeconnect.Users.Rows.{DistinctIdentities}

-- The device row with its owner cleared, if the owner is `id`.
abbrev pub unclaimed : ℕ → Device → Device
unclaimed id d = if owned_by d.owner_id id then record d { owner_id = none } else d

other_kept :
    (id : ℕ)
    → (identity : Text) (us : List User) (u : User) → u.id ≢ id
    → find (λ (v : User). text_eq v.identity identity) us ≡ some u
    → find (λ (v : User). text_eq v.identity identity) (delete_where (λ (v : User). v.id == id) us)
      ≡ some u
other_kept id identity [] u n e = ground arith
other_kept id identity (v ∷ us) u n e = ground (arith, other_kept id identity us u n)

none_after :
    (id : ℕ)
    → (identity : Text) (us : List User)
    → any (λ (v : User). text_eq v.identity identity) us ≡ false
    → find (λ (v : User). text_eq v.identity identity) (delete_where (λ (v : User). v.id == id) us)
      ≡ none
none_after id identity [] h = refl
none_after id identity (v ∷ us) h = ground (arith, none_after id identity us)

row_gone :
    (id : ℕ)
    → (identity : Text) (us : List User) (u : User) → DistinctIdentities us
    → u.id ≡ id
    → find (λ (v : User). text_eq v.identity identity) us ≡ some u
    → find (λ (v : User). text_eq v.identity identity) (delete_where (λ (v : User). v.id == id) us)
      ≡ none
row_gone id identity [] u d s e = refl
row_gone id identity (v ∷ us) u d s e = ground (
  arith,
  row_gone id identity us u d.1 s,
  none_after id identity us,
  text_eq_iff v.identity identity,
  d.0,
)

share_kept :
    (id : ℕ)
    → (j : ℕ) (dongle : Text) → j ≢ id
    → (shares : List Share)
    → any
        (λ (a : Share). a.user_id == j && text_eq a.device_dongle_id dongle)
        (delete_where (λ (a : Share). a.user_id == id) shares)
      ≡ any (λ (a : Share). a.user_id == j && text_eq a.device_dongle_id dongle) shares
share_kept id j dongle n [] = refl
share_kept id j dongle n (a ∷ shares) = ground (arith, share_kept id j dongle n shares)

-- Deleting a user leaves no share of theirs and no device that they own, clears the owner of exactly
-- those devices, and leaves every user with another id, and each share of another user.
pub delete_user_rows_lem :
    (id : ℕ) (db : Db)
    → (any (λ (a : Share). a.user_id == id) (delete_user_rows id db).authorized_users ≡ false)
      × (any (λ (d : Device). owned_by d.owner_id id) (delete_user_rows id db).devices ≡ false)
      × ((dongle : Text)
          → device_by_dongle dongle (delete_user_rows id db)
            ≡ map_option (unclaimed id) (device_by_dongle dongle db))
      × ((identity : Text) (u : User)
          → user_by_identity_row identity db ≡ some u
          → DistinctIdentities db.users
          → (u.id ≢ id → user_by_identity_row identity (delete_user_rows id db) ≡ some u)
            × (u.id ≡ id → user_by_identity_row identity (delete_user_rows id db) ≡ none))
      × ((j : ℕ) (dongle : Text)
          → j ≢ id
          → is_shared j dongle (delete_user_rows id db) ≡ is_shared j dongle db)
unfolding delete_user_rows device_by_dongle user_by_identity_row is_shared
delete_user_rows_lem id db = (
  any-delete_where_self (λ (a : Share). a.user_id == id) db.authorized_users,
  any-update_where_self (λ (d : Device). owned_by d.owner_id id) (λ d. record d { owner_id = none })
      db.devices (λ d. refl),
  λ dongle.
      find-update_where (λ (d : Device). text_eq d.dongle_id dongle)
        (λ (d : Device). owned_by d.owner_id id) (λ d. record d { owner_id = none }) db.devices
        (λ d. refl),
  λ identity u e d.
      (λ n. other_kept id identity db.users u n e, λ s. row_gone id identity db.users u d s e),
  λ j dongle n. share_kept id j dongle n db.authorized_users,
)
