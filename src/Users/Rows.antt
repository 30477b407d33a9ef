-- ===== src/Users/Rows.antt =====
-- Lemmas on the rows of users: distinct keys, and the number of admins after an update or a deletion.
-- No two rows have one identity.
use homeconnect.Db.{Db, User}
use homeconnect.Prelude.{
  All, Bool, Bool-cases, List, [], any, arith, count, delete_where, false, find, if◌then◌else◌, inl,
  inr, refl, some, true, update_where, ℕ, ◌+◌, ◌<◌, ◌==◌, ◌||◌, ◌∷◌, ◌≡◌, ◌≤◌,
}
use homeconnect.Prelude.Text.{Text, text_eq, text_eq_iff}

abbrev pub DistinctIdentities : List User → Type 0
DistinctIdentities [] = Unit {0}
DistinctIdentities (u ∷ us) =
    (any (λ (v : User). text_eq v.identity u.identity) us ≡ false) × DistinctIdentities us

abbrev pub DistinctIds : List User → Type 0
DistinctIds [] = Unit {0}
DistinctIds (u ∷ us) = (any (λ (v : User). v.id == u.id) us ≡ false) × DistinctIds us

abbrev pub admins : List User → ℕ
admins us = count (λ (u : User). u.is_admin == 1) us

pub record IsWellFormed (db : Db) : Type 0 where
  pub identities : DistinctIdentities db.users
  pub ids : DistinctIds db.users
  pub fresh_id : All (λ (u : User). u.id < db.next_user_id) db.users
  pub flags : All (λ (u : User). u.is_admin ≤ 1) db.users

module _ (identity : Text) (f : User → User) where
  abbrev changed : List User → List User
  changed us = update_where (λ (u : User). text_eq u.identity identity) f us

  changed-none :
      (us : List User)
      → any (λ (v : User). text_eq v.identity identity) us ≡ false
      → changed us ≡ us
  changed-none [] h = refl
  changed-none (u ∷ us) h = ground (arith, changed-none us)

  -- An update of the one row of an identity moves the number of admins by that row's flag.
  pub admins-changed :
      (us : List User) (u : User)
      → DistinctIdentities us
      → find (λ (v : User). text_eq v.identity identity) us ≡ some u
      → admins (changed us) + (if u.is_admin == 1 then 1 else 0)
        ≡ admins us + (if (f u).is_admin == 1 then 1 else 0)
  admins-changed [] u d h = ground arith
  admins-changed (v ∷ us) u d h =
      ground (arith, admins-changed us u d.1, changed-none us, text_eq_iff v.identity identity, d.0)

  pub admins-changed_same :
      (us : List User)
      → ((u : User) → (f u).is_admin ≡ u.is_admin)
      → admins (changed us) ≡ admins us
  admins-changed_same [] h = refl
  admins-changed_same (u ∷ us) h = ground (arith, admins-changed_same us h, h u)

  module _ (same : (u : User) → (f u).identity ≡ u.identity) where
    any-changed :
        (k : Text) (us : List User)
        → any (λ (v : User). text_eq v.identity k) (changed us)
          ≡ any (λ (v : User). text_eq v.identity k) us
    any-changed k [] = refl
    any-changed k (u ∷ us) = ground (arith, any-changed k us, same u)

    pub changed-DistinctIdentities :
        (us : List User) → DistinctIdentities us → DistinctIdentities (changed us)
    changed-DistinctIdentities [] d = tt
    changed-DistinctIdentities (u ∷ us) d =
        ground (arith, any-changed u.identity us, same u, changed-DistinctIdentities us d.1)

  module _ (same : (u : User) → (f u).id ≡ u.id) where
    any-id-changed :
        (k : ℕ) (us : List User)
        → any (λ (v : User). v.id == k) (changed us) ≡ any (λ (v : User). v.id == k) us
    any-id-changed k [] = refl
    any-id-changed k (u ∷ us) = ground (arith, any-id-changed k us, same u)

    pub changed-DistinctIds : (us : List User) → DistinctIds us → DistinctIds (changed us)
    changed-DistinctIds [] d = tt
    changed-DistinctIds (u ∷ us) d =
        ground (arith, any-id-changed u.id us, same u, changed-DistinctIds us d.1)

  pub All-changed :
      (P : User → Type 0)
      → ((u : User) → P u → P (f u))
      → (us : List User) → All P us
      → All P (changed us)
  All-changed P k [] h = tt
  All-changed P k (u ∷ us) h = elim (Bool-cases (text_eq u.identity identity)) [
    | inl e ↦ rw e (k u h.0, All-changed P k us h.1)
    | inr e ↦ rw e (h.0, All-changed P k us h.1)
  ]

pub any-identity :
    (uuid name : Text) (us : List User)
    → any (λ (u : User). text_eq u.username name || text_eq u.identity uuid) us ≡ false
    → any (λ (u : User). text_eq u.identity uuid) us ≡ false
any-identity uuid name [] h = refl
any-identity uuid name (u ∷ us) h = ground (arith, any-identity uuid name us)

pub fresh-any :
    (n : ℕ) (us : List User)
    → All (λ (u : User). u.id < n) us
    → any (λ (u : User). u.id == n) us ≡ false
fresh-any n [] h = refl
fresh-any n (u ∷ us) h = ground (arith, fresh-any n us h.1)

pub fresh-suc :
    (n : ℕ) (us : List User) → All (λ (u : User). u.id < n) us → All (λ (u : User). u.id < n + 1) us
fresh-suc n [] h = tt
fresh-suc n (u ∷ us) h = (omega arith, fresh-suc n us h.1)

-- The rows that are left when those of one id are deleted.
abbrev without_id : ℕ → List User → List User
without_id id us = delete_where (λ (u : User). u.id == id) us

without_id-none :
    (id : ℕ) (us : List User) → any (λ (v : User). v.id == id) us ≡ false → without_id id us ≡ us
without_id-none id [] h = refl
without_id-none id (u ∷ us) h = ground (arith, without_id-none id us)

found-any :
    (us : List User) (identity : Text) (u : User)
    → find (λ (v : User). text_eq v.identity identity) us ≡ some u
    → any (λ (v : User). v.id == u.id) us ≡ true
found-any [] identity u h = ground arith
found-any (v ∷ us) identity u h = ground (arith, found-any us identity u)

any-without_id :
    (p : User → Bool) (id : ℕ) (us : List User)
    → any p us ≡ false
    → any p (without_id id us) ≡ false
any-without_id p id [] h = refl
any-without_id p id (u ∷ us) h = ground (arith, any-without_id p id us)

-- Deleting the row of a user lowers the number of admins by that row's flag.
pub admins-without_id :
    (us : List User) (identity : Text) (u : User)
    → DistinctIds us
    → find (λ (v : User). text_eq v.identity identity) us ≡ some u
    → admins (without_id u.id us) + (if u.is_admin == 1 then 1 else 0) ≡ admins us
admins-without_id [] identity u d h = ground arith
admins-without_id (v ∷ us) identity u d h = ground (
  arith,
  admins-without_id us identity u d.1,
  without_id-none v.id us,
  found-any us identity u,
  d.0,
)

pub without_id-DistinctIds :
    (id : ℕ) (us : List User) → DistinctIds us → DistinctIds (without_id id us)
without_id-DistinctIds id [] d = tt
without_id-DistinctIds id (u ∷ us) d =
    ground (arith, without_id-DistinctIds id us d.1, any-without_id (λ v. v.id == u.id) id us)

pub without_id-DistinctIdentities :
    (id : ℕ) (us : List User) → DistinctIdentities us → DistinctIdentities (without_id id us)
without_id-DistinctIdentities id [] d = tt
without_id-DistinctIdentities id (u ∷ us) d = ground (
  arith,
  without_id-DistinctIdentities id us d.1,
  any-without_id (λ v. text_eq v.identity u.identity) id us,
)

pub All-without_id :
    (P : User → Type 0) (id : ℕ) (us : List User) → All P us → All P (without_id id us)
All-without_id P id [] h = tt
All-without_id P id (u ∷ us) h = elim (Bool-cases (u.id == id)) [
  | inl e ↦ rw e (All-without_id P id us h.1)
  | inr e ↦ rw e (h.0, All-without_id P id us h.1)
]
