-- ===== src/Pairing/Pilotpair.antt =====
-- src/api/v2.rs, pilotpair: a user claims a device by a token that the device has signed. The JWT library's reading of
-- a token, unverified and with a key, is a parameter.
use homeconnect.Db.{Db, Device, User, device_by_dongle}
use homeconnect.Pairing.{set_owner}
use homeconnect.Prelude.{
  Action, AppError, AppResult, Bool, Bool-cases, Option, Option-cases, bad_request, err, false,
  if◌then◌else◌, inl, inr, is_none, none, not, not_found, ok, refl, result-cases, some, true,
  unauthorized, ◌≡◌, ◌⊎◌,
}
use homeconnect.Prelude.Text.{Text, t}

pub record PairClaims : Type 0 where
  pub identity : Text
  pub pair : Bool

module _ (unverified : Text → Option PairClaims)
    (verify_token : Text → Text → AppResult PairClaims) where
  -- The row of authorized_users has no created_at, which is NOT NULL: OR IGNORE drops it.
  unfoldable pub pair_with : Device → User → Action Db (Bool × Text)
  pair_with device user db = (
    ok (is_none device.owner_id, device.dongle_id),
    if is_none device.owner_id then set_owner user.id device.dongle_id db else db,
  )

  unfoldable pub pilotpair : Text → User → Action Db (Bool × Text)
  unfolding pair_with
  pilotpair token user db = elim (unverified token) [
    | none ↦ (err (bad_request (t "undecodable pair token")), db)
    | some u ↦ elim (device_by_dongle u.identity db) [
      | none ↦ (err (not_found (t "unknown device")), db)
      | some device ↦ elim (verify_token device.public_key token) [
        | err e ↦ (err e, db)
        | ok claims ↦
            if not claims.pair
            then (err (unauthorized (t "pair claim missing")), db)
            else pair_with device user db
      ]
    ]
  ]

  -- The token is one that the device's stored key verifies, with the claim to pair.
  abbrev pub IsPaired : Text → Db → Device → Type 0
  IsPaired token db device =
      (u : PairClaims) × (claims : PairClaims) × (unverified token ≡ some u)
      × (device_by_dongle u.identity db ≡ some device)
      × (verify_token device.public_key token ≡ ok claims)
      × (claims.pair ≡ true)

  -- A pairing either fails and changes nothing, or was proved by a token that the stored key of a registered device
  -- verifies; then a device without an owner gets the user as its owner, one with an owner keeps it, and nothing else
  -- changes.
  pub pilotpair_lem :
      (token : Text) (user : User) (db : Db)
      → ((e : AppError) × (pilotpair token user db ≡ (err e, db)))
        ⊎ ((device : Device) × IsPaired token db device
            × (((device.owner_id ≡ none)
                  × (pilotpair token user db
                      ≡ (ok (true, device.dongle_id), set_owner user.id device.dongle_id db)))
                ⊎ ((is_none device.owner_id ≡ false)
                    × (pilotpair token user db ≡ (ok (false, device.dongle_id), db)))))
  unfolding pilotpair pair_with
  pilotpair_lem token user db = elim (Option-cases (unverified token)) [
    | inl n ↦ inl (bad_request (t "undecodable pair token"), rw (n, pilotpair) refl)
    | inr (u, n) ↦ elim (Option-cases (device_by_dongle u.identity db)) [
      | inl m ↦ inl (not_found (t "unknown device"), rw (n, pilotpair, m) refl)
      | inr (device, m) ↦ elim (result-cases (verify_token device.public_key token)) [
        | inr (e, v) ↦ inl (e, rw (n, pilotpair, m, v) refl)
        | inl (claims, v) ↦ elim (Bool-cases claims.pair) [
          | inr p ↦ inl (unauthorized (t "pair claim missing"), rw (n, pilotpair, m, v, p) refl)
          | inl p ↦ inr (
            device,
            (u, claims, n, m, v, p),
            elim (Option-cases device.owner_id) [
              | inl o ↦ inl (o, rw (n, pilotpair, m, v, p, o) refl)
              | inr (i, o) ↦ inr (rw (o) refl, rw (n, pilotpair, m, v, p, o) refl)
            ],
          )
        ]
      ]
    ]
  ]
