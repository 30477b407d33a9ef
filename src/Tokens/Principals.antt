-- ===== src/Tokens/Principals.antt =====
-- No principal without a checked signature.
use homeconnect.Access.{Auth, Claims}
use homeconnect.Db.{Db, Device, User, device_by_dongle, user_by_identity_row}
use homeconnect.Prelude.{
  Bool-cases, Option-cases, arith, inl, inr, none, ok, refl, some, true, ◌≡◌, ◌⊎◌,
}
use homeconnect.Prelude.Text.{Text}
use homeconnect.Tokens.{
  Algorithm, Decoded, Family, Jwt, decoded, device_key, failed, family_of, hmac, resolve_principal,
  unsupported, verify, verify_device, verify_hmac, verify_with_key,
}
use mathlib.Core.Path.{subst}

-- The claims were decoded with the server's secret and name the principal, or with the public key of
-- the device that the token names.
abbrev pub IsSigned : Jwt → Text → Db → Text → Auth → Type 0
IsSigned jwt secret db token a =
    ((alg : Algorithm) × (jwt.decode_hmac alg secret token ≡ decoded a.claims)
      × (((d : Device) × (a.device ≡ some d)
            × (a.user ≡ none)
            × (device_by_dongle a.claims.identity db ≡ some d))
          ⊎ ((u : User) × (a.user ≡ some u)
              × (a.device ≡ none)
              × (user_by_identity_row a.claims.identity db ≡ some u))))
    ⊎ ((alg : Algorithm) × (d : Device) × (a.device ≡ some d)
        × (a.user ≡ none)
        × (jwt.decode_pem alg d.public_key token ≡ decoded a.claims))

hmac_case :
    (jwt : Jwt) (secret token : Text) (db : Db) (alg : Algorithm) (a : Auth)
    → verify_hmac jwt secret db alg token ≡ ok a
    → IsSigned jwt secret db token a
unfolding verify_hmac resolve_principal
hmac_case jwt secret token db alg a h = elim (Bool-cases (jwt.secret_ok secret)) [
  | inl s ↦ by_claims s (jwt.decode_hmac alg secret token) refl
  | inr s ↦ ground (arith, s, h)
]
  where
    by_claims :
        jwt.secret_ok secret ≡ true
        → (o : Decoded Claims) → jwt.decode_hmac alg secret token ≡ o
        → IsSigned jwt secret db token a
    by_claims s (failed m) e = ground (arith, s, e, h)
    by_claims s (decoded c) e = elim (Option-cases (device_by_dongle c.identity db)) [
      | inr (d, f) ↦
          let p : record { claims = c; user = none; device = some d } ≡ a =
            ground (arith, s, e, f, h) in
          subst (IsSigned jwt secret db token) p (inl (alg, e, inl (d, refl, refl, f)))
      | inl f ↦ elim (Option-cases (user_by_identity_row c.identity db)) [
        | inr (u, g) ↦
            let p : record { claims = c; user = some u; device = none } ≡ a =
              ground (arith, s, e, f, g, h) in
            subst (IsSigned jwt secret db token) p (inl (alg, e, inr (u, refl, refl, g)))
        | inl g ↦ ground (arith, s, e, f, g, h)
      ]
    ]

device_case :
    (jwt : Jwt) (secret token : Text) (db : Db) (alg : Algorithm) (a : Auth)
    → verify_device jwt db alg token ≡ ok a
    → IsSigned jwt secret db token a
unfolding verify_device verify_with_key
device_case jwt secret token db alg a h = elim (Option-cases (jwt.decode_unverified token)) [
  | inl e ↦ ground (arith, e, h)
  | inr (c, e) ↦ elim (Option-cases (device_by_dongle c.identity db)) [
    | inl f ↦ ground (arith, e, f, h)
    | inr (d, f) ↦ by_key d (ground (arith, e, f, h)) (jwt.key_of_pem alg d.public_key) refl
  ]
]
  where
    by_claims :
        (d : Device)
        → verify_with_key jwt alg token d ≡ ok a
        → (k : Unit {0}) → jwt.key_of_pem alg d.public_key ≡ decoded k
        → (o : Decoded Claims) → jwt.decode_pem alg d.public_key token ≡ o
        → IsSigned jwt secret db token a
    by_claims d v k i (failed m) e = ground (arith, i, e, v)
    by_claims d v k i (decoded c) e =
        let p : record { claims = c; user = none; device = some d } ≡ a = ground (arith, i, e, v) in
        subst (IsSigned jwt secret db token) p (inr (alg, d, refl, refl, e))

    by_key :
        (d : Device)
        → verify_with_key jwt alg token d ≡ ok a
        → (o : Decoded (Unit {0})) → jwt.key_of_pem alg d.public_key ≡ o
        → IsSigned jwt secret db token a
    by_key d v (failed m) i = ground (arith, i, v)
    by_key d v (decoded k) i = by_claims d v k i (jwt.decode_pem alg d.public_key token) refl

-- Whoever a request is taken for has signed its token: an accepted token's claims were decoded with the
-- server's secret and name that device or user, or they were decoded with the public key of that
-- device. Exactly one of the user and the device is set.
pub verify-IsSigned :
    (jwt : Jwt) (secret token : Text) (db : Db) (a : Auth)
    → verify jwt secret db token ≡ ok a
    → IsSigned jwt secret db token a
unfolding verify
verify-IsSigned jwt secret token db a h = by_header (jwt.header token) refl
  where
    by_family :
        (alg : Algorithm) (f : Family)
        → jwt.header token ≡ decoded alg
        → family_of alg ≡ f
        → IsSigned jwt secret db token a
    by_family alg hmac e g = hmac_case jwt secret token db alg a (ground (arith, e, g, h))
    by_family alg device_key e g = device_case jwt secret token db alg a (ground (arith, e, g, h))
    by_family alg (unsupported n) e g = ground (arith, e, g, h)

    by_header : (o : Decoded Algorithm) → jwt.header token ≡ o → IsSigned jwt secret db token a
    by_header (failed m) e = ground (arith, e, h)
    by_header (decoded alg) e = by_family alg (family_of alg) e refl
