-- ===== src/Examples/Accounts.antt =====
-- The theorems on users and access, applied to the household.
use homeconnect.Access.{
  Auth, allow_route_view, can_manage_device, check_route_access, is_public_route,
}
use homeconnect.Access.Rules.{admin_media_gap}
use homeconnect.Db.{Db, Device, device_by_dongle, is_shared, user_by_identity_row}
use homeconnect.Examples.{alice, bob, comma, household, plain}
use homeconnect.Pairing.{claim_check, claim_writes, set_owner}
use homeconnect.Pairing.Owners.{claims_race}
use homeconnect.Pairing.Pilotpair.{IsPaired, PairClaims, pilotpair, pilotpair_lem}
use homeconnect.Prelude.{
  AppError, [], arith, err, false, forbidden, inl, inr, is_none, none, ok, refl, some, true, ◌∷◌,
  ◌≡◌, ◌⊎◌,
}
use homeconnect.Prelude.Text.{t, text_eq}
use homeconnect.Users.{UpdateUserReq, admin_count, set_role, update_check}
use homeconnect.Users.Admins.{remove, serve, serve-IsAdministered}
use homeconnect.Users.Changes.{IsAdministered}
use homeconnect.Users.Races.{demotions_race}

household-IsAdministered : IsAdministered household
unfolding admin_count text_eq
household-IsAdministered = record {
  rows = record {
    identities = (refl, (refl, (refl, tt)));
    ids = (refl, (refl, (refl, tt)));
    fresh_id = (ground arith, (ground arith, (ground arith, tt)));
    flags = (ground arith, (ground arith, (ground arith, tt)));
  };
  has_admin = ground arith;
}

serve-IsAdministered_example : IsAdministered (serve plain (remove (101 ∷ []) bob) household)
serve-IsAdministered_example =
    serve-IsAdministered plain (remove (101 ∷ []) bob) household household-IsAdministered

abbrev demote : UpdateUserReq
demote = record { is_admin = some false; email = none }

demotions_race_example :
    (update_check (101 ∷ []) alice demote household ≡ (ok (false, none), household))
    × (update_check (102 ∷ []) alice demote household ≡ (ok (false, none), household))
    × (admin_count (set_role (102 ∷ []) false none (set_role (101 ∷ []) false none household)) ≡ 0)
unfolding admin_count user_by_identity_row text_eq
demotions_race_example =
    demotions_race household (101 ∷ []) (102 ∷ []) alice bob alice (refl, (refl, (refl, tt))) refl
      (ground arith) refl refl refl refl refl

abbrev as_alice : Auth
as_alice = record {
  claims = record { identity = 101 ∷ []; nbf = none; iat = none; exp = 9 };
  user = some alice;
  device = none;
}

gap_example :
    (allow_route_view household (100 ∷ b'|' ∷ 116 ∷ []) (100 ∷ []) (some as_alice) ≡ ok tt)
    × (check_route_access household (100 ∷ b'|' ∷ 116 ∷ []) (100 ∷ []) (some as_alice)
        ≡ err (forbidden (t "not authorized for this route")))
unfolding is_public_route device_by_dongle text_eq is_shared
gap_example =
    admin_media_gap household as_alice alice comma (100 ∷ b'|' ∷ 116 ∷ []) (100 ∷ []) refl refl refl
      (ground arith) refl (λ l. elim l [ inl e ↦ ground (arith, e) | inr e ↦ ground (arith, e) ])

abbrev unowned : Device
unowned = record comma { owner_id = none }

abbrev unclaimed_db : Db
unclaimed_db = record household { devices = unowned ∷ [] }

claims_race_example :
    (claim_check 1 (100 ∷ []) unclaimed_db ≡ ok false)
    × (claim_check 2 (100 ∷ []) unclaimed_db ≡ ok false)
    × (device_by_dongle
          (100 ∷ [])
          (claim_writes 2 (100 ∷ []) (claim_writes 1 (100 ∷ []) unclaimed_db))
        ≡ some (record unowned { owner_id = some 1 }))
    × (can_manage_device
          (claim_writes 2 (100 ∷ []) (claim_writes 1 (100 ∷ []) unclaimed_db))
          bob
          (100 ∷ [])
        ≡ ok (record unowned { owner_id = some 1 }))
unfolding device_by_dongle text_eq
claims_race_example =
    claims_race 1 bob (100 ∷ []) unclaimed_db unowned (ground arith) refl refl refl

-- Every token reads as the device's, with the claim to pair.
abbrev paired : PairClaims
paired = record { identity = 100 ∷ []; pair = true }

pilotpair_example :
    ((e : AppError) × (pilotpair (λ token. some paired) (λ key token. ok paired) [] bob household
        ≡ (err e, household)))
    ⊎ ((device : Device) × IsPaired
          (λ token. some paired)
          (λ key token. ok paired)
          []
          household
          device
        × (((device.owner_id ≡ none)
              × (pilotpair (λ token. some paired) (λ key token. ok paired) [] bob household
                  ≡ (ok (true, device.dongle_id), set_owner bob.id device.dongle_id household)))
            ⊎ ((is_none device.owner_id ≡ false)
                × (pilotpair (λ token. some paired) (λ key token. ok paired) [] bob household
                    ≡ (ok (false, device.dongle_id), household)))))
pilotpair_example = pilotpair_lem (λ token. some paired) (λ key token. ok paired) [] bob household
