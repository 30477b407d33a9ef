-- ===== src/Examples/Tokens.antt =====
-- The theorems on tokens and connections, applied to the household.
use homeconnect.Access.{Auth}
use homeconnect.Athena.{ConnectionManager, closes, frame, is_connected, on_events, opens}
use homeconnect.Athena.Sockets.{reconnect_forgotten}
use homeconnect.Db.{device_by_dongle, user_by_identity_row}
use homeconnect.Examples.{alice, household}
use homeconnect.Prelude.{[], false, none, refl, some, true, ◌++◌, ◌∷◌, ◌≡◌}
use homeconnect.Prelude.Int.{pos}
use homeconnect.Prelude.Text.{t, text_eq}
use homeconnect.Tokens.{
  Jwt, Parts, decoded, failed, family_of, hs512, resolve_principal, verify, verify_hmac,
}
use homeconnect.Tokens.Principals.{IsSigned, verify-IsSigned}

-- A library that takes a token for the identity it is, signed by whoever it names.
abbrev trusting : Jwt
trusting = record {
  header = λ token. decoded hs512;
  secret_ok = λ s. true;
  decode_hmac =
      λ alg secret token. decoded (record { identity = token; nbf = none; iat = none; exp = 9 });
  decode_unverified = λ token. none;
  key_of_pem = λ alg pem. decoded tt;
  decode_pem = λ alg pem token. failed [];
}

abbrev alice_auth : Auth
alice_auth = record {
  claims = record { identity = 101 ∷ []; nbf = none; iat = none; exp = 9 };
  user = some alice;
  device = none;
}

alice_example : IsSigned trusting [] household (101 ∷ []) alice_auth
unfolding verify family_of verify_hmac resolve_principal device_by_dongle user_by_identity_row
    text_eq
alice_example = verify-IsSigned trusting [] (101 ∷ []) household alice_auth refl

abbrev request : Parts
request = record { query = t "sig=" ++ (101 ∷ []); cookie = some (1 ∷ []); authorization = none }

abbrev nobody : ConnectionManager
nobody = record { inner = []; syncing = [] }

reconnect_example :
    is_connected
      (100 ∷ [])
      (on_events
        (100 ∷ [])
        (opens (pos 1) ∷ opens (pos 2) ∷ closes (pos 3) ∷ frame (pos 4) ∷ [])
        (nobody, household)).0
    ≡ false
reconnect_example =
    reconnect_forgotten (100 ∷ []) (pos 1) (pos 2) (pos 3) (pos 4 ∷ []) (nobody, household)
