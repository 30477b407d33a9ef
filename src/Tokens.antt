-- ===== src/Tokens.antt =====
-- src/auth.rs: from a request to its principal. The JWT library and the decoding of base64 and JSON are a
-- parameter, as a record of the functions that the code calls; a failure carries the library's message.
pub mod Principals
pub mod Requests
use homeconnect.Access.{Auth, Claims}
use homeconnect.Db.{Db, Device, User, device_by_dongle, user_by_identity_row}
use homeconnect.Prelude.{
  AppResult, Bool, List, Option, [], err, if◌then◌else◌, map, none, not, ok, other, some,
  unauthorized, ◌++◌, ◌∷◌,
}
use homeconnect.Prelude.Split.{split, split_once}
use homeconnect.Prelude.Text.{Text, strip_prefix, t, text_eq, trim}

pub data Decoded (A : Type 0) : Type 0 where
  decoded : A → Decoded A
  failed : Text → Decoded A

pub data Algorithm : Type 0 where
  hs256 : Algorithm
  hs384 : Algorithm
  hs512 : Algorithm
  es256 : Algorithm
  es384 : Algorithm
  rs256 : Algorithm
  rs384 : Algorithm
  rs512 : Algorithm
  other_alg : Text → Algorithm

-- `decode_header`, the check of the base64 secret, `decode` with the secret, the claims without a check of
-- the signature, the check of a PEM key, and `decode` with that key.
pub record Jwt : Type 0 where
  pub header : Text → Decoded Algorithm
  pub secret_ok : Text → Bool
  pub decode_hmac : Algorithm → Text → Text → Decoded Claims
  pub decode_unverified : Text → Option Claims
  pub key_of_pem : Algorithm → Text → Decoded (Unit {0})
  pub decode_pem : Algorithm → Text → Text → Decoded Claims

-- Both arms of the `match` in `verify`.
pub data Family : Type 0 where
  hmac : Family
  device_key : Family
  unsupported : Text → Family

unfoldable pub family_of : Algorithm → Family
family_of hs256 = hmac
family_of hs384 = hmac
family_of hs512 = hmac
family_of es256 = device_key
family_of es384 = device_key
family_of rs256 = device_key
family_of rs384 = device_key
family_of rs512 = device_key
family_of (other_alg name) = unsupported name

unfoldable pub resolve_principal : Db → Claims → AppResult Auth
resolve_principal db claims = elim (device_by_dongle claims.identity db) [
  | some device ↦ ok (record { claims = claims; user = none; device = some device })
  | none ↦ elim (user_by_identity_row claims.identity db) [
    | some user ↦ ok (record { claims = claims; user = some user; device = none })
    | none ↦ err (unauthorized (t "unknown identity"))
  ]
]

unfoldable pub verify_hmac : Jwt → Text → Db → Algorithm → Text → AppResult Auth
unfolding resolve_principal
verify_hmac jwt secret db alg token =
    if not (jwt.secret_ok secret) then err other else (elim (jwt.decode_hmac alg secret token) [
      | failed e ↦ err (unauthorized (t "invalid token: " ++ e))
      | decoded claims ↦ resolve_principal db claims
    ])

-- With the device's row and the key made of its PEM text.
unfoldable pub verify_with_key : Jwt → Algorithm → Text → Device → AppResult Auth
verify_with_key jwt alg token device = elim (jwt.key_of_pem alg device.public_key) [
  | failed e ↦ err (unauthorized (t "bad device key: " ++ e))
  | decoded _ ↦ elim (jwt.decode_pem alg device.public_key token) [
    | failed e ↦ err (unauthorized (t "device token invalid: " ++ e))
    | decoded claims ↦ ok (record { claims = claims; user = none; device = some device })
  ]
]

unfoldable pub verify_device : Jwt → Db → Algorithm → Text → AppResult Auth
unfolding verify_with_key
verify_device jwt db alg token = elim (jwt.decode_unverified token) [
  | none ↦ err (unauthorized (t "undecodable token"))
  | some unverified ↦ elim (device_by_dongle unverified.identity db) [
    | none ↦ err (unauthorized (t "unknown device"))
    | some device ↦ verify_with_key jwt alg token device
  ]
]

unfoldable pub verify : Jwt → Text → Db → Text → AppResult Auth
unfolding family_of verify_hmac verify_device
verify jwt secret db token = elim (jwt.header token) [
  | failed e ↦ err (unauthorized (t "bad token: " ++ e))
  | decoded alg ↦ elim (family_of alg) [
    | hmac ↦ verify_hmac jwt secret db alg token
    | device_key ↦ verify_device jwt db alg token
    | unsupported name ↦ err (unauthorized (t "unsupported alg " ++ name))
  ]
]

-- The parts of a request that `extract_token` reads; a header that is not text counts as none.
pub record Parts : Type 0 where
  pub query : Text
  pub cookie : Option Text
  pub authorization : Option Text

-- find_map over the pairs k=v
unfoldable pub lookup_pair : Text → List Text → Option Text
lookup_pair k [] = none
lookup_pair k (kv ∷ kvs) =
    let rest = lookup_pair k kvs in
    elim (split_once b'=' kv) [
      | none ↦ rest
      | some (key, val) ↦ if text_eq key k then some val else rest
    ]

unfoldable pub qget : Text → Text → Option Text
unfolding lookup_pair
qget query k = lookup_pair k (split b'&' query)

unfoldable pub cookie_token : Option Text → Option Text
unfolding lookup_pair
cookie_token none = none
cookie_token (some s) = lookup_pair (t "jwt") (map trim (split b';' s))

unfoldable pub authorization_token : Option Text → Option Text
authorization_token none = none
authorization_token (some s) = elim (strip_prefix (t "JWT ") s) [
  | some rest ↦ some (trim rest)
  | none ↦ elim (strip_prefix (t "Bearer ") s) [ none ↦ none | some rest ↦ some (trim rest) ]
]

unfoldable pub extract_token : Parts → Option Text
unfolding qget cookie_token authorization_token
extract_token parts = elim (qget parts.query (t "sig")) [
  | some token ↦ some token
  | none ↦ elim (cookie_token parts.cookie) [
    | some token ↦ some token
    | none ↦ elim (authorization_token parts.authorization) [
      | some token ↦ some token
      | none ↦ qget parts.query (t "access_token")
    ]
  ]
]

-- The extractor `Auth`.
unfoldable pub from_request_parts : Jwt → Text → Db → Parts → AppResult Auth
unfolding extract_token verify
from_request_parts jwt secret db parts = elim (extract_token parts) [
  | none ↦ err (unauthorized (t "missing token"))
  | some token ↦ verify jwt secret db token
]

unfoldable pub ok_auth : AppResult Auth → Option Auth
ok_auth (ok a) = some a
ok_auth (err e) = none

-- The extractor `Option<Auth>`.
unfoldable pub optional_auth : Jwt → Text → Db → Parts → Option Auth
unfolding extract_token verify ok_auth
optional_auth jwt secret db parts = elim (extract_token parts) [
  | none ↦ none
  | some token ↦ ok_auth (verify jwt secret db token)
]

-- The extractor `AuthUser`.
unfoldable pub auth_user : Jwt → Text → Db → Parts → AppResult User
unfolding from_request_parts
auth_user jwt secret db parts = elim (from_request_parts jwt secret db parts) [
  | err e ↦ err e
  | ok auth ↦ elim auth.user [ some u ↦ ok u | none ↦ err (unauthorized (t "user login required")) ]
]
