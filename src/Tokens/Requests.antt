-- ===== src/Tokens/Requests.antt =====
-- Where a request's token is taken from, and what the three extractors make of it.
use homeconnect.Access.{Auth}
use homeconnect.Db.{Db, User}
use homeconnect.Prelude.{
  AppResult, List, Option-cases, [], arith, err, inl, inr, ok, refl, some, ℕ, ◌++◌, ◌∷◌, ◌≡◌, ◌⊎◌,
}
use homeconnect.Prelude.Split.{Without, split, split_once, split_once-append}
use homeconnect.Prelude.Text.{Text, t, text_eq_refl}
use homeconnect.Tokens.{
  Jwt, Parts, auth_user, extract_token, from_request_parts, lookup_pair, ok_auth, optional_auth,
  qget,
}

first_part :
    (c : ℕ) (p rest : Text)
    → Without c p
    → (split c p ≡ p ∷ []) × (split c (p ++ c ∷ rest) ≡ p ∷ split c rest)
unfolding split
first_part c [] rest h = (refl, ground arith)
first_part c (d ∷ p) rest h =
    let (a, b) = first_part c p rest h.1 in (ground (arith, a), ground (arith, b))

sig_pair :
    (token : Text) (kvs : List Text)
    → lookup_pair (t "sig") ((t "sig=" ++ token) ∷ kvs) ≡ some token
unfolding lookup_pair
sig_pair token kvs =
    let e : split_once b'=' (t "sig=" ++ token) ≡ some (t "sig", token) =
      unfold t in split_once-append b'=' (115 ∷ 105 ∷ 103 ∷ []) token (ground arith) in
    ground (arith, e, text_eq_refl (t "sig"))

sig_without : (token : Text) → Without b'&' token → Without b'&' (t "sig=" ++ token)
unfolding t
sig_without token h = (ground arith, (ground arith, (ground arith, (ground arith, h))))

-- The token of the parameter `sig` at the start of the query wins over every other place, for a token
-- without '&'; what follows it in the query is not read.
pub extract_token_sig :
    (token rest : Text) (parts : Parts)
    → Without b'&' token
    → (parts.query ≡ t "sig=" ++ token) ⊎ (parts.query ≡ t "sig=" ++ token ++ (b'&' ∷ rest))
    → extract_token parts ≡ some token
unfolding extract_token qget lookup_pair
extract_token_sig token rest parts w (inl e) =
    let (f, _) = first_part b'&' (t "sig=" ++ token) [] (sig_without token w) in
    rw (e, f, extract_token, sig_pair token []) refl
extract_token_sig token rest parts w (inr e) =
    let (_, f) = first_part b'&' (t "sig=" ++ token) rest (sig_without token w) in
    rw (e, f, extract_token, sig_pair token (split b'&' rest)) refl

-- The extractors agree: the optional one yields a principal exactly when the mandatory one does, and the
-- one for users yields a user only if that principal is that user.
pub auth_user_lem :
    (jwt : Jwt) (secret : Text) (db : Db) (parts : Parts)
    → (optional_auth jwt secret db parts ≡ ok_auth (from_request_parts jwt secret db parts))
      × ((u : User)
          → auth_user jwt secret db parts ≡ ok u
          → (a : Auth) × (from_request_parts jwt secret db parts ≡ ok a) × (a.user ≡ some u))
unfolding optional_auth auth_user from_request_parts ok_auth
auth_user_lem jwt secret db parts =
    (ground arith, λ u h. by_result u h (from_request_parts jwt secret db parts) refl)
  where
    by_result :
        (u : User)
        → auth_user jwt secret db parts ≡ ok u
        → (o : AppResult Auth) → from_request_parts jwt secret db parts ≡ o
        → (a : Auth) × (from_request_parts jwt secret db parts ≡ ok a) × (a.user ≡ some u)
    by_result u h (err e) p = ground (arith, p, h)
    by_result u h (ok a) p = elim (Option-cases a.user) [
      | inl q ↦ ground (arith, p, q, h)
      | inr (v, q) ↦ (a, p, ground (arith, p, q, h))
    ]
