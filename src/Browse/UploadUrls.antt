-- ===== src/Browse/UploadUrls.antt =====
-- src/api/v1.rs: where a device uploads its files to, and the token that it uploads with.
use homeconnect.Access.{Auth}
use homeconnect.Browse.{Encoder, issue_hs512_ttl}
use homeconnect.DevSync.Paths.{digits_slash}
use homeconnect.Prelude.{
  AppResult, List, Option, [], err, forbidden, if◌then◌else◌, map, none, ok, some, suc,
  unauthorized, unwrap_or, zero, ℕ, ◌*◌, ◌++◌, ◌-◌, ◌==◌, ◌∷◌, ◌≡◌,
}
use homeconnect.Prelude.Decimal.{show_ℕ, show_ℕ-AllDigits}
use homeconnect.Prelude.Int.{ltb_ℤ, negsuc, pos, ℤ}
use homeconnect.Prelude.Split.{Without, join, rsplit_once, split, split-join}
use homeconnect.Prelude.Text.{Text, strip_prefix, t, text_eq}
use homeconnect.Settings.{Config}
use homeconnect.Storage.Keys.{rsplit_dashes, rsplit_number}

-- s.replacen(c, "/", n)
unfoldable pub replacen : ℕ → ℕ → Text → Text
replacen c zero s = s
replacen c (suc n) [] = []
replacen c (suc n) (d ∷ s) =
    let rest = replacen c (suc n) s in
    let fewer = replacen c n s in if d == c then b'/' ∷ fewer else d ∷ rest

driving_tail : Text → Text
driving_tail path = elim (rsplit_once (t "--") path) [
  | none ↦ path
  | some (head, file) ↦ elim (rsplit_once (t "--") head) [
    | none ↦ path
    | some (ts, seg) ↦ ts ++ b'/' ∷ (seg ++ b'/' ∷ file)
  ]
]

unfoldable pub transform_route_string : Text → Text
unfolding replacen driving_tail
transform_route_string path = elim (strip_prefix (t "boot/") path) [
  | some rest ↦ t "boot/" ++ rest
  | none ↦ elim (strip_prefix (t "crash/") path) [
    | some rest ↦ t "crash/" ++ replacen b'_' 2 rest
    | none ↦ driving_tail path
  ]
]

unfoldable pub require_device : Auth → Text → AppResult (Unit {0})
require_device auth dongle = elim auth.device [
  | some d ↦
      if text_eq d.dongle_id dongle then ok tt else err (forbidden (t "device/dongle mismatch"))
  | none ↦ err (unauthorized (t "device token required"))
]

-- expiry_days.clamp(lo, hi)
unfoldable pub clamp_ℤ : ℤ → ℤ → ℤ → ℤ
clamp_ℤ lo hi x = if ltb_ℤ x lo then lo else if ltb_ℤ hi x then hi else x

mul_day : ℤ → ℤ
mul_day (pos n) = pos (n * 86400)
mul_day (negsuc n) = negsuc (suc n * 86400 - 1)

module _ (jwt : Encoder) (secret_b64 : Text) (now : ℤ) (config : Config) where
  unfoldable pub upload_token : Text → ℤ → AppResult Text
  unfolding clamp_ℤ mul_day
  upload_token dongle expiry_days =
      issue_hs512_ttl jwt secret_b64 now dongle (mul_day (clamp_ℤ (pos 1) (pos 30) expiry_days))

  -- The URL and the token of its Authorization header.
  unfoldable pub upload_url : Text → Auth → Text → Option ℤ → AppResult (Text × Text)
  upload_url dongle auth path expiry_days = elim (require_device auth dongle) [
    | err e ↦ err e
    | ok _ ↦ elim (upload_token dongle (unwrap_or expiry_days (pos 1))) [
      | err e ↦ err e
      | ok token ↦ ok (
        config.public_url
            ++ (t "/connectincoming/" ++ (dongle ++ b'/' ∷ transform_route_string path)),
        t "JWT " ++ token,
      )
    ]
  ]

  unfoldable pub upload_urls : Text → Auth → List Text → Option ℤ → AppResult (List Text)
  upload_urls dongle auth paths expiry_days = elim (require_device auth dongle) [
    | err e ↦ err e
    | ok _ ↦ elim (upload_token dongle (unwrap_or expiry_days (pos 1))) [
      | err e ↦ err e
      | ok token ↦ ok (
          map
            (λ p.
              config.public_url
              ++ (t "/connectincoming/"
                  ++ (dongle ++ b'/' ∷ (transform_route_string p ++ (t "?sig=" ++ token)))))
            paths)
    ]
  ]

-- A driving file's path does not begin like a boot or a crash log.
abbrev pub IsDriving : Text → Type 0
IsDriving path = (strip_prefix (t "boot/") path ≡ none) × (strip_prefix (t "crash/") path ≡ none)

-- The path `{ts}--{seg}--{file}` of a driving file becomes an URL tail whose parts between '/' are the
-- timestamp, the segment and the file that the upload route reads, for a timestamp and a file without '/'
-- and a file in which, after a '-', there is no "--".
pub transform_driving :
    (ts file : Text) (seg : ℕ)
    → IsDriving (ts ++ t "--" ++ show_ℕ seg ++ t "--" ++ file)
    → rsplit_once (t "--") (b'-' ∷ file) ≡ none
    → Without b'/' ts
    → Without b'/' file
    → split b'/' (transform_route_string (ts ++ t "--" ++ show_ℕ seg ++ t "--" ++ file))
      ≡ ts ∷ show_ℕ seg ∷ file ∷ []
unfolding transform_route_string driving_tail join
transform_driving ts file seg d n w v =
    let path : Text = ts ++ t "--" ++ show_ℕ seg ++ t "--" ++ file in
    let head : Text = ts ++ t "--" ++ show_ℕ seg in
    let last : rsplit_once (t "--") path ≡ some (head, file) = rsplit_dashes head file n in
    rw (d.0, transform_route_string, d.1, last, driving_tail, rsplit_number ts seg)
      (split-join b'/' ts (show_ℕ seg ∷ file ∷ [])
        (w, (digits_slash (show_ℕ seg) (show_ℕ-AllDigits seg), (v, tt))))
