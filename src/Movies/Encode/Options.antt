-- ===== src/Movies/Encode/Options.antt =====
-- The encode settings read back after they are set.
use homeconnect.Db.{Db, get_setting, set_setting}
use homeconnect.Db.Keys.{get_setting-set_setting}
use homeconnect.DevSync.Options.{listed}
use homeconnect.Movies.Encode.{
  clamp_crf, encode_opts, parse_u32, presets, scales, set_crf, set_encode_settings, stored_crf,
}
use homeconnect.Prelude.{
  Option, arith, bad_request, err, false, max, min, refl, some, true, ℕ, ◌>>=◌, ◌≡◌, ◌≤◌,
}
use homeconnect.Prelude.Decimal.{parse_u64-show_ℕ, show_ℕ}
use homeconnect.Prelude.Text.{Text, t, text_eq, text_eq_refl}

clamped : (c : ℕ) → (16 ≤ clamp_crf c) × (clamp_crf c ≤ 35)
clamped c = (omega arith, omega arith)

unset :
    (key j : Text) (v : Text) (db : Db)
    → text_eq key j ≡ false
    → get_setting j (set_setting key v db) ≡ get_setting j db
unset key j v db h = ground (arith, get_setting-set_setting key j v db, h)

just_set : (key v : Text) (db : Db) → get_setting key (set_setting key v db) ≡ some v
just_set key v db = ground (arith, get_setting-set_setting key key v db, text_eq_refl key)

stored_small : (n : ℕ) → n ≤ 35 → stored_crf (some (show_ℕ n)) ≡ some n
unfolding stored_crf parse_u32
stored_small n h = ground (arith, parse_u64-show_ℕ n (omega (arith, h)))

-- The stored quality that encodes use is between 16 and 35, whatever text the table holds; after a quality
-- below 2^32 is set it is that quality, clamped, and the stored preset and size are as before.
pub set_crf_lem :
    (db : Db) (c : ℕ)
    → (16 ≤ (encode_opts db).crf)
      × ((encode_opts db).crf ≤ 35)
      × ((encode_opts (set_crf (some c) db)).crf ≡ max 16 (min c 35))
      × ((encode_opts (set_crf (some c) db)).preset ≡ (encode_opts db).preset)
      × ((encode_opts (set_crf (some c) db)).scale ≡ (encode_opts db).scale)
unfolding encode_opts set_crf
set_crf_lem db c = (
  omega arith,
  omega arith,
  rw (just_set (t "movie_crf") (show_ℕ (clamp_crf c)) db, encode_opts)
      (ground (arith, stored_small (clamp_crf c) (clamped c).1)),
  rw (unset (t "movie_crf") (t "movie_preset") (show_ℕ (clamp_crf c)) db other_key) refl,
  rw (unset (t "movie_crf") (t "movie_scale") (show_ℕ (clamp_crf c)) db (unfold t text_eq in refl))
      refl,
)
  where
    other_key : text_eq (t "movie_crf") (t "movie_preset") ≡ false
    other_key = unfold t text_eq in refl

-- Settings that are refused: an unknown size changes nothing; an unknown preset is refused after the size
-- and the quality of the same request have been stored.
pub set_encode_settings_lem :
    (db : Db) (scale preset : Text) (crf : Option ℕ) (p : Option Text)
    → (listed scales scale ≡ false
        → set_encode_settings (some scale) crf p db ≡ (err (bad_request (t "bad scale")), db))
      × (listed scales scale ≡ true
          → listed presets preset ≡ false
          → set_encode_settings (some scale) crf (some preset) db ≡ (
            err (bad_request (t "bad preset")),
            set_crf crf (set_setting (t "movie_scale") scale db),
          ))
unfolding set_encode_settings ◌>>=◌
set_encode_settings_lem db scale preset crf p =
    (λ h. ground (arith, h), λ h k. ground (arith, h, k))
