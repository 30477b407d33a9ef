-- ===== src/Settings/Laws.antt =====
-- A toggle and an interval read back as they were set, and other keys keep their value.
use homeconnect.Db.{Db}
use homeconnect.Db.Keys.{get_setting-set_setting}
use homeconnect.Prelude.{Bool, arith, false, if◌then◌else◌, refl, true, ℕ, ◌<◌, ◌≡◌, ◌≢◌}
use homeconnect.Prelude.Decimal.{parse_u64-show_ℕ, show_ℕ, u64_mod}
use homeconnect.Prelude.Text.{Text, t, text_eq, text_eq_iff, text_eq_refl, to_ascii_lowercase}
use homeconnect.Settings.{get_secs, get_toggle, set_secs, set_toggle, truthy}

-- For every key: after a toggle is set it reads as it was set, whatever the seed, an interval below
-- 2^64 reads as it was set, and a toggle or an interval of another key is as before.
pub settings_lem :
    (key j : Text) (on seed : Bool) (secs n : ℕ) (db : Db)
    → secs < u64_mod
    → (get_toggle key seed (set_toggle key on db) ≡ on)
      × (get_secs key n (set_secs key secs db) ≡ secs)
      × (key ≢ j
          → (get_toggle j seed (set_toggle key on db) ≡ get_toggle j seed db)
            × (get_secs j n (set_secs key secs db) ≡ get_secs j n db))
unfolding get_toggle set_toggle get_secs set_secs
settings_lem key j on seed secs n db h = (
  toggled on,
  ground (
    arith,
    get_setting-set_setting key key (show_ℕ secs) db,
    text_eq_refl key,
    parse_u64-show_ℕ secs h,
  ),
  λ ne. (
    ground
        (arith, get_setting-set_setting key j (if on then t "1" else t "0") db, text_eq_iff key j),
    ground (arith, get_setting-set_setting key j (show_ℕ secs) db, text_eq_iff key j),
  ),
)
  where
    zero_false : truthy (t "0") ≡ false
    zero_false = unfold truthy t text_eq to_ascii_lowercase in refl

    one_true : truthy (t "1") ≡ true
    one_true = unfold truthy t text_eq in refl

    toggled : (b : Bool) → get_toggle key seed (set_toggle key b db) ≡ b
    toggled true =
        ground (arith, get_setting-set_setting key key (t "1") db, text_eq_refl key, one_true)
    toggled false =
        ground (arith, get_setting-set_setting key key (t "0") db, text_eq_refl key, zero_false)
