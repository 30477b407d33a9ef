-- ===== src/Pairing/Owners.antt =====
-- Claims of a device: alone, and two at once.
use homeconnect.Access.{can_manage_device}
use homeconnect.Access.Rules.{can_manage_device_lem}
use homeconnect.Db.{Db, Device, User, device_by_dongle, insert_share, is_shared}
use homeconnect.Db.Keys.{is_shared-insert_share}
use homeconnect.Pairing.{claim_check, claim_device, claim_writes, set_first_owner}
use homeconnect.Prelude.{
  Bool-cases, arith, err, false, find, find-update_where, find_sound, forbidden, if◌then◌else◌, inl,
  inr, is_none, none, ok, refl, some, true, ℕ, ◌&&◌, ◌≡◌, ◌≢◌,
}
use homeconnect.Prelude.Text.{Text, t, text_eq, text_eq_refl}

claim_read :
    (i : ℕ) (dongle : Text) (db : Db) (d : Device)
    → device_by_dongle dongle db ≡ some d
    → device_by_dongle dongle (claim_writes i dongle db)
      ≡ some (if is_none d.owner_id then record d { owner_id = some i } else d)
unfolding claim_writes device_by_dongle insert_share
claim_read i dongle db d h = elim (Bool-cases (is_shared i dongle (set_first_owner i dongle db))) [
  | inl y ↦ rw (y, insert_share) read
  | inr n ↦ rw (n, insert_share) read
]
  where
    read :
        find (λ (e : Device). text_eq e.dongle_id dongle) (set_first_owner i dongle db).devices
        ≡ some (if is_none d.owner_id then record d { owner_id = some i } else d)
    read =
        let s = find_sound (λ (e : Device). text_eq e.dongle_id dongle) db.devices h in
        ground (
          arith,
          s,
          h,
          find-update_where (λ (e : Device). text_eq e.dongle_id dongle)
              (λ (e : Device). text_eq e.dongle_id dongle && is_none e.owner_id)
              (λ e. record e { owner_id = some i }) db.devices (λ e. refl),
        )

-- Claims one after the other: after a user has claimed a device that had no owner they own it, a second
-- claim of theirs says so and changes nothing, and the claim of another user is Forbidden and changes
-- nothing.
pub claim_device_lem :
    (i j : ℕ) (dongle : Text) (db : Db) (d : Device)
    → i ≢ j
    → device_by_dongle dongle db ≡ some d
    → d.owner_id ≡ none
    → (device_by_dongle dongle (claim_device i dongle db).1 ≡ some (record d { owner_id = some i }))
      × (claim_device i dongle (claim_device i dongle db).1
          ≡ (ok true, (claim_device i dongle db).1))
      × (claim_device j dongle (claim_device i dongle db).1
          ≡ (err (forbidden (t "device already paired")), (claim_device i dongle db).1))
unfolding claim_device claim_check
claim_device_lem i j dongle db d n h o =
    let e : (claim_device i dongle db).1 ≡ claim_writes i dongle db = ground (arith, h, o) in
    let r : device_by_dongle dongle (claim_writes i dongle db)
        ≡ some (record d { owner_id = some i }) =
      ground (arith, claim_read i dongle db d h, o) in
    (rw e r, rw e (ground (arith, r)), rw e (ground (arith, r, n)))

-- Two claims at once: when both users' checks run before the writes of either, both pass, the first writer
-- becomes the owner, and the second, who does not, still may manage the device.
pub claims_race :
    (i : ℕ) (u : User) (dongle : Text) (db : Db) (d : Device)
    → i ≢ u.id
    → device_by_dongle dongle db ≡ some d
    → d.dongle_id ≡ dongle
    → d.owner_id ≡ none
    → (claim_check i dongle db ≡ ok false)
      × (claim_check u.id dongle db ≡ ok false)
      × (device_by_dongle dongle (claim_writes u.id dongle (claim_writes i dongle db))
          ≡ some (record d { owner_id = some i }))
      × (can_manage_device (claim_writes u.id dongle (claim_writes i dongle db)) u dongle
          ≡ ok (record d { owner_id = some i }))
unfolding claim_check
claims_race i u dongle db d n h name o =
    let mid : Db = claim_writes i dongle db in
    let last_db : Db = claim_writes u.id dongle mid in
    let r : device_by_dongle dongle mid ≡ some (record d { owner_id = some i }) =
      ground (arith, claim_read i dongle db d h, o) in
    let q : device_by_dongle dongle last_db ≡ some (record d { owner_id = some i }) =
      claim_read u.id dongle mid (record d { owner_id = some i }) r in
    let s : is_shared u.id d.dongle_id last_db ≡ true = rw name (
      unfold claim_writes in
      ground (
        arith,
        is_shared-insert_share u.id u.id dongle dongle (set_first_owner u.id dongle mid),
        text_eq_refl dongle,
      )) in
    (
      ground (arith, h, o),
      ground (arith, h, o),
      q,
      (can_manage_device_lem last_db u dongle).1 (record d { owner_id = some i }) q (inr (inr s)),
    )
