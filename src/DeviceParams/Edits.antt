-- ===== src/DeviceParams/Edits.antt =====
-- Edits that wait for the device: what a refresh keeps, and an edit that is lost.
-- The row of a key after an upsert.
use homeconnect.Db.{Db, Param}
use homeconnect.DeviceParams.{
  cache_set, clear_pending, flush_one, is_param, is_writable, refresh, refresh_one, upsert_param,
}
use homeconnect.Prelude.{
  Bool, Bool-cases, List, Option, [], ap, arith, find, find-update_where, find_sound, if◌then◌else◌,
  inl, inr, none, refl, some, true, update_where, ℕ, ◌==◌, ◌∙◌, ◌∷◌, ◌≡◌,
}
use homeconnect.Prelude.Int.{ℤ}
use homeconnect.Prelude.Text.{Text, text_eq_refl}

upserted : Param → (Param → Param) → Option Param → Param
upserted new f none = new
upserted new f (some p) = f p

find-upsert_param :
    (new : Param) (f : Param → Param) (ps : List Param)
    → ((p : Param) → is_param new.dongle_id new.key (f p) ≡ is_param new.dongle_id new.key p)
    → find (is_param new.dongle_id new.key) (upsert_param new f ps)
      ≡ some (upserted new f (find (is_param new.dongle_id new.key) ps))
unfolding upsert_param upserted
find-upsert_param new f [] h = ground (arith, text_eq_refl new.dongle_id, text_eq_refl new.key)
find-upsert_param new f (p ∷ ps) h = elim (Bool-cases (is_param new.dongle_id new.key p)) [
  | inl y ↦ rw (y, upsert_param) (ground (arith, h p, y))
  | inr n ↦ rw (n, upsert_param) (rw n (find-upsert_param new f ps h))
]

refreshed : ℤ → Text → Param → Param
refreshed now value p = if p.pending == 0 then record p { value = value; updated_at = now } else p

refreshed_param :
    (now : ℤ) (value dongle key : Text) (p : Param)
    → is_param dongle key (refreshed now value p) ≡ is_param dongle key p
unfolding refreshed
refreshed_param now value dongle key p = ground arith

pending_kept :
    (new : Param) (now : ℤ) (value dongle key : Text) (ps : List Param) (p : Param)
    → find (is_param dongle key) ps ≡ some p
    → p.pending ≡ 1
    → find (is_param dongle key) (upsert_param new (refreshed now value) ps) ≡ some p
unfolding upsert_param refreshed
pending_kept new now value dongle key [] p h e = ground arith
pending_kept new now value dongle key (q ∷ ps) p h e =
    elim (Bool-cases (is_param new.dongle_id new.key q)) [
      | inl y ↦
          rw (y, upsert_param)
            (elim (Bool-cases (is_param dongle key q)) [
              | inl z ↦
                  let same : q ≡ p = ground (arith, z, h) in
                  let busy : q.pending ≡ 1 = ap (λ (x : Param). x.pending) same ∙ e in
                  ground (arith, z, h, busy)
              | inr z ↦ ground (arith, z, h)
            ])
      | inr n ↦
          rw (n, upsert_param)
            (elim (Bool-cases (is_param dongle key q)) [
              | inl z ↦ ground (arith, z, h)
              | inr z ↦
                  ground
                    (arith, z, pending_kept new now value dongle key ps p (ground (arith, z, h)) e)
            ])
    ]

-- A refresh from the device leaves every edit that still waits as it is, whatever the device answers.
pub refresh_keeps_pending :
    (now : ℤ) (dongle from_dongle key : Text) (actual : List (Text × Text)) (db : Db) (p : Param)
    → find (is_param dongle key) db.device_params ≡ some p
    → p.pending ≡ 1
    → find (is_param dongle key) (refresh now from_dongle actual db).device_params ≡ some p
unfolding refresh refresh_one refreshed
refresh_keeps_pending now dongle from_dongle key [] db p h e = h
refresh_keeps_pending now dongle from_dongle key ((k, v) ∷ actual) db p h e =
    refresh_keeps_pending now dongle from_dongle key actual (refresh_one now from_dongle k v db) p
      (pending_kept
        (record { dongle_id = from_dongle; key = k; value = v; pending = 0; updated_at = now }) now
        v dongle key db.device_params p h e)
      e

-- An edit that arrives while a flush writes the value before it is lost: if that value may be written
-- and the device takes it, the flush clears the mark of the newer edit, and the refresh that then
-- reads the device's value puts it back, with no edit waiting.
pub edit_lost :
    (written : Text → Text → Bool) (now later : ℤ) (n : ℕ) (dongle key old new : Text) (db : Db)
    → is_writable key old ≡ true
    → written key old ≡ true
    → (q : Param) × (find
          (is_param dongle key)
          (refresh_one later dongle key old
            (flush_one written dongle key old (n, cache_set now dongle key new db)).1).device_params
        ≡ some q)
      × (q.value ≡ old)
      × (q.pending ≡ 0)
unfolding flush_one refresh_one refreshed cache_set clear_pending
edit_lost written now later n dongle key old new db w d =
    let edited : Param = record {
      dongle_id = dongle;
      key = key;
      value = new;
      pending = 1;
      updated_at = now;
    } in
    let fresh_row : Param = record {
      dongle_id = dongle;
      key = key;
      value = old;
      pending = 0;
      updated_at = later;
    } in
    let f : Param → Param = λ p. record p { value = new; pending = 1; updated_at = now } in
    let c : Param → Param = λ p. record p { pending = 0 } in
    let r : Param = upserted edited f (find (is_param dongle key) db.device_params) in
    let a = find-upsert_param edited f db.device_params (λ p. refl) in
    let cleared : List Param =
      update_where (is_param dongle key) c (upsert_param edited f db.device_params) in
    let b : find (is_param dongle key) cleared ≡ some (c r) =
      rw
        (
          find-update_where (is_param dongle key) (is_param dongle key) c
              (upsert_param edited f db.device_params) (λ p. refl),
          a,
          find_sound (is_param dongle key) (upsert_param edited f db.device_params) a,
        )
        refl in
    let z =
      find-upsert_param fresh_row (refreshed later old) cleared
        (λ p. refreshed_param later old dongle key p) in
    (
      refreshed later old (c r),
      rw (w, d, flush_one) (z ∙ rw b (unfold upserted in refl)),
      refl,
      refl,
    )
