-- ===== src/Athena/Liveness.antt =====
-- When a device counts as online, and the slot of a sync.
use homeconnect.Athena.{ConnectionManager, end_sync, is_stale, reap, try_begin_sync}
use homeconnect.Db.{Db, Device, device_by_dongle}
use homeconnect.Prelude.{
  arith, false, find-update_where, if◌then◌else◌, refl, some, true, ◌↔◌, ◌≡◌, ◌≢◌, ◌≤◌,
}
use homeconnect.Prelude.Containers.{contains-insert, contains-remove, set_insert}
use homeconnect.Prelude.Int.{pos, ℤ, ◌-ℤ◌, ◌≤ℤ◌}
use homeconnect.Prelude.Text.{Text, text_eq, text_eq_iff, text_eq_refl}

-- For a device of the table whose online flag is 0 or 1, a tick of the reaper leaves the flag set
-- exactly if it was set and the device was heard from within the last 30 seconds, and does not change
-- the time of its last frame.
pub reap_lem :
    (now : ℤ) (dongle : Text) (db : Db) (d : Device)
    → device_by_dongle dongle db ≡ some d
    → d.online ≤ 1
    → (e : Device) × (device_by_dongle dongle (reap now db) ≡ some e)
      × ((e.online ≡ 1) ↔ ((d.online ≡ 1) × (now -ℤ pos 30 ≤ℤ d.last_athena_ping)))
      × (e.last_athena_ping ≡ d.last_athena_ping)
unfolding reap device_by_dongle
reap_lem now dongle db d h w = (
  (if is_stale now d then record d { online = 0 } else d),
  rw
      (
        find-update_where (λ (d : Device). text_eq d.dongle_id dongle) (is_stale now)
            (λ d. record d { online = 0 }) db.devices (λ x. refl),
        h,
      )
      refl,
  (λ e. ground arith, λ e. ground arith),
  ground arith,
)

-- A sync of a device begins only if none is running: after a claim that succeeded every further claim fails
-- until the slot is given back, claims for other devices do not matter, and then a claim succeeds again.
pub try_begin_sync_lem :
    (dongle j : Text) (s : ConnectionManager)
    → dongle ≢ j
    → ((try_begin_sync dongle (try_begin_sync dongle s).1).0 ≡ false)
      × ((try_begin_sync dongle (end_sync dongle (try_begin_sync dongle s).1)).0 ≡ true)
      × ((try_begin_sync j (try_begin_sync dongle s).1).0 ≡ (try_begin_sync j s).0)
      × ((try_begin_sync j (end_sync dongle s)).0 ≡ (try_begin_sync j s).0)
unfolding try_begin_sync end_sync
try_begin_sync_lem dongle j s n = (
  ground (arith, contains-insert dongle dongle s.syncing, text_eq_refl dongle),
  ground (arith, contains-remove dongle dongle (set_insert dongle s.syncing), text_eq_refl dongle),
  ground (arith, contains-insert dongle j s.syncing, text_eq_iff dongle j, n),
  ground (arith, contains-remove dongle j s.syncing, text_eq_iff dongle j, n),
)
