-- ===== src/DevSync/Passes.antt =====
-- src/devsync.rs: when devices are scanned: on connect, and in the periodic loop. A pass is modelled alone: what the
-- devices answer to `find`, by their addresses, is a parameter, and an error is only logged.
-- MIN_INTERVAL_SECS
use homeconnect.Access.{load_device}
use homeconnect.Athena.{ConnectionManager, end_sync, try_begin_sync}
use homeconnect.Db.{Db, Device}
use homeconnect.DevSync.{SyncOpts, parse_remote_path, scan, scan_file, scan_items}
use homeconnect.DevSync.Options.{get_interval, is_enabled}
use homeconnect.Prelude.{
  All, AppResult, Bool, Bool-cases, List, Option-cases, [], arith, false, if◌then◌else◌, inl, inr,
  is_empty, max, none, not, refl, result-cases, select, some, true, ℕ, ◌&&◌, ◌==◌, ◌∙◌, ◌∷◌, ◌≡◌,
}
use homeconnect.Prelude.Containers.{
  contains-insert, contains-remove, set_contains, set_insert, set_remove,
}
use homeconnect.Prelude.Int.{ℤ}
use homeconnect.Prelude.Text.{Text, text_eq_iff, trim}
use homeconnect.Settings.{Config}
use homeconnect.Storage.{blob_key}
use homeconnect.Subs.Vtt.{lines}
use homeconnect.SyncQueue.{Inner, QueueItem}
use homeconnect.SyncQueue.Order.{All-enqueue}

-- The part of AppState that a pass changes.
pub record Syncing : Type 0 where
  pub athena : ConnectionManager
  pub queue : Inner

abbrev pub default_opts : SyncOpts
default_opts = record { types = none; route = none }

abbrev pub min_interval_secs : ℕ
min_interval_secs = 10

-- A row of the table of devices.
pub data IsRow (d : Device) : List Device → Type 0 where
  at_head : {ds : List Device} → IsRow d (d ∷ ds)
  further : {e : Device} {ds : List Device} → IsRow d ds → IsRow d (e ∷ ds)

module _ (config : Config) (db : Db) (listing : Text → AppResult (List Text)) where
  scan_guarded : Device → Syncing → Syncing
  scan_guarded d s = record {
    athena = end_sync d.dongle_id s.athena;
    queue = (scan config db d default_opts (listing d.last_addr) s.queue).1;
  }

  unfoldable pub trigger : Text → Syncing → Syncing
  unfolding scan_guarded
  trigger dongle s =
      if not (is_enabled config db)
      then s
      else (let (began, guarded) = try_begin_sync dongle s.athena in
          let s' : Syncing = record s { athena = guarded } in
          if not began then s' else (elim (load_device db dongle) [
            | none ↦ record s' { athena = end_sync dongle guarded }
            | some device ↦ record {
              athena = end_sync dongle guarded;
              queue = (scan config db device default_opts (listing device.last_addr) s.queue).1;
            }
          ]))

  -- The body of the loop of `sync_all`.
  unfoldable pub sync_device : Device → Syncing → Syncing
  unfolding scan_guarded
  sync_device d s =
      let (began, guarded) = try_begin_sync d.dongle_id s.athena in
      let s' : Syncing = record s { athena = guarded } in
      if not began then s' else scan_guarded d s'

  -- WHERE last_addr != '' AND online = 1
  abbrev pub is_reachable : Device → Bool
  is_reachable d = not (is_empty d.last_addr) && d.online == 1

  sync_devices : List Device → Syncing → Syncing
  sync_devices [] s = s
  sync_devices (d ∷ ds) s = sync_devices ds (sync_device d s)

  unfoldable pub sync_all : Syncing → Syncing
  unfolding sync_devices
  sync_all s =
      if not (is_enabled config db) then s else sync_devices (select is_reachable db.devices) s

  -- One round of the periodic loop, with the seconds to sleep after it.
  unfoldable pub round : Syncing → Syncing × ℕ
  round s =
      let secs = get_interval config db in
      if secs == 0 then (s, 60) else (sync_all s, max secs min_interval_secs)

  -- An item that the device with its dongle, at its address, is asked for, under the key of its file.
  abbrev pub IsItemOf : Device → QueueItem → Type 0
  IsItemOf d it =
      (it.dongle ≡ d.dongle_id)
      × (it.addr ≡ d.last_addr)
      × (it.key ≡ blob_key it.dongle it.ts it.seg it.file)

  abbrev pub IsReachable : QueueItem → Type 0
  IsReachable it =
      (d : Device) × IsRow d db.devices
      × (d.online ≡ 1)
      × (is_empty d.last_addr ≡ false)
      × IsItemOf d it

  scan_file-IsItemOf :
      (d : Device) (p : Text × (ℤ × Text)) (it : QueueItem)
      → scan_file config db d default_opts p ≡ some it
      → IsItemOf d it
  unfolding scan_file
  scan_file-IsItemOf d (ts, (seg, file)) it h = ground (arith, h)

  scan_items-IsItemOf :
      (d : Device) (lines : List Text)
      → All (IsItemOf d) (scan_items config db d default_opts lines)
  unfolding scan_items
  scan_items-IsItemOf d [] = tt
  scan_items-IsItemOf d (line ∷ lines) = elim (Option-cases (parse_remote_path (trim line))) [
    | inl n ↦ rw (n, scan_items) (scan_items-IsItemOf d lines)
    | inr (p, n) ↦ elim (Option-cases (scan_file config db d default_opts p)) [
      | inl m ↦ rw (n, scan_items, m) (scan_items-IsItemOf d lines)
      | inr (it, m) ↦
          rw (n, scan_items, m) (scan_file-IsItemOf d p it m, scan_items-IsItemOf d lines)
    ]
  ]

  All-map :
      (P Q : QueueItem → Type 0) (xs : List QueueItem)
      → ((x : QueueItem) → P x → Q x)
      → All P xs
      → All Q xs
  All-map P Q [] f a = tt
  All-map P Q (x ∷ xs) f a = (f x a.0, All-map P Q xs f a.1)

  scan-IsReachable :
      (d : Device) (q : Inner)
      → IsRow d db.devices
      → d.online ≡ 1
      → All IsReachable q.pending
      → All IsReachable (scan config db d default_opts (listing d.last_addr) q).1.pending
  unfolding scan
  scan-IsReachable d q r o a = elim (Bool-cases (is_empty d.last_addr)) [
    | inl e ↦ rw (e, scan) a
    | inr e ↦ elim (result-cases (listing d.last_addr)) [
      | inr (x, m) ↦ rw (e, scan, m) a
      | inl (lines, m) ↦
          rw (e, scan, m)
            (All-enqueue IsReachable q (scan_items config db d default_opts lines) a (
              All-map (IsItemOf d) IsReachable (scan_items config db d default_opts lines)
                (λ it i. (d, r, o, e, i)) (scan_items-IsItemOf d lines)))
    ]
  ]

  -- What a pass keeps: the guards, and that what waits is asked of devices that are reachable.
  abbrev pub KeepsPass : Syncing → Syncing → Type 0
  KeepsPass s u =
      ((k : Text) → set_contains k u.athena.syncing ≡ set_contains k s.athena.syncing)
      × (All IsReachable s.queue.pending → All IsReachable u.queue.pending)

  released :
      (d k : Text) (syncing : List Text)
      → set_contains d syncing ≡ false
      → set_contains k (set_remove d (set_insert d syncing)) ≡ set_contains k syncing
  released d k syncing b = ground (
    arith,
    contains-remove d k (set_insert d syncing),
    contains-insert d k syncing,
    text_eq_iff d k,
    b,
  )

  sync_device-KeepsPass :
      (d : Device) (s : Syncing) → IsRow d db.devices → d.online ≡ 1 → KeepsPass s (sync_device d s)
  unfolding sync_device scan_guarded try_begin_sync end_sync
  sync_device-KeepsPass d s w o = elim (Bool-cases (set_contains d.dongle_id s.athena.syncing)) [
    | inl b ↦
        rw (b, sync_device)
          (
            λ k. ground (
              arith,
              contains-insert d.dongle_id k s.athena.syncing,
              text_eq_iff d.dongle_id k,
              b,
            ),
            λ a. a,
          )
    | inr b ↦
        rw (b, sync_device)
          (λ k. released d.dongle_id k s.athena.syncing b, λ a. scan-IsReachable d s.queue w o a)
  ]

  sync_devices-KeepsPass :
      (ds : List Device) (s : Syncing)
      → ((d : Device) → IsRow d ds → IsRow d db.devices)
      → KeepsPass s (sync_devices (select is_reachable ds) s)
  unfolding sync_devices
  sync_devices-KeepsPass [] s w = (λ k. refl, λ a. a)
  sync_devices-KeepsPass (d ∷ ds) s w = elim (Bool-cases (is_reachable d)) [
    | inl r ↦
        let (g, p) = sync_device-KeepsPass d s (w d at_head) (ground (arith, r)) in
        let (h, q) = sync_devices-KeepsPass ds (sync_device d s) (λ e i. w e (further i)) in
        rw (r) (λ k. h k ∙ g k, λ a. q (p a))
    | inr r ↦ rw (r) (sync_devices-KeepsPass ds s (λ e i. w e (further i)))
  ]

  -- A pass over the devices releases every guard that it takes and no other, whatever the devices answer; and if
  -- every waiting file is asked of a device of the table that is online and has an address, at that address and under
  -- the file's own key, then the same holds after the pass.
  pub sync_all_lem : (s : Syncing) → KeepsPass s (sync_all s)
  unfolding sync_all
  sync_all_lem s = elim (Bool-cases (is_enabled config db)) [
    | inl e ↦ rw (e, sync_all) (sync_devices-KeepsPass db.devices s (λ d i. i))
    | inr e ↦ rw (e, sync_all) (λ k. refl, λ a. a)
  ]

  -- However the connect trigger ends, it leaves the guards as they were; and it queues nothing for a device that is
  -- being scanned already.
  pub trigger_lem :
      (dongle : Text) (s : Syncing)
      → ((k : Text)
          → set_contains k (trigger dongle s).athena.syncing ≡ set_contains k s.athena.syncing)
        × (set_contains dongle s.athena.syncing ≡ true → (trigger dongle s).queue ≡ s.queue)
  unfolding trigger try_begin_sync end_sync
  trigger_lem dongle s = elim (Bool-cases (is_enabled config db)) [
    | inr e ↦ rw (e, trigger) (λ k. refl, λ h. refl)
    | inl e ↦ elim (Bool-cases (set_contains dongle s.athena.syncing)) [
      | inl b ↦
          rw (e, trigger, b)
            (
              λ k.
                  ground
                    (arith, contains-insert dongle k s.athena.syncing, text_eq_iff dongle k, b),
              λ h. refl,
            )
      | inr b ↦ elim (Option-cases (load_device db dongle)) [
        | inl n ↦
            rw (e, trigger, b, n)
              (λ k. released dongle k s.athena.syncing b, λ h. ground (arith, h))
        | inr (d, n) ↦
            rw (e, trigger, b, n)
              (λ k. released dongle k s.athena.syncing b, λ h. ground (arith, h))
      ]
    ]
  ]
