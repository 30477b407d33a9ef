-- ===== src/SyncQueue/Workers.antt =====
-- The workers of `spawn_workers` in src/devsync.rs, interleaved with the scans that enqueue: each of
-- their calls of the queue is one step. `held` lists the keys that workers are processing.
use homeconnect.Prelude.{
  Bool-cases, List, [], arith, false, if◌then◌else◌, inl, inr, none, refl, some, true, ℕ, ◌∙◌, ◌∷◌,
  ◌≡◌, ◌≢◌,
}
use homeconnect.Prelude.Containers.{
  contains-remove, get-insert, get-remove, map_get, set_contains, set_remove,
}
use homeconnect.Prelude.Text.{Text, text_eq, text_eq_iff, text_eq_refl}
use homeconnect.SyncQueue.{Inner, QueueItem, admit, default, done, enqueue, enqueue_from, next}
use homeconnect.SyncQueue.Invariant.{
  IsConsistent, done-IsConsistent, enqueue-IsConsistent, next-IsConsistent, next_cases,
}

pub record System : Type 0 where
  pub queue : Inner
  pub held : List Text

pub data Step (y : System) : System → Type 0 where
  produce : (items : List QueueItem) → Step y (record y { queue = (enqueue y.queue items).0 })
  take :
      (it : QueueItem) (q : Inner)
      → next y.queue ≡ some (it, q)
      → Step y (record { queue = q; held = it.key ∷ y.held })
  finish :
      (key : Text)
      → set_contains key y.held ≡ true
      → Step y (record { queue = done key y.queue; held = set_remove key y.held })

pub data Reach (y : System) : System → Type 0 where
  here : Reach y y
  after : {u v : System} → Reach y u → Step u v → Reach y v

abbrev pub DistinctTexts : List Text → Type 0
DistinctTexts [] = Unit {0}
DistinctTexts (k ∷ ks) = (set_contains k ks ≡ false) × DistinctTexts ks

-- No two workers hold one key, and what a worker holds is in flight and not pending.
pub record IsExclusive (y : System) : Type 0 where
  pub consistent : IsConsistent y.queue
  pub distinct : DistinctTexts y.held
  pub in_flight : (k : Text) → set_contains k y.held ≡ true → map_get k y.queue.active ≢ none

DistinctTexts-remove :
    (key : Text) (ks : List Text) → DistinctTexts ks → DistinctTexts (set_remove key ks)
unfolding set_remove
DistinctTexts-remove key [] d = tt
DistinctTexts-remove key (k ∷ ks) d =
    ground (arith, DistinctTexts-remove key ks d.1, contains-remove key k ks)

active-enqueue_from :
    (acc : Inner × ℕ) (items : List QueueItem) → (enqueue_from acc items).0.active ≡ acc.0.active
unfolding enqueue_from admit
active-enqueue_from acc [] = refl
active-enqueue_from (s, n) (it ∷ items) = active-enqueue_from (admit it (s, n)) items ∙ ground arith

pub active-enqueue : (s : Inner) (items : List QueueItem) → (enqueue s items).0.active ≡ s.active
unfolding enqueue
active-enqueue s items = active-enqueue_from (s, 0) items

contains-head :
    (j k : Text) (ks : List Text)
    → set_contains k (j ∷ ks) ≡ (if text_eq j k then true else set_contains k ks)
unfolding set_contains
contains-head j k ks = ground arith

Step-IsExclusive : {u v : System} → Step u v → IsExclusive u → IsExclusive v
Step-IsExclusive {u} (produce items) h = record {
  consistent = enqueue-IsConsistent u.queue items h.consistent;
  distinct = h.distinct;
  in_flight = λ k e. rw (active-enqueue u.queue items) (h.in_flight k e);
}
Step-IsExclusive {u} (take it q e) h =
    let (rest, p, e') = next_cases u.queue q it e in
    let idle : map_get it.key u.queue.active ≡ none =
      h.consistent.apart it.key (rw p (ground (arith, text_eq_refl it.key))) in
    record {
      consistent = next-IsConsistent u.queue q it e h.consistent;
      distinct = (
        elim (Bool-cases (set_contains it.key u.held)) [
          | inl b ↦ absurd (h.in_flight it.key b idle)
          | inr b ↦ b
        ],
        h.distinct,
      );
      in_flight = λ k b. rw e' (
          ground (
            arith,
            get-insert it.key k (it.ts, it.file) u.queue.active,
            h.in_flight k,
            text_eq_iff it.key k,
            contains-head it.key k u.held,
          ));
    }
Step-IsExclusive {u} (finish key e) h = record {
  consistent = done-IsConsistent key u.queue h.consistent;
  distinct = DistinctTexts-remove key u.held h.distinct;
  in_flight = λ k b.
      unfold done in
      ground (arith, contains-remove key k u.held, get-remove key k u.queue.active, h.in_flight k);
}

Reach-IsExclusive : {u v : System} → IsExclusive u → Reach u v → IsExclusive v
Reach-IsExclusive h here = h
Reach-IsExclusive h (after r st) = Step-IsExclusive st (Reach-IsExclusive h r)

abbrev pub start : System
start = record { queue = default; held = [] }

start-IsExclusive : IsExclusive start
unfolding set_contains
start-IsExclusive = record {
  consistent = record { keys = λ k. refl; distinct = tt; apart = λ k h. ground arith };
  distinct = tt;
  in_flight = λ k h. ground arith;
}

-- Whatever the order in which scans enqueue and workers take and finish files, starting from the
-- empty queue: no key is held by two workers, a held key is in flight in the queue and not pending,
-- and no key is pending twice.
pub workers-IsExclusive : {y : System} → Reach start y → IsExclusive y
workers-IsExclusive r = Reach-IsExclusive start-IsExclusive r
