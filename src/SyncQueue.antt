-- ===== src/SyncQueue.antt =====
-- src/sync_queue.rs: the in-memory work queue of the SSH pull. The mutex makes each operation one
-- step; waking a waiter has no effect on the queue's content, so `next` is its successful round.
pub mod Invariant
pub mod Workers
pub mod Order
pub mod Spec
use homeconnect.Prelude.{
  Bool, List, Option, [], false, if◌then◌else◌, is_some, length, map, none, some, true, ℕ, ◌++◌,
  ◌+◌, ◌||◌, ◌∷◌,
}
use homeconnect.Prelude.Containers.{
  map_get, map_insert, map_remove, set_contains, set_insert, set_remove,
}
use homeconnect.Prelude.Int.{ℤ}
use homeconnect.Prelude.Text.{Text}

pub record QueueItem : Type 0 where
  pub dongle : Text
  pub addr : Text
  pub ts : Text
  pub seg : ℤ
  pub file : Text
  pub key : Text

-- `active` maps a key to its route and file.
pub record Inner : Type 0 where
  pub pending : List QueueItem
  pub pending_keys : List Text
  pub active : List (Text × (Text × Text))

abbrev pub default : Inner
default = record { pending = []; pending_keys = []; active = [] }

-- The body of the loop of `enqueue`, with the count of the items that were added.
unfoldable pub admit : QueueItem → Inner × ℕ → Inner × ℕ
admit it (s, added) =
    if set_contains it.key s.pending_keys || is_some (map_get it.key s.active)
    then (s, added)
    else (
      record s { pending_keys = set_insert it.key s.pending_keys; pending = s.pending ++ it ∷ [] },
      added + 1,
    )

enqueue_from : Inner × ℕ → List QueueItem → Inner × ℕ
enqueue_from acc [] = acc
enqueue_from acc (it ∷ items) = enqueue_from (admit it acc) items

unfoldable pub enqueue : Inner → List QueueItem → Inner × ℕ
unfolding enqueue_from
enqueue s items = enqueue_from (s, 0) items

-- The state in which a worker leaves the queue when it takes its front.
abbrev pub taken : QueueItem → List QueueItem → Inner → Inner
taken it rest s = record {
  pending = rest;
  pending_keys = set_remove it.key s.pending_keys;
  active = map_insert it.key (it.ts, it.file) s.active;
}

take_front : List QueueItem → Inner → Option (QueueItem × Inner)
take_front [] s = none
take_front (it ∷ rest) s = some (it, taken it rest s)

-- `none` where the source waits.
unfoldable pub next : Inner → Option (QueueItem × Inner)
unfolding take_front
next s = take_front s.pending s

unfoldable pub done : Text → Inner → Inner
done key s = record s { active = map_remove key s.active }

-- the set of routes that `stats` fills
insert_all : List Text → List Text → List Text
insert_all drives [] = drives
insert_all drives (ts ∷ more) = insert_all (set_insert ts drives) more

unfoldable pub stats : Inner → ℕ × ℕ
unfolding insert_all
stats s = (
  length (
      insert_all (insert_all [] (map (λ (it : QueueItem). it.ts) s.pending))
        (map (λ (e : Text × (Text × Text)). e.1.0) s.active)),
  length s.pending + length s.active,
)

unfoldable pub detail : Inner → List (Text × (Text × Bool))
detail s =
    map (λ (e : Text × (Text × Text)). (e.1.0, (e.1.1, true))) s.active
    ++ map (λ (it : QueueItem). (it.ts, (it.file, false))) s.pending
