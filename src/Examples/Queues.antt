-- ===== src/Examples/Queues.antt =====
-- The theorems on the pull queue, applied to two files of one drive.
use homeconnect.Prelude.{[], refl, some, ℕ, ◌∷◌, ◌≡◌}
use homeconnect.Prelude.Containers.{map_get, set_contains, set_insert}
use homeconnect.Prelude.Int.{pos}
use homeconnect.Prelude.Text.{text_eq}
use homeconnect.SyncQueue.{QueueItem, admit, enqueue, next, taken}
use homeconnect.SyncQueue.Spec.{SpecRun, handed_over, nothing, spec_of, taken_up, workers_refine}
use homeconnect.SyncQueue.Workers.{
  IsExclusive, System, after, here, produce, start, workers-IsExclusive,
}
use homeconnect.SyncQueue.Workers.{take}

abbrev item : ℕ → QueueItem
item k = record {
  dongle = 100 ∷ [];
  addr = 49 ∷ [];
  ts = 116 ∷ [];
  seg = pos k;
  file = 102 ∷ [];
  key = k ∷ [];
}

abbrev pulled : System
pulled = record { queue = (enqueue start.queue (item 1 ∷ item 2 ∷ item 1 ∷ [])).0; held = [] }

workers_example : IsExclusive pulled
workers_example = workers-IsExclusive (after here (produce (item 1 ∷ item 2 ∷ item 1 ∷ [])))

-- The first file is taken while the second waits.
abbrev working : System
working = record { queue = taken (item 1) (item 2 ∷ []) pulled.queue; held = (1 ∷ []) ∷ [] }

take_first : next pulled.queue ≡ some (item 1, working.queue)
unfolding next enqueue admit set_contains map_get text_eq set_insert
take_first = refl

workers_refine_example :
    SpecRun nothing
      (taken_up (item 1) ∷ handed_over (item 1 ∷ item 2 ∷ item 1 ∷ []) ∷ [])
      (spec_of working)
workers_refine_example = workers_refine (
    after (after here (produce (item 1 ∷ item 2 ∷ item 1 ∷ [])))
      (take (item 1) working.queue take_first))
