-- ===== src/SyncQueue/Spec.antt =====
-- src/sync_queue.rs with its workers, against a queue that keeps neither sets nor maps: the waiting files in their
-- order, and which keys are being worked on.
use homeconnect.Prelude.{
  Bool, List, [], ap, arith, false, is_some, none, not, refl, sym, true, ◌&&◌, ◌++◌, ◌||◌, ◌∷◌, ◌≡◌,
  ◌≢◌,
}
use homeconnect.Prelude.Containers.{get-insert, get-remove, map_get, set_remove}
use homeconnect.Prelude.Text.{Text, text_eq, text_eq_refl}
use homeconnect.SyncQueue.{QueueItem, done}
use homeconnect.SyncQueue.Invariant.{DistinctKeys, holds, next_cases}
use homeconnect.SyncQueue.Order.{Covers, enqueue_lem, fresh, with_key}
use homeconnect.SyncQueue.Workers.{
  IsExclusive, Reach, Step, System, active-enqueue, after, here, produce, start,
  workers-IsExclusive,
}
use mathlib.Core.Path.{subst}
use homeconnect.SyncQueue.Workers.{finish, take}

pub record Spec : Type 0 where
  pub waiting : List QueueItem
  pub busy : Text → Bool

abbrev pub known : Spec → Text → Bool
known a k = holds k a.waiting || a.busy k

-- What happens: files are handed over by a scan, a worker takes one, and it is done with it.
pub data Event : Type 0 where
  handed_over : List QueueItem → Event
  taken_up : QueueItem → Event
  done_with : Text → Event

-- New files join at the end, once each; the first is taken; one that is worked on is finished.
pub data SpecStep (a : Spec) : Event → Spec → Type 0 where
  joined :
      (items : List QueueItem)
      → SpecStep a (handed_over items) (record a { waiting = a.waiting ++ fresh (known a) items })
  started :
      (it : QueueItem) (rest : List QueueItem)
      → a.waiting ≡ it ∷ rest
      → known (record a { waiting = rest }) it.key ≡ false
      → SpecStep a (taken_up it) (record { waiting = rest; busy = with_key it.key a.busy })
  finished :
      (key : Text)
      → a.busy key ≡ true
      → SpecStep a (done_with key) (record a { busy = λ k. not (text_eq key k) && a.busy k })

-- A run with its events, the last one first.
pub data SpecRun (a : Spec) : List Event → Spec → Type 0 where
  at_rest : SpecRun a [] a
  then_step :
      {es : List Event} {e : Event} {b c : Spec}
      → SpecRun a es b
      → SpecStep b e c
      → SpecRun a (e ∷ es) c

abbrev pub event : {u v : System} → Step u v → Event
event (produce items) = handed_over items
event (take it q e) = taken_up it
event (finish key e) = done_with key

abbrev pub events : {u v : System} → Reach u v → List Event
events here = []
events (after r st) = event st ∷ events r

abbrev pub spec_of : System → Spec
spec_of y = record { waiting = y.queue.pending; busy = λ k. is_some (map_get k y.queue.active) }

abbrev pub nothing : Spec
nothing = record { waiting = []; busy = λ k. false }

same_spec :
    {p q : List QueueItem} {f g : Text → Bool}
    → p ≡ q
    → ((k : Text) → f k ≡ g k)
    → Path Spec (record { waiting = p; busy = f }) (record { waiting = q; busy = g })
same_spec e h i = record { waiting = e i; busy = λ k. h k i }

finish-SpecStep :
    (key : Text) (u : System)
    → map_get key u.queue.active ≢ none
    → SpecStep
        (spec_of u)
        (done_with key)
        (spec_of (record { queue = done key u.queue; held = set_remove key u.held }))
unfolding done
finish-SpecStep key u n =
    subst (SpecStep (spec_of u) (done_with key))
      (same_spec refl (λ k. ground (arith, get-remove key k u.queue.active)))
      (finished key (ground (arith, n)))

simulate :
    {u v : System} → IsExclusive u → (st : Step u v) → SpecStep (spec_of u) (event st) (spec_of v)
simulate {u} h (produce items) =
    let c : Covers (known (spec_of u)) u.queue = λ k. ground (arith, h.consistent.keys k) in
    let e = (enqueue_lem (known (spec_of u)) u.queue items c).0 in
    subst (SpecStep (spec_of u) (handed_over items))
      (same_spec (sym e)
        (λ k. ap (λ m. is_some (map_get k m)) (sym (active-enqueue u.queue items))))
      (joined items)
simulate {u} h (take it q e) =
    let (rest, p, e') = next_cases u.queue q it e in
    let d : DistinctKeys (it ∷ rest) = subst DistinctKeys p h.consistent.distinct in
    let idle : map_get it.key u.queue.active ≡ none =
      h.consistent.apart it.key (rw p (ground (arith, text_eq_refl it.key))) in
    subst (SpecStep (spec_of u) (taken_up it))
      (same_spec (sym (ap (λ s. s.pending) e'))
        (λ k. rw e' (ground (arith, get-insert it.key k (it.ts, it.file) u.queue.active))))
      (started it rest p (ground (arith, d.0, idle)))
simulate {u} h (finish key e) = finish-SpecStep key u (h.in_flight key e)

start_refines : SpecRun nothing [] (spec_of start)
unfolding map_get
start_refines = at_rest

-- Every run of the workers and the scans, from the empty queue, is a run of the plain queue with the same events in the
-- same order. So whatever is handed over joins at the end, and only if its key is neither waiting nor worked on; the file
-- that a worker takes is the one that has waited longest, and its key neither still waits nor is worked on; and only
-- what is worked on is finished.
pub workers_refine : {y : System} (r : Reach start y) → SpecRun nothing (events r) (spec_of y)
workers_refine here = start_refines
workers_refine (after r st) = then_step (workers_refine r) (simulate (workers-IsExclusive r) st)
