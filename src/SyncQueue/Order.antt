-- ===== src/SyncQueue/Order.antt =====
-- What `enqueue` adds, and the order in which the queue is served.
use homeconnect.Prelude.{
  All, Bool, Bool-cases, List, [], ap, arith, if◌then◌else◌, inl, inr, is_some, length, none, refl,
  some, suc, sym, true, zero, ℕ, ◌++◌, ◌+◌, ◌||◌, ◌∙◌, ◌∷◌, ◌≡◌,
}
use homeconnect.Prelude.Containers.{contains-insert, map_get, set_contains, set_insert}
use homeconnect.Prelude.Text.{Text, text_eq}
use homeconnect.SyncQueue.{Inner, QueueItem, admit, done, enqueue, enqueue_from, next, taken}
use mathlib.Core.Path.{subst}
use mathlib.Core.List.{append-nil, append_assoc}

-- A predicate on keys, with one key more.
abbrev pub with_key : Text → (Text → Bool) → Text → Bool
with_key key seen k = text_eq key k || seen k

-- The items that are new: not of a key in `seen`, and the first of their key.
pub fresh : (Text → Bool) → List QueueItem → List QueueItem
fresh seen [] = []
fresh seen (it ∷ items) =
    let rest = fresh seen items in
    let rest' = fresh (with_key it.key seen) items in if seen it.key then rest else it ∷ rest'

abbrev pub Covers : (Text → Bool) → Inner → Type 0
Covers seen s =
    (k : Text)
    → seen k ≡ (if set_contains k s.pending_keys then true else is_some (map_get k s.active))

enqueue_from_lem :
    (seen : Text → Bool) (s : Inner) (n : ℕ) (items : List QueueItem)
    → Covers seen s
    → ((enqueue_from (s, n) items).0.pending ≡ s.pending ++ fresh seen items)
      × ((enqueue_from (s, n) items).1 ≡ n + length (fresh seen items))
unfolding enqueue_from fresh
enqueue_from_lem seen s n [] c = (ground (arith, append-nil s.pending), omega arith)
enqueue_from_lem seen s n (it ∷ items) c = elim (Bool-cases (seen it.key)) [
  | inl old ↦
      let e : admit it (s, n) ≡ (s, n) = unfold admit in ground (arith, c it.key, old) in
      rw (old, e, enqueue_from) (enqueue_from_lem seen s n items c)
  | inr new ↦
      let s' : Inner = record s {
        pending_keys = set_insert it.key s.pending_keys;
        pending = s.pending ++ it ∷ [];
      } in
      let e : admit it (s, n) ≡ (s', n + 1) = unfold admit in ground (arith, c it.key, new) in
      let c' : Covers (with_key it.key seen) s' =
        λ k. ground (arith, c k, contains-insert it.key k s.pending_keys) in
      let (p, q) = enqueue_from_lem (with_key it.key seen) s' (n + 1) items c' in
      rw (new, e, enqueue_from)
        (
          p ∙ append_assoc s.pending (it ∷ []) (fresh (with_key it.key seen) items),
          omega (arith, q),
        )
]

-- `enqueue` appends to the pending files, in their order, exactly the items whose key is neither
-- pending nor in flight, each key once, and returns how many those are; `seen` tells the keys that are
-- pending or in flight.
pub enqueue_lem :
    (seen : Text → Bool) (s : Inner) (items : List QueueItem)
    → Covers seen s
    → ((enqueue s items).0.pending ≡ s.pending ++ fresh seen items)
      × ((enqueue s items).1 ≡ length (fresh seen items))
unfolding enqueue
enqueue_lem seen s items c = let (p, q) = enqueue_from_lem seen s 0 items c in (p, omega (arith, q))

All-fresh :
    (P : QueueItem → Type 0) (seen : Text → Bool) (items : List QueueItem)
    → All P items
    → All P (fresh seen items)
unfolding fresh
All-fresh P seen [] a = tt
All-fresh P seen (it ∷ items) a = elim (Bool-cases (seen it.key)) [
  | inl e ↦ rw (e, fresh) (All-fresh P seen items a.1)
  | inr e ↦ rw (e, fresh) (a.0, All-fresh P (with_key it.key seen) items a.1)
]

All-append :
    (P : QueueItem → Type 0) (xs ys : List QueueItem) → All P xs → All P ys → All P (xs ++ ys)
All-append P [] ys a b = b
All-append P (x ∷ xs) ys a b = (a.0, All-append P xs ys a.1 b)

pub All-enqueue :
    (P : QueueItem → Type 0) (q : Inner) (items : List QueueItem)
    → All P q.pending
    → All P items
    → All P (enqueue q items).0.pending
All-enqueue P q items a b =
    let seen : Text → Bool =
      λ k. if set_contains k q.pending_keys then true else is_some (map_get k q.active) in
    subst (All P) (sym (enqueue_lem seen q items (λ k. refl)).0)
      (All-append P q.pending (fresh seen items) a (All-fresh P seen items b))

-- One worker alone: it takes and finishes a file, until nothing is pending or the fuel is used up.
pub drain : ℕ → Inner → List QueueItem × Inner
drain zero s = ([], s)
drain (suc f) s = elim (next s) [
  | none ↦ ([], s)
  | some (it, s') ↦ let (its, s'') = drain f (done it.key s') in (it ∷ its, s'')
]

drain_of :
    (p : List QueueItem) (s : Inner)
    → s.pending ≡ p
    → ((drain (length p) s).0 ≡ p) × ((drain (length p) s).1.pending ≡ [])
unfolding drain
drain_of [] s e = (refl, e)
drain_of (it ∷ rest) s e =
    let h : next s ≡ some (it, taken it rest s) = unfold next in rw e in
    let (a, b) = drain_of rest (done it.key (taken it rest s)) (unfold done in refl) in
    rw (h, drain) (ap (λ its. it ∷ its) a, b)

-- A worker that runs alone serves every pending file, in the order in which they were enqueued, and
-- leaves none pending, with as many rounds as there are pending files.
pub drain_fifo :
    (s : Inner)
    → ((drain (length s.pending) s).0 ≡ s.pending) × ((drain (length s.pending) s).1.pending ≡ [])
drain_fifo s = drain_of s.pending s refl
