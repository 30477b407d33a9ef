-- ===== src/SyncQueue/Invariant.antt =====
-- The queue's invariant: a key is pending at most once, and never pending and in flight at once.
use homeconnect.Prelude.{
  Bool, Bool-cases, List, [], ap, arith, false, if◌then◌else◌, inl, inr, is_some, none, refl, some,
  true, ℕ, ◌++◌, ◌||◌, ◌∙◌, ◌∷◌, ◌≡◌,
}
use homeconnect.Prelude.Containers.{
  contains-insert, contains-remove, get-insert, get-remove, map_get, set_contains,
}
use homeconnect.Prelude.Text.{Text, text_eq, text_eq_iff}
use homeconnect.SyncQueue.{
  Inner, QueueItem, admit, done, enqueue, enqueue_from, next, take_front, taken,
}
use mathlib.Core.Path.{subst}

-- Is `k` the key of an item of the list?
abbrev pub holds : Text → List QueueItem → Bool
holds k [] = false
holds k (it ∷ items) = text_eq it.key k || holds k items

abbrev pub DistinctKeys : List QueueItem → Type 0
DistinctKeys [] = Unit {0}
DistinctKeys (it ∷ items) = (holds it.key items ≡ false) × DistinctKeys items

pub record IsConsistent (s : Inner) : Type 0 where
  pub keys : (k : Text) → set_contains k s.pending_keys ≡ holds k s.pending
  pub distinct : DistinctKeys s.pending
  pub apart : (k : Text) → holds k s.pending ≡ true → map_get k s.active ≡ none

pub holds-append :
    (k : Text) (xs : List QueueItem) (it : QueueItem)
    → holds k (xs ++ it ∷ []) ≡ (if text_eq it.key k then true else holds k xs)
holds-append k [] it = ground arith
holds-append k (x ∷ xs) it = ground (arith, holds-append k xs it)

DistinctKeys-append :
    (xs : List QueueItem) (it : QueueItem)
    → DistinctKeys xs
    → holds it.key xs ≡ false
    → DistinctKeys (xs ++ it ∷ [])
DistinctKeys-append [] it d h = (refl, tt)
DistinctKeys-append (x ∷ xs) it d h = (
  ground (arith, holds-append x.key xs it, text_eq_iff it.key x.key, text_eq_iff x.key it.key),
  DistinctKeys-append xs it d.1 (ground arith),
)

pub admit-IsConsistent :
    (it : QueueItem) (s : Inner) (n : ℕ) → IsConsistent s → IsConsistent (admit it (s, n)).0
unfolding admit
admit-IsConsistent it s n v =
    elim (Bool-cases (set_contains it.key s.pending_keys || is_some (map_get it.key s.active))) [
      | inl old ↦ rw (old, admit) v
      | inr new ↦
          rw (new, admit)
            (record {
              keys = λ k. ground (
                arith,
                contains-insert it.key k s.pending_keys,
                holds-append k s.pending it,
                v.keys k,
              );
              distinct =
                  DistinctKeys-append s.pending it v.distinct (ground (arith, v.keys it.key));
              apart = λ k h.
                  ground (arith, holds-append k s.pending it, v.apart k, text_eq_iff it.key k);
            })
    ]

enqueue_from-IsConsistent :
    (acc : Inner × ℕ) (items : List QueueItem)
    → IsConsistent acc.0
    → IsConsistent (enqueue_from acc items).0
unfolding enqueue_from
enqueue_from-IsConsistent acc [] v = v
enqueue_from-IsConsistent (s, n) (it ∷ items) v =
    enqueue_from-IsConsistent (admit it (s, n)) items (admit-IsConsistent it s n v)

pub enqueue-IsConsistent :
    (s : Inner) (items : List QueueItem) → IsConsistent s → IsConsistent (enqueue s items).0
unfolding enqueue
enqueue-IsConsistent s items v = enqueue_from-IsConsistent (s, 0) items v

next_cases_of :
    (p : List QueueItem) (s s' : Inner) (it : QueueItem)
    → take_front p s ≡ some (it, s')
    → (rest : List QueueItem) × (p ≡ it ∷ rest) × (s' ≡ taken it rest s)
unfolding take_front
next_cases_of [] s s' it h = ground arith
next_cases_of (x ∷ rest) s s' it h = (rest, ground arith, ground arith)

pub next_cases :
    (s s' : Inner) (it : QueueItem)
    → next s ≡ some (it, s')
    → (rest : List QueueItem) × (s.pending ≡ it ∷ rest) × (s' ≡ taken it rest s)
unfolding next
next_cases s s' it h = next_cases_of s.pending s s' it h

taken-IsConsistent :
    (s : Inner) (it : QueueItem) (rest : List QueueItem)
    → s.pending ≡ it ∷ rest
    → IsConsistent s
    → IsConsistent (taken it rest s)
taken-IsConsistent s it rest e v = record {
  keys = λ k.
      ground
        (arith, contains-remove it.key k s.pending_keys, keys' k, distinct', text_eq_iff it.key k);
  distinct = distinct'.1;
  apart = λ k h. ground (
    arith,
    get-insert it.key k (it.ts, it.file) s.active,
    apart' k,
    distinct',
    text_eq_iff it.key k,
  );
}
  where
    keys' : (k : Text) → set_contains k s.pending_keys ≡ holds k (it ∷ rest)
    keys' k = v.keys k ∙ ap (holds k) e

    distinct' : DistinctKeys (it ∷ rest)
    distinct' = subst DistinctKeys e v.distinct

    apart' : (k : Text) → holds k (it ∷ rest) ≡ true → map_get k s.active ≡ none
    apart' k = subst (λ p. holds k p ≡ true → map_get k s.active ≡ none) e (v.apart k)

pub next-IsConsistent :
    (s s' : Inner) (it : QueueItem) → next s ≡ some (it, s') → IsConsistent s → IsConsistent s'
next-IsConsistent s s' it h v =
    let (rest, e, e') = next_cases s s' it h in rw e' (taken-IsConsistent s it rest e v)

pub done-IsConsistent : (key : Text) (s : Inner) → IsConsistent s → IsConsistent (done key s)
unfolding done
done-IsConsistent key s v = record {
  keys = v.keys;
  distinct = v.distinct;
  apart = λ k h. ground (arith, get-remove key k s.active, v.apart k h);
}
