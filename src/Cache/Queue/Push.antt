-- ===== src/Cache/Queue/Push.antt =====
-- heap.Push, and heap.Fix after a change of an element.
use suite_connector.Prelude.{
  ℕ, ◌+◌, ◌-◌, ◌≤◌, ◌<◌, ◌≡◌, ◌≢◌, some, [], ◌∷◌, length, length-append, get_or-append, arith, ◌==◌,
  if◌then◌else◌,
}
use suite_connector.Prelude.Outcome.{Yields}
use suite_connector.Cache.Queue.{Element, Queue, parent, store, push, heappush, heapify}
use suite_connector.Cache.Queue.Swap.{SameData, at, exp, IsIndexed}
use suite_connector.Cache.Queue.Up.{IsHeapTo, IsLow, Mended, up_mends}
use suite_connector.Cache.Queue.Down.{IsLoose, sift_mends}

module _ {V : Type 0} (q : Queue V) where
  -- No position holds the address.
  abbrev pub IsAbsent : ℕ → Type 0
  IsAbsent a = (i : ℕ) → i < length q.items → at q i ≢ a

  abbrev pub IsHeap : Type 0
  IsHeap = IsHeapTo (length q.items) q

  module _ (a : ℕ) where
    pub length-push : length (push q a).items ≡ length q.items + 1
    unfolding push
    length-push = omega (arith, length-append q.items (a ∷ []))

    pub at-push :
        (i : ℕ) → i ≤ length q.items → at (push q a) i ≡ (if i == length q.items then a else at q i)
    unfolding push
    at-push i h = get_or-append 0 q.items a i h

    pub same-push : (b : ℕ) → SameData (q.cell b) ((push q a).cell b)
    unfolding push
    same-push b = ground arith

    index-push :
        (b : ℕ)
        → ((push q a).cell b).index ≡ (if a == b then some (length q.items) else (q.cell b).index)
    unfolding push
    index-push b = ground arith

    exp-push : (i : ℕ) → i < length q.items → exp (push q a) i ≡ exp q i
    exp-push i h = ground (arith, at-push i, same-push (at (push q a) i))

    pub push-IsIndexed : IsIndexed q → IsAbsent a → IsIndexed (push q a)
    push-IsIndexed x new i h =
        ground (arith, length-push, at-push i, index-push (at (push q a) i), x i, new i)

    push-IsLow :
        IsIndexed q → IsAbsent a → IsHeap → IsLow (length q.items + 1) (push q a) (length q.items)
    push-IsLow x new heap = record {
      inside = omega arith;
      within = omega (arith, length-push);
      indexed = push-IsIndexed x new;
      edges = λ c p h ne. ground (arith, exp-push c, exp-push (parent c), heap c);
      bridged = λ c p h e r. absurd (ground arith);
    }

    -- heap.Push keeps a heap, with the new element among the old ones.
    pub heappush_mends :
        IsIndexed q
        → IsAbsent a
        → IsHeap
        → Yields (Mended (length q.items + 1) (push q a)) (heappush q a)
    unfolding heappush
    heappush_mends x new heap =
        let last : length (push q a).items - 1 ≡ length q.items = omega (arith, length-push) in
        rw last (up_mends (length q.items + 1) (push q a) (length q.items) (push-IsLow x new heap))

-- heap.Fix at an element whose expiry has changed: `q` is the queue with the new element `e`.
module _ {V : Type 0} (q : Queue V) (i : ℕ) (e : Element V) (h : i < length q.items)
    (x : IsIndexed q) where
  abbrev changed : Queue V
  changed = store (at q i) e q

  exp-changed :
      (c : ℕ) → c < length q.items → exp changed c ≡ (if i == c then e.exp_time else exp q c)
  exp-changed c hc = ground (arith, x c, x i)

  changed-IsIndexed : e.index ≡ some i → IsIndexed changed
  changed-IsIndexed k c hc = ground (arith, x c, x i)

  changed-IsLoose : e.index ≡ some i → IsHeap q → IsLoose (length q.items) changed i
  changed-IsLoose k heap = record {
    within = omega arith;
    indexed = changed-IsIndexed k;
    edges = λ c p hc ne np. ground (arith, exp-changed c, exp-changed (parent c), heap c);
    bridged = λ c p hc ec r. ground (arith, exp-changed c, exp-changed (parent i), heap c, heap i);
  }

  -- heap.Fix mends the heap after the change.
  pub heapify_mends :
      e.index ≡ some i
      → IsHeap q
      → Yields (Mended (length q.items) changed) (heapify changed (at q i))
  unfolding heapify
  heapify_mends k heap =
      let index : (changed.cell (at q i)).index ≡ some i = changed-IsIndexed k i h in
      rw (index, heapify) (sift_mends (length q.items) changed i (changed-IsLoose k heap) h)
