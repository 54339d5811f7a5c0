-- ===== src/Cache/Queue/Up.antt =====
-- The loop `up` of container/heap: it mends a heap in which one entry is too low, and keeps the
-- elements.
use suite_connector.Prelude.{ℕ, zero, suc, ◌+◌, ◌≤◌, ◌<◌, ◌≡◌, ◌≢◌, length, arith, ltb, ◌==◌}
use suite_connector.Prelude.Outcome.{Yields, yields, Yields-test, Yields-weaken}
use suite_connector.Cache.Queue.{Queue, parent, up_loop, up}
use suite_connector.Cache.Queue.Swap.{
  exp, IsIndexed, Reordered, Reordered-refl, Reordered-trans, less-ok, swap-ok, swapped,
  length-swapped, exp-swapped, swapped-Reordered,
}

module _ {V : Type 0} where
  -- No entry before position `n` expires before its parent.
  abbrev pub IsHeapTo : ℕ → Queue V → Type 0
  IsHeapTo n q = (c : ℕ) → 0 < c → c < n → exp q (parent c) ≤ exp q c

  -- Only the edge above `i` may be out of order.
  pub record IsLow (n : ℕ) (q : Queue V) (i : ℕ) : Type 0 where
    pub inside : i < n
    pub within : n ≤ length q.items
    pub indexed : IsIndexed q
    pub edges : (c : ℕ) → 0 < c → c < n → c ≢ i → exp q (parent c) ≤ exp q c
    pub bridged : (c : ℕ) → 0 < c → c < n → parent c ≡ i → 0 < i → exp q (parent i) ≤ exp q c

  -- A heap of the same elements.
  abbrev pub Mended : ℕ → Queue V → Queue V → Type 0
  Mended n q q' = IsHeapTo n q' × Reordered n q q'

  module _ (n : ℕ) (q : Queue V) (i : ℕ) (v : IsLow n q i) (above : 0 < i) where
    rise-IsLow : exp q i < exp q (parent i) → IsLow n (swapped q (parent i) i) (parent i)
    rise-IsLow below =
        let hp : parent i < length q.items = omega (arith, v.inside, v.within) in
        let hi : i < length q.items = omega (arith, v.inside, v.within) in
        let value = exp-swapped q (parent i) i hp hi in
        let same =
          swapped-Reordered q (parent i) i hp hi n v.indexed (omega (arith, v.inside)) v.inside in
        record {
          inside = omega (arith, v.inside);
          within = omega (arith, v.within, length-swapped q (parent i) i hp hi);
          indexed = same.indexed;
          edges = λ c p h ne.
              ground (arith, value c, value (parent c), v.edges c, v.bridged c, v.edges (parent c));
          bridged = λ c p h e r.
              ground (arith, value c, value (parent (parent i)), v.edges c, v.edges (parent i));
        }

  pub up_loop_mends :
      (k n : ℕ) (q : Queue V) (i : ℕ) → i < k → IsLow n q i → Yields (Mended n q) (up_loop k q i)
  unfolding up_loop
  up_loop_mends zero n q i f v = absurd (omega arith)
  up_loop_mends (suc k) n q i f v =
      let hp : parent i < length q.items = omega (arith, v.inside, v.within) in
      let hi : i < length q.items = omega (arith, v.inside, v.within) in
      let done = Reordered-refl n q v.indexed in
      rw (less-ok q i (parent i) hi hp, swap-ok q (parent i) i hp hi)
        (Yields-test (parent i == i)
          (λ root. yields ((λ c p h. v.edges c p h (ground arith)), done))
          (λ inner.
            Yields-test (ltb (exp q i) (exp q (parent i)))
              (λ below.
                let q' = swapped q (parent i) i in
                let moved =
                  swapped-Reordered q (parent i) i hp hi n v.indexed (omega (arith, v.inside))
                    v.inside in
                Yields-weaken (λ r (heap, same). (heap, Reordered-trans n q q' r moved same))
                  (up_loop_mends k n q' (parent i) (ground arith)
                    (rise-IsLow n q i v (ground arith) (ground arith))))
              (λ settled. yields ((λ c p h. ground (arith, v.edges c)), done))))

  -- `up` turns a queue with one entry too low into a heap of the same elements, and ends.
  pub up_mends : (n : ℕ) (q : Queue V) (i : ℕ) → IsLow n q i → Yields (Mended n q) (up q i)
  unfolding up
  up_mends n q i v = up_loop_mends (i + 1) n q i (omega arith) v
