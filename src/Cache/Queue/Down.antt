-- ===== src/Cache/Queue/Down.antt =====
-- The loop `down` of container/heap, and `down` with `up` behind it, as Fix and Remove use them.
use suite_connector.Prelude.{
  ℕ, zero, suc, ◌+◌, ◌-◌, ◌*◌, ◌≤◌, ◌<◌, ◌≡◌, ◌≢◌, ◌⊎◌, inl, inr, refl, Bool, true, false, length,
  arith, ltb, leb,
}
use suite_connector.Prelude.Outcome.{
  Outcome, ◌>>=◌, Yields, yields, Yields-test, Yields-bind, Yields-weaken,
}
use suite_connector.Cache.Queue.{Queue, parent, swap, smaller_child, down_loop, down, sift}
use suite_connector.Cache.Queue.Swap.{
  exp, IsIndexed, Reordered, Reordered-refl, Reordered-trans, less-ok, swap-ok, swapped,
  length-swapped, exp-swapped, swapped-Reordered,
}
use suite_connector.Cache.Queue.Up.{IsHeapTo, IsLow, Mended, up_mends}

module _ {V : Type 0} where
  -- Only the edges above and below `i` may be out of order.
  pub record IsLoose (n : ℕ) (q : Queue V) (i : ℕ) : Type 0 where
    pub within : n ≤ length q.items
    pub indexed : IsIndexed q
    pub edges : (c : ℕ) → 0 < c → c < n → c ≢ i → parent c ≢ i → exp q (parent c) ≤ exp q c
    pub bridged : (c : ℕ) → 0 < c → c < n → parent c ≡ i → 0 < i → exp q (parent i) ≤ exp q c

  -- `m` is the child of `i` that expires first.
  record IsSmallerChild (n : ℕ) (q : Queue V) (i m : ℕ) : Type 0 where
    inside : m < n
    child : (m ≡ 2 * i + 1) ⊎ (m ≡ 2 * i + 2)
    least : (c : ℕ) → 0 < c → c < n → parent c ≡ i → exp q m ≤ exp q c

  smaller_child-IsSmallerChild :
      (n : ℕ) (q : Queue V) (i : ℕ)
      → n ≤ length q.items
      → 2 * i + 1 < n
      → Yields (IsSmallerChild n q i) (smaller_child n q i)
  unfolding smaller_child
  smaller_child-IsSmallerChild n q i w h =
      grind (arith, less-ok q (2 * i + 1 + 1) (2 * i + 1), yields)

  -- Only the edges below `i` may be out of order.
  record IsHigh (n : ℕ) (q : Queue V) (i : ℕ) : Type 0 where
    within : n ≤ length q.items
    indexed : IsIndexed q
    edges : (c : ℕ) → 0 < c → c < n → parent c ≢ i → exp q (parent c) ≤ exp q c
    bridged : (c : ℕ) → 0 < c → c < n → parent c ≡ i → 0 < i → exp q (parent i) ≤ exp q c

  -- After a step down, only the edges below the entry may be out of order.
  sink-IsHigh :
      (n : ℕ) (q : Queue V) (i m : ℕ)
      → IsLoose n q i
      → IsSmallerChild n q i m
      → exp q m < exp q i
      → IsHigh n (swapped q i m) m
  sink-IsHigh n q i m v s below =
      let hm : m < length q.items = omega (arith, v.within, s.inside) in
      let hi : i < length q.items = omega (arith, v.within, s.inside, s.child) in
      let value = exp-swapped q i m hi hm in
      let same =
        swapped-Reordered q i m hi hm n v.indexed (omega (arith, s.inside, s.child)) s.inside in
      record {
        within = omega (arith, v.within, length-swapped q i m hi hm);
        indexed = same.indexed;
        edges = λ c p h ne. ground (
          arith,
          value c,
          value (parent c),
          v.edges c,
          v.bridged m,
          s.least c,
          s.child,
          s.inside,
        );
        bridged =
            λ c p h e r. ground (arith, value c, value (parent m), v.edges c, s.child, s.inside);
      }

  IsHigh-IsLoose : (n : ℕ) (q : Queue V) (i : ℕ) → IsHigh n q i → IsLoose n q i
  IsHigh-IsLoose n q i v = record {
    within = v.within;
    indexed = v.indexed;
    edges = λ c p h ne np. v.edges c p h np;
    bridged = v.bridged;
  }

  -- The loop ends at or below `i`, with a heap of the same elements.
  abbrev Sunk : ℕ → Queue V → ℕ → Queue V × ℕ → Type 0
  Sunk n q i (q', j) = Mended n q q' × (i ≤ j)

  -- One round of the loop, from a test of a smaller child on.
  module _ (k n : ℕ) (q : Queue V) (i m : ℕ) (v : IsLoose n q i) (s : IsSmallerChild n q i m) where
    abbrev turn : Outcome (Queue V × ℕ)
    turn = swap q i m >>= λ q'. down_loop k n q' m

    turn_sinks :
        exp q m < exp q i
        → Yields (Sunk n (swapped q i m) m) (down_loop k n (swapped q i m) m)
        → Yields (Sunk n q m) turn
    turn_sinks below rest =
        let hm : m < length q.items = omega (arith, v.within, s.inside) in
        let hi : i < length q.items = omega (arith, v.within, s.inside, s.child) in
        let moved =
          swapped-Reordered q i m hi hm n v.indexed (omega (arith, s.inside, s.child)) s.inside in
        rw (swap-ok q i m hi hm) (
          Yields-weaken
            (λ (r, j) ((heap, same), le). ((heap, Reordered-trans n q _ r moved same), le)) rest)

  down_loop_mends :
      (k n : ℕ) (q : Queue V) (i : ℕ)
      → n - i < k
      → IsHigh n q i
      → Yields (Sunk n q i) (down_loop k n q i)
  unfolding down_loop
  down_loop_mends zero n q i f v = absurd (omega arith)
  down_loop_mends (suc k) n q i f v =
      let done = Reordered-refl n q v.indexed in
      let loose = IsHigh-IsLoose n q i v in
      Yields-test (leb n (2 * i + 1))
        (λ leaf. yields (((λ c p h. ground (arith, v.edges c)), done), omega arith))
        (λ inner.
          Yields-bind
            (λ m s.
              let hm : m < length q.items = omega (arith, v.within, s.inside) in
              let hi : i < length q.items = omega (arith, v.within, s.inside, s.child) in
              rw (less-ok q m i hm hi) (
                Yields-test (ltb (exp q m) (exp q i))
                  (λ below.
                    Yields-weaken (λ (r, j) (mended, le). (mended, omega (arith, s.child)))
                      (turn_sinks k n q i m loose s (ground arith) (
                        down_loop_mends k n (swapped q i m) m (omega (arith, s.child, s.inside))
                          (sink-IsHigh n q i m loose s (ground arith)))))
                  (λ settled.
                    yields (((λ c p h. ground (arith, v.edges c, s.least c)), done), omega arith))))
            (smaller_child-IsSmallerChild n q i v.within (ground arith)))

  -- `down` either moves the entry, and leaves a heap, or leaves it where only the edge above it may be
  -- out of order.
  abbrev Settled : ℕ → Queue V → ℕ → Queue V × Bool → Type 0
  Settled n q i (q', sunk) =
      Reordered n q q' × (((sunk ≡ true) × IsHeapTo n q') ⊎ ((sunk ≡ false) × IsLow n q' i))

  stays_IsLow :
      (n : ℕ) (q : Queue V) (i : ℕ)
      → IsLoose n q i
      → i < n
      → ((c : ℕ) → 0 < c → c < n → parent c ≡ i → exp q i ≤ exp q c)
      → IsLow n q i
  stays_IsLow n q i v h least = record {
    inside = h;
    within = v.within;
    indexed = v.indexed;
    edges = λ c p hc ne. ground (arith, v.edges c, least c);
    bridged = v.bridged;
  }

  -- The loop started where an entry is out of place.
  abbrev Moved : ℕ → Queue V → ℕ → Queue V × ℕ → Type 0
  Moved n q i (q', j) = Reordered n q q' × (((i < j) × IsHeapTo n q') ⊎ ((j ≡ i) × IsLow n q' i))

  first_round :
      (n : ℕ) (q : Queue V) (i : ℕ)
      → IsLoose n q i
      → i < n
      → Yields (Moved n q i) (down_loop (suc n) n q i)
  unfolding down_loop
  first_round n q i v h =
      let done = Reordered-refl n q v.indexed in
      Yields-test (leb n (2 * i + 1))
        (λ leaf.
          yields (done, inr (refl, stays_IsLow n q i v h (λ c p hc e. absurd (ground arith)))))
        (λ inner.
          Yields-bind
            (λ m s.
              let hm : m < length q.items = omega (arith, v.within, s.inside) in
              let hi : i < length q.items = omega (arith, v.within, s.inside, s.child) in
              rw (less-ok q m i hm hi) (
                Yields-test (ltb (exp q m) (exp q i))
                  (λ below.
                    Yields-weaken
                      (λ (r, j) ((heap, same), le). (same, inl (omega (arith, s.child), heap)))
                      (turn_sinks n n q i m v s (ground arith) (
                        down_loop_mends n n (swapped q i m) m (omega (arith, s.child, s.inside))
                          (sink-IsHigh n q i m v s (ground arith)))))
                  (λ settled. yields (
                    done,
                    inr (refl, stays_IsLow n q i v h (λ c p hc e. ground (arith, s.least c))),
                  ))))
            (smaller_child-IsSmallerChild n q i v.within (ground arith)))

  down_settles :
      (n : ℕ) (q : Queue V) (i : ℕ) → IsLoose n q i → i < n → Yields (Settled n q i) (down n q i)
  unfolding down
  down_settles n q i v h =
      let fuel : n + 1 ≡ suc n = omega arith in
      rw fuel (
        Yields-bind
          (λ (q', j) (same, settled). yields (elim settled [
            | inl (moved, heap) ↦ (same, inl (ground arith, heap))
            | inr (stayed, low) ↦ (same, inr (ground arith, low))
          ]))
          (first_round n q i v h))

  -- Fix and Remove mend a heap in which one entry is out of place.
  pub sift_mends :
      (n : ℕ) (q : Queue V) (i : ℕ) → IsLoose n q i → i < n → Yields (Mended n q) (sift n q i)
  unfolding sift
  sift_mends n q i v h =
      Yields-bind
        (λ (q', sunk) (same, settled). elim settled [
          | inl (moved, heap) ↦ rw moved (yields (heap, same))
          | inr (stayed, low) ↦ rw stayed (
              Yields-weaken (λ r (heap, same'). (heap, Reordered-trans n q q' r same same'))
                (up_mends n q' i low))
        ])
        (down_settles n q i v h)
