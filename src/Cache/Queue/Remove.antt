-- ===== src/Cache/Queue/Remove.antt =====
-- heap.Remove takes one element out, and keeps a heap of the others.
use suite_connector.Prelude.{
  ℕ, ◌+◌, ◌-◌, ◌<◌, ◌≡◌, ◌≢◌, ◌∙◌, some, none, length, get_or-take, length-take, take,
  get_elem?-get_or, arith, Bool-cases, inl, inr, ◌==◌, if◌then◌else◌,
}
use suite_connector.Prelude.Outcome.{ok, ◌>>=◌, Yields, yields, Yields-bind}
use suite_connector.Cache.Queue.{
  Queue, parent, set_index, load, swap, sift, pop, remove_at, heapremove,
}
use suite_connector.Cache.Queue.Swap.{
  SameData, at, exp, IsIndexed, Reordered, Reordered-refl, Reordered-trans, swap-ok, swapped,
  at-swapped, exp-swapped, swapped-Reordered,
}
use suite_connector.Cache.Queue.Up.{IsHeapTo}
use suite_connector.Cache.Queue.Down.{IsLoose, sift_mends}
use suite_connector.Cache.Queue.Push.{IsHeap}

-- The queue without the address `a`.
pub record Without {V : Type 0} (q : Queue V) (a : ℕ) (q' : Queue V) : Type 0 where
  pub size : length q.items ≡ length q'.items + 1
  pub same : (b : ℕ) → SameData (q.cell b) (q'.cell b)
  pub indexed : IsIndexed q'
  pub heap : IsHeap q'
  pub absent : (i : ℕ) → i < length q'.items → at q' i ≢ a
  pub back : (i : ℕ) → i < length q'.items → (k : ℕ) × (k < length q.items) × (at q k ≡ at q' i)
  pub forth :
      (k : ℕ)
      → k < length q.items
      → at q k ≢ a
      → (i : ℕ) × (i < length q'.items) × (at q' i ≡ at q k)

module _ {V : Type 0} where
  -- What Pop gives on a queue of `n + 1` entries.
  unfoldable popped : Queue V → ℕ → Queue V
  popped q n = record (set_index (at q n) none q) { items = take n q.items }

  pop-ok : (q : Queue V) (n : ℕ) → length q.items ≡ n + 1 → pop q ≡ ok (popped q n)
  unfolding pop load popped
  pop-ok q n h =
      let last : length q.items - 1 ≡ n = omega arith in
      rw (last, get_elem?-get_or 0 q.items n (omega arith))

  module _ (q : Queue V) (n : ℕ) (h : length q.items ≡ n + 1) where
    length-popped : length (popped q n).items ≡ n
    unfolding popped
    length-popped = length-take n q.items (omega arith)

    at-popped : (i : ℕ) → i < n → at (popped q n) i ≡ at q i
    unfolding popped
    at-popped i hi = get_or-take 0 n q.items i hi

    same-popped : (b : ℕ) → SameData (q.cell b) ((popped q n).cell b)
    unfolding popped
    same-popped b = ground arith

    index-popped :
        (b : ℕ) → ((popped q n).cell b).index ≡ (if at q n == b then none else (q.cell b).index)
    unfolding popped
    index-popped b = ground arith

    exp-popped : (i : ℕ) → i < n → exp (popped q n) i ≡ exp q i
    exp-popped i hi = ground (arith, at-popped i, same-popped (at (popped q n) i))

    -- Pop takes the last entry off.
    popped-Without : IsIndexed q → IsHeapTo n q → Without q (at q n) (popped q n)
    popped-Without x heap = record {
      size = omega (arith, length-popped);
      same = same-popped;
      indexed = λ i hi.
          ground (arith, length-popped, at-popped i, index-popped (at (popped q n) i), x i, x n);
      heap = λ c p hc. ground (arith, length-popped, exp-popped c, exp-popped (parent c), heap c);
      absent = λ i hi. ground (arith, length-popped, at-popped i, x i, x n);
      back = λ i hi. (i, omega (arith, length-popped), ground (arith, length-popped, at-popped i));
      forth = λ k hk ne. (k, ground (arith, length-popped), ground (arith, at-popped k));
    }

  -- Another order first makes no difference.
  Reordered-Without : (n a : ℕ) (p q r : Queue V) → Reordered n p q → Without q a r → Without p a r
  Reordered-Without n a p q r s w = record {
    size = omega (arith, s.size, w.size);
    same = λ b. ground (arith, s.same b, w.same b);
    indexed = w.indexed;
    heap = w.heap;
    absent = w.absent;
    back = λ i hi.
        let (k, hk, ek) = w.back i hi in
        let (l, hl, el) = s.back k (omega (arith, s.size)) in (l, hl, el ∙ ek);
    forth = λ k hk ne.
        let (l, hl, el) = s.forth k hk in
        let (i, hi, ei) = w.forth l (omega (arith, s.size)) (λ e. ne (ground arith)) in
        (i, hi, ei ∙ el);
  }

  pop_takes :
      (m n a : ℕ) (p q : Queue V)
      → length p.items ≡ n + 1
      → Reordered m p q
      → IsHeapTo n q
      → at q n ≡ a
      → Yields (Without p a) (pop q)
  pop_takes m n a p q h s heap e =
      let size : length q.items ≡ n + 1 = s.size ∙ h in
      rw (pop-ok q n size) (
        yields (
          Reordered-Without m a p q (popped q n) s
            (rw e at (popped-Without q n size s.indexed heap))))

  module _ (q : Queue V) (n i : ℕ) (h : length q.items ≡ n + 1) (hi : i < n) (x : IsIndexed q)
      (heap : IsHeap q) where
    swapped-IsLoose : IsLoose n (swapped q i n) i
    swapped-IsLoose =
        let value = exp-swapped q i n (omega arith) (omega arith) in
        let same =
          swapped-Reordered q i n (omega arith) (omega arith) (n + 1) x (omega arith)
            (omega arith) in
        record {
          within = omega (arith, same.size);
          indexed = same.indexed;
          edges = λ c p hc ne np. ground (arith, value c, value (parent c), heap c);
          bridged = λ c p hc e r. ground (arith, value c, value (parent i), heap c, heap i);
        }

  Reordered-suc : (n : ℕ) (p q : Queue V) → Reordered n p q → Reordered (n + 1) p q
  Reordered-suc n p q s = record {
    size = s.size;
    same = s.same;
    forth = s.forth;
    back = s.back;
    rest = λ i h. s.rest i (omega arith);
    indexed = s.indexed;
  }

  remove_inner :
      (q : Queue V) (n i : ℕ)
      → length q.items ≡ n + 1
      → i < n
      → IsIndexed q
      → IsHeap q
      → Yields (Without q (at q i)) ((swap q i n >>= λ q'. sift n q' i) >>= pop)
  remove_inner q n i h hi x heap =
      let first =
        swapped-Reordered q i n (omega arith) (omega arith) (n + 1) x (omega arith) (omega arith) in
      let last : at (swapped q i n) n ≡ at q i =
        ground (arith, at-swapped q i n (omega arith) (omega arith) n) in
      rw (swap-ok q i n (omega arith) (omega arith)) (
        Yields-bind
          (λ q' (heap', same).
            pop_takes (n + 1) n (at q i) q q' h
              (Reordered-trans (n + 1) q (swapped q i n) q' first (Reordered-suc n _ q' same)) heap'
              (same.rest n (omega arith) ∙ last))
          (sift_mends n (swapped q i n) i (swapped-IsLoose q n i h hi x heap) hi))

  -- heap.Remove takes the element at position `i` out, and keeps a heap of the others.
  pub remove_at_takes :
      (q : Queue V) (i : ℕ)
      → i < length q.items
      → IsIndexed q
      → IsHeap q
      → Yields (Without q (at q i)) (remove_at q i)
  unfolding remove_at
  remove_at_takes q i hi x heap =
      let n = length q.items - 1 in
      let h : length q.items ≡ n + 1 = omega arith in
      elim (Bool-cases (n == i)) [
        | inl last ↦
            let e : at q n ≡ at q i = ground (arith, last) in
            rw last (
              pop_takes (n + 1) n (at q i) q q h (Reordered-refl (n + 1) q x)
                (λ c p hc. heap c p (omega arith)) e)
        | inr inner ↦ rw inner (remove_inner q n i h (ground arith) x heap)
      ]

  pub heapremove_takes :
      (q : Queue V) (i : ℕ)
      → i < length q.items
      → IsIndexed q
      → IsHeap q
      → Yields (Without q (at q i)) (heapremove q (at q i))
  unfolding heapremove
  heapremove_takes q i hi x heap =
      let index : (q.cell (at q i)).index ≡ some i = x i hi in
      rw (index, heapremove) (remove_at_takes q i hi x heap)
