-- ===== src/Cache/Queue/Swap.antt =====
-- Swap: what it changes, and the relation between a queue and one with its elements in another order.
use suite_connector.Prelude.{
  ℕ, ◌≤◌, ◌<◌, ◌≡◌, refl, ◌∙◌, some, length, get_or, set, get_elem?-get_or, get_or-set, length-set,
  arith, ◌==◌, ltb, if◌then◌else◌,
}
use suite_connector.Prelude.Outcome.{ok}
use suite_connector.Cache.Queue.{Element, Queue, set_index, load, less, swap}

-- All but the index.
abbrev pub SameData : {V : Type 0} → Element V → Element V → Type 0
SameData e e' =
    (e'.key ≡ e.key) × (e'.value ≡ e.value) × (e'.ttl ≡ e.ttl) × (e'.exp_time ≡ e.exp_time)

module _ {V : Type 0} where
  -- The address at a position, and its expiry.
  abbrev pub at : Queue V → ℕ → ℕ
  at q i = get_or q.items i 0

  abbrev pub exp : Queue V → ℕ → ℕ
  exp q i = (q.cell (at q i)).exp_time

  -- Each element knows its position.
  abbrev pub IsIndexed : Queue V → Type 0
  IsIndexed q = (i : ℕ) → i < length q.items → (q.cell (at q i)).index ≡ some i

  -- `q'` has the elements of `q`, in another order before position `n`.
  pub record Reordered (n : ℕ) (q q' : Queue V) : Type 0 where
    pub size : length q'.items ≡ length q.items
    pub same : (a : ℕ) → SameData (q.cell a) (q'.cell a)
    pub forth : (i : ℕ) → i < length q.items → (k : ℕ) × (k < length q.items) × (at q' k ≡ at q i)
    pub back : (i : ℕ) → i < length q.items → (k : ℕ) × (k < length q.items) × (at q k ≡ at q' i)
    pub rest : (i : ℕ) → n ≤ i → at q' i ≡ at q i
    pub indexed : IsIndexed q'

  pub Reordered-refl : (n : ℕ) (q : Queue V) → IsIndexed q → Reordered n q q
  Reordered-refl n q x = record {
    size = refl;
    same = λ a. (refl, refl, refl, refl);
    forth = λ i h. (i, h, refl);
    back = λ i h. (i, h, refl);
    rest = λ i h. refl;
    indexed = x;
  }

  pub Reordered-trans :
      (n : ℕ) (p q r : Queue V) → Reordered n p q → Reordered n q r → Reordered n p r
  Reordered-trans n p q r s t = record {
    size = t.size ∙ s.size;
    same = λ a. ground (arith, s.same a, t.same a);
    forth = λ i h.
        let (k, hk, ek) = s.forth i h in
        let (l, hl, el) = t.forth k (omega (arith, s.size)) in (l, omega (arith, s.size), el ∙ ek);
    back = λ i h.
        let (k, hk, ek) = t.back i (omega (arith, s.size)) in
        let (l, hl, el) = s.back k (omega (arith, s.size)) in (l, hl, el ∙ ek);
    rest = λ i h. t.rest i h ∙ s.rest i h;
    indexed = t.indexed;
  }

  pub less-ok :
      (q : Queue V) (i j : ℕ)
      → i < length q.items
      → j < length q.items
      → less q i j ≡ ok (ltb (exp q i) (exp q j))
  unfolding less load
  less-ok q i j hi hj = rw (get_elem?-get_or 0 q.items i hi, get_elem?-get_or 0 q.items j hj)

  -- What Swap gives in range.
  unfoldable pub swapped : Queue V → ℕ → ℕ → Queue V
  swapped q i j =
      set_index (at q i) (some j)
        (set_index (at q j) (some i) (record q { items = set (set q.items i (at q j)) j (at q i) }))

  module _ (q : Queue V) (i j : ℕ) (hi : i < length q.items) (hj : j < length q.items) where
    pub swap-ok : swap q i j ≡ ok (swapped q i j)
    unfolding swap load swapped
    swap-ok = rw (get_elem?-get_or 0 q.items i hi, get_elem?-get_or 0 q.items j hj)

    pub at-swapped :
        (c : ℕ)
        → at (swapped q i j) c ≡ (if j == c then at q i else if i == c then at q j else at q c)
    unfolding swapped
    at-swapped c = rw (
      get_or-set 0 (set q.items i (at q j)) j c (at q i) (rw length-set hj),
      get_or-set 0 q.items i c (at q j) hi,
    )

    pub length-swapped : length (swapped q i j).items ≡ length q.items
    unfolding swapped
    length-swapped = simp length-set

    pub same-swapped : (a : ℕ) → SameData (q.cell a) ((swapped q i j).cell a)
    unfolding swapped
    same-swapped a = ground arith

    index-swapped :
        (a : ℕ)
        → ((swapped q i j).cell a).index
          ≡ (if at q i == a then some j else if at q j == a then some i else (q.cell a).index)
    unfolding swapped
    index-swapped a = ground arith

    pub exp-swapped :
        (c : ℕ)
        → exp (swapped q i j) c ≡ (if j == c then exp q i else if i == c then exp q j else exp q c)
    exp-swapped c = ground (arith, at-swapped c, same-swapped (at (swapped q i j) c))

    abbrev other : ℕ → ℕ
    other c = if j == c then i else if i == c then j else c

    swapped-IsIndexed : IsIndexed q → IsIndexed (swapped q i j)
    swapped-IsIndexed x c hc =
        let inside : c < length q.items = omega (arith, length-swapped) in
        ground
          (arith, at-swapped c, index-swapped (at (swapped q i j) c), x i hi, x j hj, x c inside)

    pub swapped-Reordered : (n : ℕ) → IsIndexed q → i < n → j < n → Reordered n q (swapped q i j)
    swapped-Reordered n x hin hjn = record {
      size = length-swapped;
      same = same-swapped;
      forth = λ c h. (other c, ground arith, ground (arith, at-swapped (other c)));
      back = λ c h. (other c, ground arith, ground (arith, at-swapped c));
      rest = λ c h. ground (arith, at-swapped c);
      indexed = swapped-IsIndexed x;
    }
