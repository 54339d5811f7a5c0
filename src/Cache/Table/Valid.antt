-- ===== src/Cache/Table/Valid.antt =====
-- The map and the queue hold the same elements, each knows its position, and the queue is a heap: every
-- operation keeps this, and none panics.
use suite_connector.Prelude.{
  ℕ, ◌<◌, ◌≡◌, ◌∙◌, false, Option, inl, inr, Bool-cases, none, some, List, length, arith,
}
use suite_connector.Prelude.Int.{ℤ}
use suite_connector.Prelude.Text.{Text, text_eq, text_eq_iff}
use suite_connector.Prelude.Dict.{lookup, insert, erase, IsMap, lookup-insert, lookup-erase}
use suite_connector.Cache.Queue.{Element, Queue, store, push}
use suite_connector.Cache.Queue.Swap.{at, IsIndexed, Reordered}
use suite_connector.Cache.Queue.Push.{IsAbsent, IsHeap, length-push, at-push, same-push}
use suite_connector.Cache.Queue.Remove.{Without}
use suite_connector.Cache.Table.{Cache}

-- The queue and the map `m` hold the same elements.
pub record IsLinked {V : Type 0} (m : List (Text × ℕ)) (q : Queue V) : Type 0 where
  pub indexed : IsIndexed q
  pub listed : (i : ℕ) → i < length q.items → lookup (q.cell (at q i)).key m ≡ some (at q i)
  pub queued :
      (k : Text) (a : ℕ)
      → lookup k m ≡ some a
      → ((q.cell a).key ≡ k) × ((i : ℕ) × (i < length q.items) × (at q i ≡ a))

pub record IsValid {V : Type 0} (c : Cache V) : Type 0 where
  pub map : IsMap c.elements
  pub linked : IsLinked c.elements c.queue
  pub heap : IsHeap c.queue
  pub used : (k : Text) (a : ℕ) → lookup k c.elements ≡ some a → a < c.next

-- The part of an element that a user of the cache sees.
pub record Entry (V : Type 0) : Type 0 where
  pub value : V
  pub ttl : ℤ
  pub exp_time : ℕ

abbrev pub entry : {V : Type 0} → Element V → Entry V
entry e = record { value = e.value; ttl = e.ttl; exp_time = e.exp_time }

-- The finite map that the cache implements.
unfoldable pub view : {V : Type 0} → Cache V → Text → Option (Entry V)
view c k = elim (lookup k c.elements) [ none ↦ none | some a ↦ some (entry (c.queue.cell a)) ]

module _ {V : Type 0} where
  pub Reordered-IsLinked :
      (n : ℕ) (m : List (Text × ℕ)) (q q' : Queue V)
      → Reordered n q q'
      → IsLinked m q
      → IsLinked m q'
  Reordered-IsLinked n m q q' s v = record {
    indexed = s.indexed;
    listed = λ i h.
        let (k, hk, ek) = s.back i (omega (arith, s.size)) in
        ground (arith, v.listed k, s.same (at q' i));
    queued = λ k a e.
        let (named, (i, hi, ei)) = v.queued k a e in
        let (l, hl, el) = s.forth i hi in
        (ground (arith, named, s.same a), (l, omega (arith, s.size), el ∙ ei));
  }

  -- An element may change all but its key and its index.
  pub stored-IsLinked :
      (m : List (Text × ℕ)) (q : Queue V) (a : ℕ) (e : Element V)
      → e.key ≡ (q.cell a).key
      → e.index ≡ (q.cell a).index
      → IsLinked m q
      → IsLinked m (store a e q)
  stored-IsLinked m q a e k x v = record {
    indexed = λ i h. ground (arith, v.indexed i);
    listed = λ i h. ground (arith, v.listed i);
    queued =
        λ j b f. let (named, (i, hi, ei)) = v.queued j b f in (ground (arith, named), (i, hi, ei));
  }

  -- A new element under a new key.
  pub pushed-IsLinked :
      (m : List (Text × ℕ)) (q : Queue V) (a : ℕ) (k : Text)
      → IsLinked m q
      → IsIndexed (push q a)
      → IsAbsent q a
      → lookup k m ≡ none
      → (q.cell a).key ≡ k
      → IsLinked (insert k a m) (push q a)
  pushed-IsLinked m q a k v x new free named = record {
    indexed = x;
    listed = λ i h.
        let key = ((push q a).cell (at (push q a) i)).key in
        ground (
          arith,
          length-push q a,
          at-push q a i,
          same-push q a (at (push q a) i),
          lookup-insert k key a m,
          text_eq_iff k key,
          v.listed i,
        );
    queued = λ j b e. elim (Bool-cases (text_eq k j)) [
      | inl same ↦ (
        ground (arith, e, same, lookup-insert k j a m, text_eq_iff k j, same-push q a b),
        (
          length q.items,
          omega (arith, length-push q a),
          ground (arith, e, same, lookup-insert k j a m, at-push q a (length q.items)),
        ),
      )
      | inr other ↦
          let old : lookup j m ≡ some b = ground (arith, e, other, lookup-insert k j a m) in
          let (key, (i, hi, ei)) = v.queued j b old in
          (
            ground (arith, key, same-push q a b),
            (i, omega (arith, length-push q a), ground (arith, at-push q a i)),
          )
    ];
  }

  -- The element leaves both.
  pub Without-IsLinked :
      (m : List (Text × ℕ)) (q q' : Queue V) (a : ℕ)
      → IsMap m
      → lookup (q.cell a).key m ≡ some a
      → Without q a q'
      → IsLinked m q
      → IsLinked (erase (q.cell a).key m) q'
  Without-IsLinked m q q' a u here w v = record {
    indexed = w.indexed;
    listed = λ i h.
        let (k, hk, ek) = w.back i h in
        let key = (q'.cell (at q' i)).key in
        ground (
          arith,
          lookup-erase (q.cell a).key key m u,
          text_eq_iff (q.cell a).key key,
          v.listed k,
          w.same (at q' i),
          w.absent i,
        );
    queued = λ j b e.
        let old : (lookup j m ≡ some b) × (text_eq (q.cell a).key j ≡ false) =
          ground (arith, e, lookup-erase (q.cell a).key j m u) in
        let (key, (i, hi, ei)) = v.queued j b old.0 in
        let (l, hl, el) =
          w.forth i hi (λ f. ground (arith, f, ei, key, old.1, text_eq_iff (q.cell a).key j)) in
        (ground (arith, key, w.same b), (l, hl, el ∙ ei));
  }
