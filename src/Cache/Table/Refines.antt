-- ===== src/Cache/Table/Refines.antt =====
-- Put and Remove act on the finite map that the cache implements, keep the cache valid, and never
-- panic.
use suite_connector.Prelude.{
  ℕ, ◌+◌, ◌<◌, ◌≡◌, refl, true, false, Option-cases, inl, inr, none, some, length, arith,
}
use suite_connector.Prelude.Int.{ℤ, pos, pos_part, ◌≤ℤ◌}
use suite_connector.Prelude.Text.{Text, text_eq_iff}
use suite_connector.Prelude.Dict.{
  lookup, insert, lookup-insert, lookup-erase, insert-IsMap, erase-IsMap,
}
use suite_connector.Prelude.Outcome.{ok, Yields, yields, Yields-inv, Yields-bind}
use suite_connector.Cache.Queue.{Element, Queue, parent, store, push, heapremove}
use suite_connector.Cache.Queue.Swap.{at}
use suite_connector.Cache.Queue.Push.{
  IsAbsent, IsHeap, length-push, same-push, push-IsIndexed, heappush_mends,
}
use suite_connector.Cache.Queue.Remove.{Without, heapremove_takes}
use suite_connector.Cache.Table.{Cache, add0, remove0, put, remove}
use suite_connector.Cache.Table.Valid.{
  IsLinked, IsValid, view, Reordered-IsLinked, pushed-IsLinked, Without-IsLinked,
}
use suite_connector.Cache.Table.Holds.{is_some, Holds, with_entry, without_key, update0_refines}

module _ {V : Type 0} where
  -- A new element at the next address disturbs nothing: no position holds that address.
  module _ (c : Cache V) (e : Element V) (v : IsValid c) where
    abbrev fresh : Queue V
    fresh = store c.next e c.queue

    fresh-unused : (i : ℕ) → i < length c.queue.items → at c.queue i < c.next
    fresh-unused i h = v.used (c.queue.cell (at c.queue i)).key (at c.queue i) (v.linked.listed i h)

    fresh-IsAbsent : IsAbsent fresh c.next
    fresh-IsAbsent i h f = ground (arith, f, fresh-unused i h)

    fresh-IsHeap : IsHeap fresh
    fresh-IsHeap d p h =
        let above : parent d < length c.queue.items = omega arith in
        ground (arith, v.heap d p h, fresh-unused d h, fresh-unused (parent d) above)

    fresh-IsLinked : IsLinked c.elements fresh
    fresh-IsLinked = record {
      indexed = λ i h. ground (arith, v.linked.indexed i, fresh-unused i h);
      listed = λ i h. ground (arith, v.linked.listed i h, fresh-unused i h);
      queued = λ j b f.
          let (named, (i, hi, ei)) = v.linked.queued j b f in
          (ground (arith, named, v.used j b f), (i, hi, ei));
    }

  add0_refines :
      (k : Text) (value : V) (ttl : ℤ) (exp_time : ℕ) (c : Cache V)
      → IsValid c
      → lookup k c.elements ≡ none
      → Yields
          (Holds
            (with_entry k (record { value = value; ttl = ttl; exp_time = exp_time }) (view c))
            c)
          (add0 k value ttl exp_time c)
  unfolding add0 view
  add0_refines k value ttl exp_time c v free =
      let e : Element V = record {
        index = none;
        key = k;
        value = value;
        ttl = ttl;
        exp_time = exp_time;
      } in
      let q = fresh c e v in
      let linked = fresh-IsLinked c e v in
      let new = fresh-IsAbsent c e v in
      let x = linked.indexed in
      let named : (q.cell c.next).key ≡ k = ground arith in
      Yields-bind
        (λ r (ordered, same). yields (record {
          valid = record {
            map = insert-IsMap k c.next c.elements v.map;
            linked =
                Reordered-IsLinked (length q.items + 1) (insert k c.next c.elements) (push q c.next)
                  r same
                  (pushed-IsLinked c.elements q c.next k linked (push-IsIndexed q c.next x new) new
                    free named);
            heap = λ d p h. ordered d p (omega (arith, same.size, length-push q c.next));
            used = λ j b f. ground (arith, f, lookup-insert k j c.next c.elements, v.used j b);
          };
          as_open = refl;
          viewed = λ j. elim (Option-cases (lookup j c.elements)) [
            | inl missing ↦ ground (
              arith,
              missing,
              lookup-insert k j c.next c.elements,
              same.same c.next,
              same-push q c.next c.next,
            )
            | inr (b, here) ↦ ground (
              arith,
              here,
              lookup-insert k j c.next c.elements,
              same.same b,
              same-push q c.next b,
              same.same c.next,
              same-push q c.next c.next,
              v.used j b here,
            )
          ];
        }))
        (heappush_mends q c.next x new (fresh-IsHeap c e v))

  pub remove0_refines :
      (k : Text) (a : ℕ) (c : Cache V)
      → IsValid c
      → lookup k c.elements ≡ some a
      → Yields
          (λ c'. Holds (without_key k (view c)) c c' × Without c.queue a c'.queue)
          (remove0 a c)
  unfolding remove0 view
  remove0_refines k a c v found =
      let (named, (i, hi, ei)) = v.linked.queued k a found in
      let taken : Yields (Without c.queue a) (heapremove c.queue a) =
        rw ei at (heapremove_takes c.queue i hi v.linked.indexed v.heap) in
      Yields-bind
        (λ q w. yields (
          record {
            valid = record {
              map = erase-IsMap (c.queue.cell a).key c.elements v.map;
              linked = Without-IsLinked c.elements c.queue q a v.map (rw named found) w v.linked;
              heap = w.heap;
              used = λ j b f.
                  v.used j b
                    (ground (arith, f, lookup-erase (c.queue.cell a).key j c.elements v.map));
            };
            as_open = refl;
            viewed = λ j. elim (Option-cases (lookup j c.elements)) [
              | inl missing ↦
                  ground
                    (arith, missing, named, lookup-erase (c.queue.cell a).key j c.elements v.map)
              | inr (b, here) ↦ ground (
                arith,
                here,
                named,
                lookup-erase (c.queue.cell a).key j c.elements v.map,
                w.same b,
              )
            ];
          },
          w,
        ))
        taken

  module _ (now : ℕ) (k : Text) (value : V) (ttl : ℤ) (c : Cache V) (v : IsValid c)
      (is_open : c.closed ≡ false) where
    -- Put on an open, valid cache with a time to live that is not negative sets the entry of its key,
    -- leaves the others, keeps the cache valid, and signals the cleaner.
    pub put_refines :
        pos 0 ≤ℤ ttl
        → (c' : Cache V) × (put now k value ttl c ≡ ok (c', true))
          × Holds
              (with_entry k
                (record { value = value; ttl = ttl; exp_time = now + pos_part ttl })
                (view c))
              c
              c'
    unfolding put
    put_refines nonneg = elim (Option-cases (lookup k c.elements)) [
      | inl missing ↦
          let (c', done, holds) =
            Yields-inv (add0_refines k value ttl (now + pos_part ttl) c v missing) in
          (c', ground (arith, missing, done), holds)
      | inr (a, found) ↦
          let (c', done, holds) =
            Yields-inv (update0_refines k a value ttl (now + pos_part ttl) c v found) in
          (c', ground (arith, found, done), holds)
    ]

  module _ (k : Text) (c : Cache V) (v : IsValid c) (is_open : c.closed ≡ false) where
    -- Remove on an open, valid cache forgets its key, leaves the others, keeps the cache valid, and
    -- answers, and signals, exactly if the key had an entry.
    pub remove_refines :
        (c' : Cache V) × (remove k c ≡ ok (c', is_some (view c k)))
        × Holds (without_key k (view c)) c c'
    unfolding remove view
    remove_refines = elim (Option-cases (lookup k c.elements)) [
      | inl missing ↦ (
        c,
        ground (arith, missing),
        record {
          valid = v;
          as_open = refl;
          viewed = λ j. ground (arith, missing, text_eq_iff k j);
        },
      )
      | inr (a, found) ↦
          let (c', done, (holds, taken)) = Yields-inv (remove0_refines k a c v found) in
          (c', ground (arith, found, done), holds)
    ]
