-- ===== src/Cache/Table/Holds.antt =====
-- The finite map that the cache stands for, and Put of a key that it has.
use suite_connector.Prelude.{
  ℕ, ◌≡◌, refl, Bool, true, false, Option, Option-cases, inl, inr, none, some, length, arith,
  if◌then◌else◌,
}
use suite_connector.Prelude.Int.{ℤ}
use suite_connector.Prelude.Text.{Text, text_eq, text_eq_iff}
use suite_connector.Prelude.Dict.{lookup}
use suite_connector.Prelude.Outcome.{Yields, yields, Yields-bind}
use suite_connector.Cache.Queue.{store, heapify}
use suite_connector.Cache.Queue.Up.{Mended}
use suite_connector.Cache.Queue.Push.{heapify_mends}
use suite_connector.Cache.Table.{Cache, update0}
use suite_connector.Cache.Table.Valid.{IsValid, Entry, view, Reordered-IsLinked, stored-IsLinked}

abbrev pub is_some {ℓ} : {A : Type ℓ} → Option A → Bool
is_some none = false
is_some (some _) = true

module _ {V : Type 0} where
  -- The cache is valid, as open as before, and its map is `m`.
  pub record Holds (m : Text → Option (Entry V)) (c c' : Cache V) : Type 0 where
    pub valid : IsValid c'
    pub as_open : c'.closed ≡ c.closed
    pub viewed : (j : Text) → view c' j ≡ m j

  -- The map with an entry set, and with a key forgotten.
  abbrev pub with_entry : Text → Entry V → (Text → Option (Entry V)) → Text → Option (Entry V)
  with_entry k e m j = if text_eq k j then some e else m j

  abbrev pub without_key : Text → (Text → Option (Entry V)) → Text → Option (Entry V)
  without_key k m j = if text_eq k j then none else m j

  pub update0_refines :
      (k : Text) (a : ℕ) (value : V) (ttl : ℤ) (exp_time : ℕ) (c : Cache V)
      → IsValid c
      → lookup k c.elements ≡ some a
      → Yields
          (Holds
            (with_entry k (record { value = value; ttl = ttl; exp_time = exp_time }) (view c))
            c)
          (update0 a value ttl exp_time c)
  unfolding update0 view
  update0_refines k a value ttl exp_time c v found =
      let (named, (i, hi, ei)) = v.linked.queued k a found in
      let e = record (c.queue.cell a) { ttl = ttl; value = value; exp_time = exp_time } in
      let index : e.index ≡ some i = ground (arith, v.linked.indexed i hi) in
      let mended : Yields (Mended (length c.queue.items) (store a e c.queue))
          (heapify (store a e c.queue) a) =
        rw ei at (heapify_mends c.queue i e hi v.linked.indexed index v.heap) in
      Yields-bind
        (λ q (heap, same). yields (record {
          valid = record {
            map = v.map;
            linked =
                Reordered-IsLinked (length c.queue.items) c.elements (store a e c.queue) q same
                  (stored-IsLinked c.elements c.queue a e refl refl v.linked);
            heap = λ d p h. heap d p (omega (arith, same.size));
            used = v.used;
          };
          as_open = refl;
          viewed = λ j. elim (Option-cases (lookup j c.elements)) [
            | inl missing ↦ ground (arith, missing, found, text_eq_iff k j)
            | inr (b, here) ↦ ground (
              arith,
              here,
              found,
              named,
              text_eq_iff k j,
              same.same b,
              (v.linked.queued j b here).0,
            )
          ];
        }))
        mended
