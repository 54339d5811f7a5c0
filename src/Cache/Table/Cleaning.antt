-- ===== src/Cache/Table/Cleaning.antt =====
-- The cleaner: it removes only what has expired, and what it leaves for the next time.
use suite_connector.Prelude.{
  ℕ, zero, suc, ◌+◌, ◌-◌, ◌/◌, ◌≤◌, ◌<◌, ◌≡◌, ◌⊎◌, refl, sym, ◌∙◌, true, Bool-cases, inl, inr, none,
  some, length, arith, ltb, get_elem?-get_or,
}
use suite_connector.Prelude.Int.{pos}
use suite_connector.Prelude.Text.{Text, text_eq, text_eq_iff}
use suite_connector.Prelude.Dict.{lookup}
use suite_connector.Prelude.Outcome.{
  ok, Yields, yields, Yields-bind, Yields-weaken, Yields-test, Yields-inv,
}
use suite_connector.Cache.Queue.{Element, Queue, load}
use suite_connector.Cache.Queue.Swap.{SameData, at}
use suite_connector.Cache.Table.{Cache, has_expired, clear_from, clear_expired}
use suite_connector.Cache.Table.Valid.{IsValid, Entry, entry, view}
use suite_connector.Cache.Table.Holds.{Holds, without_key}
use suite_connector.Cache.Table.Refines.{remove0_refines}

module _ {V : Type 0} where
  -- The entry has expired at the time `now`, or has no time to live.
  abbrev pub IsOver : ℕ → Entry V → Type 0
  IsOver now e = (e.ttl ≡ pos 0) ⊎ (e.exp_time < now)

  has_expired-IsOver : (now : ℕ) (e : Element V) → has_expired now e ≡ true → IsOver now (entry e)
  unfolding has_expired
  has_expired-IsOver now e h = ground arith

  -- Each key has the entry that it had, or had one that is over, and has none.
  pub record Cleared (now : ℕ) (c c' : Cache V) : Type 0 where
    pub valid : IsValid c'
    pub as_open : c'.closed ≡ c.closed
    pub spared :
        (k : Text)
        → (view c' k ≡ view c k)
          ⊎ ((view c' k ≡ none) × ((e : Entry V) × (view c k ≡ some e) × IsOver now e))

  load-at : (q : Queue V) (i : ℕ) → i < length q.items → load q i ≡ ok (at q i)
  unfolding load
  load-at q i h = rw (get_elem?-get_or 0 q.items i h)

  shown :
      (c : Cache V) (k : Text) (a : ℕ)
      → lookup k c.elements ≡ some a
      → view c k ≡ some (entry (c.queue.cell a))
  unfolding view
  shown c k a h = rw (h, view) refl

  Cleared-refl : (now : ℕ) (c : Cache V) → IsValid c → Cleared now c c
  Cleared-refl now c v = record { valid = v; as_open = refl; spared = λ k. inl refl }

  -- One removal of an element that is over, before the rest of the loop.
  Cleared-trans :
      (now : ℕ) (k : Text) (e : Element V) (c c' d : Cache V)
      → Holds (without_key k (view c)) c c'
      → view c k ≡ some (entry e)
      → IsOver now (entry e)
      → Cleared now c' d
      → Cleared now c d
  Cleared-trans now k e c c' d h here over rest = record {
    valid = rest.valid;
    as_open = rest.as_open ∙ h.as_open;
    spared = λ j. elim (Bool-cases (text_eq k j)) [
      | inl same ↦
          let gone : view c' j ≡ none = ground (arith, h.viewed j, same) in
          let same_key = (text_eq_iff k j).0 same in
          elim (rest.spared j) [
            | inl kept ↦ inr (kept ∙ gone, (entry e, rw same_key at here, over))
            | inr (away, (x, found, past)) ↦ absurd (cc)
          ]
      | inr other ↦
          let stays : view c' j ≡ view c j = ground (arith, h.viewed j, other) in
          elim (rest.spared j) [
            | inl kept ↦ inl (kept ∙ stays)
            | inr (away, (x, found, past)) ↦ inr (away, (x, sym stays ∙ found, past))
          ]
    ];
  }

  clear_from_clears :
      (k now i : ℕ) (c : Cache V)
      → IsValid c
      → length c.queue.items - i < k
      → Yields (Cleared now c) (clear_from k now i c)
  unfolding clear_from
  clear_from_clears zero now i c v f = absurd (omega arith)
  clear_from_clears (suc k) now i c v f =
      Yields-test (ltb i (length c.queue.items))
        (λ inside.
          let a = at c.queue i in
          let e = c.queue.cell a in
          let here = v.linked.listed i (ground arith) in
          rw (load-at c.queue i (ground arith)) (
            Yields-test (has_expired now e)
              (λ over.
                Yields-bind
                  (λ c' (holds, taken).
                    Yields-weaken
                      (λ d later.
                        Cleared-trans now e.key e c c' d holds (shown c e.key a here)
                          (has_expired-IsOver now e over) later)
                      (clear_from_clears k now (i + 1) c' holds.valid
                        (ground (arith, inside, taken.size))))
                  (remove0_refines e.key a c v here))
              (λ ahead. yields (Cleared-refl now c v))))
        (λ past. yields (Cleared-refl now c v))

  -- clearExpired keeps the cache valid and never panics; a key keeps its entry, or has lost one that is
  -- over.
  pub clear_expired_spares :
      (now : ℕ) (c : Cache V)
      → IsValid c
      → (c' : Cache V) × (clear_expired now c ≡ ok c') × Cleared now c c'
  unfolding clear_expired
  clear_expired_spares now c v =
      Yields-inv (clear_from_clears (length c.queue.items + 1) now 0 c v (omega arith))

  -- All that is in the queue is over.
  abbrev pub AllOver : ℕ → Cache V → Type 0
  AllOver now c =
      (i : ℕ) → i < length c.queue.items → has_expired now (c.queue.cell (at c.queue i)) ≡ true

  has_expired-same :
      (now : ℕ) (e d : Element V) → SameData e d → has_expired now d ≡ has_expired now e
  unfolding has_expired
  has_expired-same now e d s = rw (s.2, s.3)

  clear_from_half :
      (k now i : ℕ) (c : Cache V)
      → IsValid c
      → AllOver now c
      → length c.queue.items - i < k
      → i ≤ length c.queue.items + 1
      → Yields (λ c'. length c'.queue.items ≡ (i + length c.queue.items) / 2) (clear_from k now i c)
  unfolding clear_from
  clear_from_half zero now i c v all f b = absurd (omega arith)
  clear_from_half (suc k) now i c v all f b =
      Yields-test (ltb i (length c.queue.items))
        (λ inside.
          let a = at c.queue i in
          let here = v.linked.listed i (ground arith) in
          let over = all i (ground arith) in
          rw (load-at c.queue i (ground arith), over)
            (Yields-bind
              (λ c' (holds, taken).
                let all' : AllOver now c' = λ p hp.
                  let (l, hl, el) = taken.back p hp in
                  has_expired-same now (c.queue.cell (at c'.queue p))
                    (c'.queue.cell (at c'.queue p)) (taken.same (at c'.queue p))
                  ∙ (rw el at (all l hl)) in
                Yields-weaken (λ d half. ground (arith, half, taken.size))
                  (clear_from_half k now (i + 1) c' holds.valid all'
                    (ground (arith, inside, taken.size)) (ground (arith, inside, taken.size))))
              (remove0_refines (c.queue.cell a).key a c v here)))
        (λ past. yields (ground arith))

  -- If everything has expired, clearExpired leaves half of it, rounded down, in the queue: its loop
  -- goes on to the next index though the queue has just become shorter.
  pub clear_expired_half :
      (now : ℕ) (c : Cache V)
      → IsValid c
      → AllOver now c
      → (c' : Cache V) × (clear_expired now c ≡ ok c')
        × (length c'.queue.items ≡ length c.queue.items / 2)
  unfolding clear_expired
  clear_expired_half now c v all = Yields-inv (
      Yields-weaken (λ d half. ground (arith, half))
        (clear_from_half (length c.queue.items + 1) now 0 c v all (omega arith) (omega arith)))
