-- ===== src/Cache/Table/Expiry.antt =====
-- The order of expiry: what First gives, and how long the cleaner sleeps.
use suite_connector.Prelude.{
  ℕ, zero, suc, ◌+◌, ◌≤◌, ◌<◌, ◌≡◌, ◌⊎◌, refl, false, Option-cases, List-cases, Bool-cases, inl,
  inr, none, some, length, arith, ltb,
}
use suite_connector.Prelude.Text.{Text}
use suite_connector.Prelude.Dict.{lookup}
use suite_connector.Util.Timeout.{millisecond}
use suite_connector.Cache.Queue.{Queue, parent}
use suite_connector.Cache.Queue.Swap.{at, exp}
use suite_connector.Cache.Queue.Push.{IsHeap}
use suite_connector.Cache.Table.{Cache, first, pause_time}
use suite_connector.Cache.Table.Valid.{IsValid, Entry, entry, view}

module _ {V : Type 0} where
  root_least_below :
      (k : ℕ) (q : Queue V) (i : ℕ) → IsHeap q → i < k → i < length q.items → exp q 0 ≤ exp q i
  root_least_below zero q i heap f h = absurd (omega arith)
  root_least_below (suc k) q i heap f h =
      ground (arith, heap i, root_least_below k q (parent i) heap)

  pub root_least : (q : Queue V) (i : ℕ) → IsHeap q → i < length q.items → exp q 0 ≤ exp q i
  root_least q i heap h = root_least_below (suc i) q i heap (omega arith) h

  module _ (c : Cache V) (v : IsValid c) where
    -- The entry of a key is at some position.
    placed :
        (k : Text) (e : Entry V)
        → view c k ≡ some e
        → (i : ℕ) × (i < length c.queue.items) × (exp c.queue i ≡ e.exp_time)
    unfolding view
    placed k e h = elim (Option-cases (lookup k c.elements)) [
      | inl missing ↦ absurd (ground (arith, h, missing))
      | inr (a, found) ↦
          let (named, (i, hi, ei)) = v.linked.queued k a found in (i, hi, ground (arith, h, found))
    ]

    -- The key of the element at a position has its entry.
    shown :
        (i : ℕ)
        → i < length c.queue.items
        → view c (c.queue.cell (at c.queue i)).key ≡ some (entry (c.queue.cell (at c.queue i)))
    unfolding view
    shown i h = rw (v.linked.listed i h, view) refl

    head-least :
        (k : Text) (e : Entry V)
        → view c k ≡ some e
        → (0 < length c.queue.items) × (exp c.queue 0 ≤ e.exp_time)
    head-least k e h =
        let (i, hi, ei) = placed k e h in
        (omega arith, omega (arith, root_least c.queue i v.heap hi))

    -- On an open, valid cache First gives the value of an entry that no other entry expires before,
    -- and nothing only if there is no entry.
    pub first_expires_first :
        c.closed ≡ false
        → ((first c ≡ none) × ((k : Text) → view c k ≡ none))
          ⊎ ((k : Text) × (e : Entry V) × (view c k ≡ some e)
              × (first c ≡ some e.value)
              × ((j : Text) (d : Entry V) → view c j ≡ some d → e.exp_time ≤ d.exp_time))
    unfolding first
    first_expires_first is_open = elim (List-cases c.queue.items) [
      | inl empty ↦ inl (
        ground (arith, empty),
        λ k. elim (Option-cases (view c k)) [
          | inl missing ↦ missing
          | inr (e, found) ↦ absurd (ground (arith, empty, head-least k e found))
        ],
      )
      | inr (a, others, full) ↦ inr (
        (c.queue.cell (at c.queue 0)).key,
        entry (c.queue.cell (at c.queue 0)),
        shown 0 (ground (arith, full)),
        ground (arith, full),
        λ j d found. (head-least j d found).1,
      )
    ]

    -- The cleaner sleeps no longer than until the first expiry, unless something has expired before:
    -- then it sleeps for a millisecond.
    pub pause_time_bounds :
        (now : ℕ) (k : Text) (e : Entry V)
        → view c k ≡ some e
        → (now + pause_time now c ≤ e.exp_time)
          ⊎ ((pause_time now c ≡ millisecond)
              × ((j : Text) × (d : Entry V) × (view c j ≡ some d) × (d.exp_time < now)))
    unfolding pause_time
    pause_time_bounds now k e h = elim (List-cases c.queue.items) [
      | inl empty ↦ absurd (ground (arith, empty, head-least k e h))
      | inr (a, others, full) ↦ elim (Bool-cases (ltb (exp c.queue 0) now)) [
        | inl late ↦ inr (
          ground (arith, full, late),
          (
            (c.queue.cell (at c.queue 0)).key,
            entry (c.queue.cell (at c.queue 0)),
            shown 0 (ground (arith, full)),
            ground (arith, late),
          ),
        )
        | inr early ↦ inl (ground (arith, full, early, head-least k e h))
      ]
    ]
