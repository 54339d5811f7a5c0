-- ===== src/Cache/Queue.antt =====
-- cache/cache.go: the elements and their priority queue, with the functions of package container/heap
-- that it calls. An element is known by its address, and the queue is a slice of addresses; `cell`
-- gives the element at an address. Each element keeps its position in the queue, `none` for -1. An
-- index out of range is a panic. The loops are on fuel, and panic where it runs out; `Queue.Up` and
-- `Queue.Down` show that they are given enough.
pub mod Swap
pub mod Up
pub mod Down
pub mod Remove
pub mod Push
use suite_connector.Prelude.{
  ℕ, zero, suc, ◌+◌, ◌-◌, ◌*◌, ◌/◌, Bool, Option, none, some, List, [], ◌∷◌, ◌++◌, length,
  get_elem?, set, take, ltb, leb, ◌==◌, if◌then◌else◌,
}
use suite_connector.Prelude.Int.{ℤ}
use suite_connector.Prelude.Text.{Text}
use suite_connector.Prelude.Outcome.{Outcome, ok, panic, or_panic, ◌>>=◌}

pub record Element (V : Type 0) : Type 0 where
  pub index : Option ℕ
  pub key : Text
  pub value : V
  pub ttl : ℤ
  pub exp_time : ℕ

pub record Queue (V : Type 0) : Type 0 where
  pub cell : ℕ → Element V
  pub items : List ℕ

abbrev pub parent : ℕ → ℕ
parent j = (j - 1) / 2

module _ {V : Type 0} where
  -- `q[i]`
  unfoldable pub load : Queue V → ℕ → Outcome ℕ
  load q i = or_panic (get_elem? q.items i)

  -- The address `a` gets an element.
  abbrev pub store : ℕ → Element V → Queue V → Queue V
  store a e q = record q { cell = λ b. if a == b then e else q.cell b }

  -- `e.index = i`
  abbrev pub set_index : ℕ → Option ℕ → Queue V → Queue V
  set_index a i q = store a (record (q.cell a) { index = i }) q

  -- Less
  unfoldable pub less : Queue V → ℕ → ℕ → Outcome Bool
  unfolding load
  less q i j = do a ← load q i; b ← load q j; ok (ltb (q.cell a).exp_time (q.cell b).exp_time)

  -- Swap
  unfoldable pub swap : Queue V → ℕ → ℕ → Outcome (Queue V)
  unfolding load
  swap q i j = do
    b ← load q j
    a ← load q i
    let swapped : Queue V = record q { items = set (set q.items i b) j a }
    ok (set_index a (some j) (set_index b (some i) swapped))

  -- Push
  unfoldable pub push : Queue V → ℕ → Queue V
  push q a = set_index a (some (length q.items)) (record q { items = q.items ++ a ∷ [] })

  -- Pop; on an empty queue the load panics.
  unfoldable pub pop : Queue V → Outcome (Queue V)
  unfolding load
  pop q = do
    let n = length q.items - 1
    a ← load q n
    ok (record (set_index a none q) { items = take n q.items })

  -- container/heap: up
  unfoldable pub up_loop : ℕ → Queue V → ℕ → Outcome (Queue V)
  up_loop zero q j = panic
  up_loop (suc k) q j =
      let rise = swap q (parent j) j >>= λ q'. up_loop k q' (parent j) in
      let step = less q j (parent j) >>= λ below. if below then rise else ok q in
      if parent j == j then ok q else step

  unfoldable pub up : Queue V → ℕ → Outcome (Queue V)
  unfolding up_loop
  up q j = up_loop (j + 1) q j

  -- The left child, or the right one if it is there and less.
  unfoldable pub smaller_child : ℕ → Queue V → ℕ → Outcome ℕ
  unfolding less
  smaller_child n q i =
      let left = 2 * i + 1 in
      if ltb (left + 1) n
      then (less q (left + 1) left >>= λ right. ok (if right then left + 1 else left))
      else ok left

  -- container/heap: down, over the first `n` entries; where the loop ends.
  unfoldable pub down_loop : ℕ → ℕ → Queue V → ℕ → Outcome (Queue V × ℕ)
  unfolding smaller_child
  down_loop zero n q i = panic
  down_loop (suc k) n q i =
      let step : Outcome (Queue V × ℕ) = smaller_child n q i >>= λ j.
      let sink = swap q i j >>= λ q'. down_loop k n q' j in
      less q j i >>= λ below. if below then sink else ok (q, i) in
      if leb n (2 * i + 1) then ok (q, i) else step

  -- The answer is whether the entry moved.
  unfoldable pub down : ℕ → Queue V → ℕ → Outcome (Queue V × Bool)
  unfolding down_loop
  down n q i = down_loop (n + 1) n q i >>= λ (q', j). ok (q', ltb i j)

  -- `if !down(h, i, n) { up(h, i) }`
  unfoldable pub sift : ℕ → Queue V → ℕ → Outcome (Queue V)
  unfolding down up
  sift n q i = down n q i >>= λ (q', sunk). if sunk then ok q' else up q' i

  -- container/heap: Remove
  unfoldable pub remove_at : Queue V → ℕ → Outcome (Queue V)
  remove_at q i =
      let n = length q.items - 1 in
      let moved = swap q i n >>= λ q'. sift n q' i in (if n == i then ok q else moved) >>= pop

  -- heap.Push
  unfoldable pub heappush : Queue V → ℕ → Outcome (Queue V)
  unfolding up push
  heappush q a = let q' = push q a in up q' (length q'.items - 1)

  -- heap.Remove at the element's index
  unfoldable pub heapremove : Queue V → ℕ → Outcome (Queue V)
  unfolding remove_at
  heapremove q a = elim (q.cell a).index [ none ↦ panic | some i ↦ remove_at q i ]

  -- heap.Fix at the element's index; at -1 neither loop moves.
  unfoldable pub heapify : Queue V → ℕ → Outcome (Queue V)
  unfolding sift
  heapify q a = elim (q.cell a).index [ none ↦ ok q | some i ↦ sift (length q.items) q i ]
