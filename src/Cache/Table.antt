-- ===== src/Cache/Table.antt =====
-- cache/cache.go: Cache and its operations. The time is an argument, as a number of nanoseconds; an
-- operation that changes the elements answers whether it signals the cleaner.
pub mod Valid
pub mod Holds
pub mod Refines
pub mod Expiry
pub mod Cleaning
use suite_connector.Prelude.{
  ℕ, zero, suc, ◌+◌, ◌-◌, ◌*◌, Bool, true, false, not, ◌||◌, Option, none, some, List, [], ◌∷◌,
  length, get_elem?, ltb, leb, ◌==◌, if◌then◌else◌,
}
use suite_connector.Prelude.Int.{ℤ, pos, negsuc, pos_part, ltb_ℤ}
use suite_connector.Prelude.Text.{Text}
use suite_connector.Prelude.Dict.{lookup, insert, erase}
use suite_connector.Prelude.Outcome.{Outcome, ok, panic, ◌>>=◌}
use suite_connector.Util.Timeout.{minute, millisecond}
use suite_connector.Cache.Queue.{Element, Queue, store, load, heappush, heapremove, heapify}

-- What startCleaner's select sees: a signal of a change, the channel closed, or its timer with the time.
pub data Wake : Type 0 where
  changed control_closed : Wake
  timer : ℕ → Wake

-- `next` is the address of the next element that is made.
pub record Cache (V : Type 0) : Type 0 where
  pub closed : Bool
  pub queue : Queue V
  pub elements : List (Text × ℕ)
  pub next : ℕ

-- NewTTLCache; no address is in use.
unfoldable pub new_ttl_cache : {V : Type 0} → (ℕ → Element V) → Cache V
new_ttl_cache cell = record {
  closed = false;
  queue = record { cell = cell; items = [] };
  elements = [];
  next = 0;
}

module _ {V : Type 0} where
  -- Size, `none` for -1.
  unfoldable pub size : Cache V → Option ℕ
  size c = if c.closed then none else some (length c.elements)

  -- First, which removes nothing.
  unfoldable pub first : Cache V → Option V
  first c =
      let head : Option V = elim c.queue.items [
        | [] ↦ none
        | a ∷ _ ↦ some (c.queue.cell a).value
      ] in
      if c.closed then none else head

  unfoldable pub get : Text → Cache V → Option V
  get key c =
      let found : Option V = elim (lookup key c.elements) [
        | none ↦ none
        | some a ↦ some (c.queue.cell a).value
      ] in
      if c.closed then none else found

  unfoldable pub update0 : ℕ → V → ℤ → ℕ → Cache V → Outcome (Cache V)
  update0 a value ttl exp c =
      let e = record (c.queue.cell a) { ttl = ttl; value = value; exp_time = exp } in
      heapify (store a e c.queue) a >>= λ q. ok (record c { queue = q })

  -- The element is made, and put into the queue and the map.
  unfoldable pub add0 : Text → V → ℤ → ℕ → Cache V → Outcome (Cache V)
  add0 key value ttl exp c =
      let e : Element V = record {
        index = none;
        key = key;
        value = value;
        ttl = ttl;
        exp_time = exp;
      } in
      heappush (store c.next e c.queue) c.next >>= λ q.
      ok (record c { queue = q; elements = insert key c.next c.elements; next = c.next + 1 })

  unfoldable pub remove0 : ℕ → Cache V → Outcome (Cache V)
  remove0 a c = heapremove c.queue a >>= λ q.
      ok (record c { queue = q; elements = erase (c.queue.cell a).key c.elements })

  -- Put, at the time `now`.
  unfoldable pub put : ℕ → Text → V → ℤ → Cache V → Outcome (Cache V × Bool)
  put now key value ttl c =
      let exp = now + pos_part ttl in
      let stored : Outcome (Cache V) = elim (lookup key c.elements) [
        | some a ↦ update0 a value ttl exp c
        | none ↦ add0 key value ttl exp c
      ] in
      if ltb_ℤ ttl (pos 0)
      then panic
      else if c.closed
      then ok (c, false)
      else (stored >>= λ c'. ok (c', true))

  unfoldable pub remove : Text → Cache V → Outcome (Cache V × Bool)
  remove key c =
      let removed : Outcome (Cache V × Bool) = elim (lookup key c.elements) [
        | some a ↦ remove0 a c >>= λ c'. ok (c', true)
        | none ↦ ok (c, false)
      ] in
      if c.closed then ok (c, false) else removed

  -- Close, and whether it closes the cleaner's channel.
  unfoldable pub close : Cache V → Cache V × Bool
  close c = (record c { closed = true }, not c.closed)

  unfoldable pub has_expired : ℕ → Element V → Bool
  has_expired now e =
      let is_zero : ℤ → Bool = λ t. elim t [ pos n ↦ n == 0 | negsuc _ ↦ false ] in
      is_zero e.ttl || ltb e.exp_time now

  -- How long the cleaner waits.
  unfoldable pub pause_time : ℕ → Cache V → ℕ
  pause_time now c = elim c.queue.items [
    | [] ↦ 10 * minute
    | a ∷ _ ↦ let exp = (c.queue.cell a).exp_time in if ltb exp now then millisecond else exp - now
  ]

  -- The loop of clearExpired from index `i` on, with fuel for every index.
  unfoldable pub clear_from : ℕ → ℕ → ℕ → Cache V → Outcome (Cache V)
  clear_from zero now i c = panic
  clear_from (suc k) now i c =
      let go_on : ℕ → Outcome (Cache V) = λ a. remove0 a c >>= λ c'. clear_from k now (i + 1) c' in
      let step : Outcome (Cache V) =
        load c.queue i >>= λ a. if has_expired now (c.queue.cell a) then go_on a else ok c in
      if ltb i (length c.queue.items) then step else ok c

  unfoldable pub clear_expired : ℕ → Cache V → Outcome (Cache V)
  unfolding clear_from
  clear_expired now c = clear_from (length c.queue.items + 1) now 0 c

  -- startCleaner: the cache, and whether the loop has ended.
  unfoldable pub start_cleaner : List Wake → Cache V → Outcome (Cache V × Bool)
  start_cleaner [] c = ok (c, false)
  start_cleaner (changed ∷ ws) c = start_cleaner ws c
  start_cleaner (control_closed ∷ ws) c = ok (c, true)
  start_cleaner (timer now ∷ ws) c = clear_expired now c >>= start_cleaner ws
