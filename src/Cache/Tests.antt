-- ===== src/Cache/Tests.antt =====
-- Runs of the cache, and the properties at concrete inputs.
use suite_connector.Prelude.{
  ℕ, zero, suc, Bool-cases, inl, inr, ◌+◌, ◌<◌, ◌≤◌, ◌≡◌, ◌⊎◌, refl, true, false, some, none, [],
  ◌∷◌, length, arith, ◌==◌, if◌then◌else◌,
}
use suite_connector.Prelude.Int.{pos}
use suite_connector.Prelude.Text.{Text, codes, text_eq, text_eq_iff}
use suite_connector.Prelude.Dict.{lookup, insert, erase}
use suite_connector.Prelude.Outcome.{Outcome, ok, ◌>>=◌}
use suite_connector.Util.Timeout.{millisecond}
use suite_connector.Cache.Queue.{
  Element, heappush, push, up, up_loop, less, swap, load, heapremove, remove_at, sift, down,
  down_loop, smaller_child, pop,
}
use suite_connector.Cache.Queue.Swap.{at}
use suite_connector.Cache.Table.{
  Cache, put, remove, first, pause_time, clear_expired, clear_from, has_expired, remove0, add0,
  new_ttl_cache, size,
}
use suite_connector.Cache.Table.Valid.{IsValid, Entry, view}
use suite_connector.Cache.Table.Holds.{Holds, with_entry, without_key, is_some}
use suite_connector.Cache.Table.Refines.{put_refines, remove_refines}
use suite_connector.Cache.Table.Expiry.{first_expires_first, pause_time_bounds}
use suite_connector.Cache.Table.Cleaning.{Cleared, clear_expired_spares, clear_expired_half}

abbrev key_a : Text
key_a = codes "a"

abbrev key_b : Text
key_b = codes "b"

-- Two elements; the younger one expires first.
abbrev cell : ℕ → Element ℕ
cell a =
    if a == 1
    then record { index = some 0; key = key_b; value = 7; ttl = pos 20; exp_time = 30 }
    else record { index = some 1; key = key_a; value = 5; ttl = pos 40; exp_time = 40 }

abbrev two : Cache ℕ
two = record {
  closed = false;
  queue = record { cell = cell; items = 1 ∷ 0 ∷ [] };
  elements = (key_a, 0) ∷ (key_b, 1) ∷ [];
  next = 2;
}

two-listed :
    (i : ℕ) → i < 2 → lookup (cell (at two.queue i)).key two.elements ≡ some (at two.queue i)
unfolding lookup text_eq
two-listed zero h = refl
two-listed (suc zero) h = refl
two-listed (suc (suc i)) h = absurd (omega arith)

two-queued :
    (k : Text) (a : ℕ)
    → lookup k two.elements ≡ some a
    → ((cell a).key ≡ k) × ((i : ℕ) × (i < 2) × (at two.queue i ≡ a))
unfolding lookup
two-queued k a e = elim (Bool-cases (text_eq key_a k)) [
  | inl same ↦
      (ground (arith, e, same, text_eq_iff key_a k), (1, ground arith, ground (arith, e, same)))
  | inr other ↦
      let this : text_eq key_b k ≡ true = ground (arith, e, other) in
      (
        ground (arith, e, this, other, text_eq_iff key_b k),
        (0, ground arith, ground (arith, e, this, other)),
      )
]

two-IsValid : IsValid two
unfolding lookup
two-IsValid = record {
  map = (unfold text_eq in refl, (refl, tt));
  linked = record { indexed = λ i h. ground arith; listed = two-listed; queued = two-queued };
  heap = λ c p h. ground arith;
  used = λ k a e. ground arith;
}

put_refines_example :
    (c' : Cache ℕ) × (put 10 key_b 8 (pos 40) two ≡ ok (c', true))
    × Holds (with_entry key_b (record { value = 8; ttl = pos 40; exp_time = 50 }) (view two)) two c'
put_refines_example = put_refines 10 key_b 8 (pos 40) two two-IsValid refl (ground arith)

remove_refines_example :
    (c' : Cache ℕ) × (remove key_b two ≡ ok (c', is_some (view two key_b)))
    × Holds (without_key key_b (view two)) two c'
remove_refines_example = remove_refines key_b two two-IsValid refl

first_expires_first_run :
    ((first two ≡ none) × ((k : Text) → view two k ≡ none))
    ⊎ ((k : Text) × (e : Entry ℕ) × (view two k ≡ some e)
        × (first two ≡ some e.value)
        × ((j : Text) (d : Entry ℕ) → view two j ≡ some d → e.exp_time ≤ d.exp_time))
first_expires_first_run = first_expires_first two two-IsValid refl

abbrev entry_b : Entry ℕ
entry_b = record { value = 7; ttl = pos 20; exp_time = 30 }

pause_time_bounds_run :
    (12 + pause_time 12 two ≤ 30)
    ⊎ ((pause_time 12 two ≡ millisecond)
        × ((j : Text) × (d : Entry ℕ) × (view two j ≡ some d) × (d.exp_time < 12)))
unfolding view lookup text_eq
pause_time_bounds_run = pause_time_bounds two two-IsValid 12 key_b entry_b refl

clear_expired_spares_example : (c' : Cache ℕ) × (clear_expired 35 two ≡ ok c') × Cleared 35 two c'
clear_expired_spares_example = clear_expired_spares 35 two two-IsValid

two-AllOver : (i : ℕ) → i < 2 → has_expired 100 (cell (at two.queue i)) ≡ true
unfolding has_expired
two-AllOver zero h = refl
two-AllOver (suc zero) h = refl
two-AllOver (suc (suc i)) h = absurd (omega arith)

clear_expired_half_example :
    (c' : Cache ℕ) × (clear_expired 100 two ≡ ok c') × (length c'.queue.items ≡ 1)
clear_expired_half_example = clear_expired_half 100 two two-IsValid two-AllOver

-- Three keys put in, the last to expire first: First gives the one that expires first, and the
-- cleaner, once all have expired, leaves one.
abbrev three : Outcome (Cache ℕ)
three = do
  (c, _) ← put 0 key_a 1 (pos 30) (new_ttl_cache cell)
  (d, _) ← put 1 key_b 2 (pos 20) c
  (e, _) ← put 2 (codes "c") 3 (pos 10) d
  ok e

three-first : (three >>= λ c. ok (first c)) ≡ ok (some 3)
unfolding put new_ttl_cache first add0 heappush push up up_loop less swap load lookup insert text_eq
three-first = refl

three-cleared : (three >>= λ c. clear_expired 1000 c >>= λ d. ok (size d)) ≡ ok (some 1)
unfolding put new_ttl_cache size add0 heappush push up up_loop less swap load lookup insert text_eq
    clear_expired clear_from has_expired remove0 heapremove remove_at sift down down_loop
    smaller_child pop erase
three-cleared = refl
