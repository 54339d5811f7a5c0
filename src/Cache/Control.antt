-- ===== src/Cache/Control.antt =====
-- cache/cache.go: Put, Remove, Close and the cleaner as they interleave. What stands under the mutex
-- is one step; the deferred setchanges of Put and Remove sends on the channel `control` in a step of
-- its own, behind the release of the mutex, and Close closes the channel behind doClose.
pub mod Race
pub mod Quiet
mod Tests
use suite_connector.Prelude.{
  ℕ, zero, suc, ◌+◌, ◌-◌, Bool, true, false, Option, none, some, List, [], ◌∷◌, ltb, if◌then◌else◌,
}
use suite_connector.Prelude.Int.{ℤ}
use suite_connector.Prelude.Text.{Text}
use suite_connector.Prelude.Outcome.{Outcome, ok, err, panic}
use suite_connector.Cache.Queue.{Element}
use suite_connector.Cache.Table.{Cache, new_ttl_cache, put, remove, close, clear_expired}

-- Why a goroutine panics: an operation of the cache does, the channel is closed a second time, or a
-- change is signalled on the closed channel.
pub data Panic : Type 0 where
  by_operation by_second_close by_late_signal : Panic

-- Put at a time, with any time to live; Remove; what Close does under the mutex; a
-- pending signal is sent, or the channel is closed; the cleaner receives a signal, or its timer fires.
pub data Event (V : Type 0) : Type 0 where
  puts : ℕ → Text → V → ℤ → Event V
  removes : Text → Event V
  closes signals shuts receives : Event V
  clears : ℕ → Event V

-- `pending` counts the calls that are still to signal, and `closing` those that are still to close the
-- channel; the channel holds `buffered` signals, eight at most.
pub record Control (V : Type 0) : Type 0 where
  pub cache : Cache V
  pub pending : ℕ
  pub closing : ℕ
  pub buffered : ℕ
  pub channel_closed : Bool
  pub panicked : Option Panic

unfoldable pub new_control : {V : Type 0} → (ℕ → Element V) → Control V
new_control cell = record {
  cache = new_ttl_cache cell;
  pending = 0;
  closing = 0;
  buffered = 0;
  channel_closed = false;
  panicked = none;
}

abbrev pub one_if : Bool → ℕ
one_if b = if b then 1 else 0

module _ {V : Type 0} where
  -- A change of the cache, and whether it is to be signalled.
  unfoldable pub changed : Outcome (Cache V × Bool) → Control V → Control V
  changed (ok (c, fires)) s = record s { cache = c; pending = s.pending + one_if fires }
  changed (err e) s = s
  changed panic s = record s { panicked = some by_operation }

  unfoldable pub cleared : Outcome (Cache V) → Control V → Control V
  cleared (ok c) s = record s { cache = c }
  cleared (err e) s = s
  cleared panic s = record s { panicked = some by_operation }

  -- `c.control <- true`, which waits while the channel is full.
  unfoldable pub signal : Control V → Option (Control V)
  signal s =
      let waiting : Option (Control V) =
        if ltb s.buffered 8
        then some (record s { pending = s.pending - 1; buffered = s.buffered + 1 })
        else none in
      if s.channel_closed
      then some (record s { pending = s.pending - 1; panicked = some by_late_signal })
      else waiting

  -- `close(c.control)`
  unfoldable pub shut : Control V → Control V
  shut s =
      let shut_once = record s { closing = s.closing - 1; channel_closed = true } in
      if s.channel_closed then record s { panicked = some by_second_close } else shut_once

  -- A step, `none` where it cannot be made.
  unfoldable pub step : Event V → Control V → Option (Control V)
  unfolding changed cleared signal shut
  step (puts now key value ttl) s = some (changed (put now key value ttl s.cache) s)
  step (removes key) s = some (changed (remove key s.cache) s)
  step closes s =
      let (c, first) = close s.cache in
      some (record s { cache = c; closing = s.closing + one_if first })
  step signals s = if ltb 0 s.pending then signal s else none
  step shuts s = if ltb 0 s.closing then some (shut s) else none
  step receives s = if ltb 0 s.buffered then some (record s { buffered = s.buffered - 1 }) else none
  step (clears now) s = some (cleared (clear_expired now s.cache) s)

  unfoldable pub run : List (Event V) → Control V → Option (Control V)
  unfolding step
  run [] s = some s
  run (e ∷ es) s = elim (step e s) [ none ↦ none | some s' ↦ run es s' ]
