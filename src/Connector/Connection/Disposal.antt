-- ===== src/Connector/Connection/Disposal.antt =====
-- connector/connection.go: one record of the registry, as the goroutines of onConnected and the call of
-- unsubscribe that has loaded and deleted it interleave over its lock. The range over the registry may
-- hand the record out also while, or after, it is deleted.
pub mod Final
mod Tests
use suite_connector.Prelude.{
  ℕ, zero, suc, Bool, true, false, Option, none, some, List, [], ◌∷◌, ◌++◌, if◌then◌else◌,
}
use suite_connector.Prelude.Text.{Text}
use suite_connector.Connector.Connection.{
  Packet, subscribe_multiple, SubscriptionInfo, sub_filters, unsubscribe_packets,
}

-- Who holds the lock: nobody, a goroutine of onConnected before its test of the flag or before its
-- packet, or unsubscribe.
pub data Holder : Type 0 where
  free checking sending by_deleter : Holder

-- Where unsubscribe is: not called, behind LoadAndDelete, with the lock, behind the flag, behind its
-- packets, and at its end.
pub data Deleter : Type 0 where
  uncalled taken locked flagged released ended : Deleter

-- `waiting` counts the goroutines of onConnected that have the record and wait for its lock.
pub record Shared : Type 0 where
  pub info : SubscriptionInfo
  pub lock : Holder
  pub waiting : ℕ
  pub deleter : Deleter
  pub sent : List Packet

pub data Event : Type 0 where
  visits reader_locks checks sends : Event
  takes deleter_locks disposes unlocks : Event
  releases : Bool → Event

-- Behind subscribe, which has sent its own packets.
abbrev pub stored : SubscriptionInfo → List Packet → Shared
stored info sent = record {
  info = record info { disposed = false };
  lock = free;
  waiting = 0;
  deleter = uncalled;
  sent = sent;
}

abbrev pub resubscription : SubscriptionInfo → Packet
resubscription s = subscribe_multiple (sub_filters s.qos s.topics) s.callback

module _ (auto_delete : Bool) where
  -- A step of a goroutine of onConnected; `none` where it cannot be made.
  unfoldable pub reader_step : Event → Holder → ℕ → Shared → Option Shared
  reader_step visits lock n s = some (record s { waiting = suc n })
  reader_step reader_locks free (suc n) s = some (record s { lock = checking; waiting = n })
  reader_step checks checking n s =
      some (record s { lock = if s.info.disposed then free else sending })
  reader_step sends sending n s =
      some (record s { lock = free; sent = s.sent ++ resubscription s.info ∷ [] })
  reader_step _ _ _ s = none

  -- A step of unsubscribe; its packets depend on whether the connection is open.
  unfoldable pub deleter_step : Event → Holder → Deleter → Shared → Option Shared
  deleter_step takes lock uncalled s = some (record s { deleter = taken })
  deleter_step deleter_locks free taken s = some (record s { lock = by_deleter; deleter = locked })
  deleter_step disposes lock locked s =
      some (record s { info = record (s.info) { disposed = true }; deleter = flagged })
  deleter_step (releases is_open) lock flagged s = some (record s {
    sent = s.sent ++ unsubscribe_packets is_open auto_delete s.info.topics;
    deleter = released;
  })
  deleter_step unlocks lock released s = some (record s { lock = free; deleter = ended })
  deleter_step _ _ _ s = none

  unfoldable pub step : Event → Shared → Option Shared
  unfolding reader_step deleter_step
  step visits s = reader_step visits s.lock s.waiting s
  step reader_locks s = reader_step reader_locks s.lock s.waiting s
  step checks s = reader_step checks s.lock s.waiting s
  step sends s = reader_step sends s.lock s.waiting s
  step e s = deleter_step e s.lock s.deleter s

  unfoldable pub run : List Event → Shared → Option Shared
  unfolding step
  run [] s = some s
  run (e ∷ es) s = elim (step e s) [ none ↦ none | some s' ↦ run es s' ]
