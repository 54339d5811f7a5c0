-- ===== src/Connector/Connection/Disposal/Tests.antt =====
-- A run in which onConnected has the record before unsubscribe, and the properties at it.
use suite_connector.Prelude.{◌≡◌, refl, true, false, some, List, [], ◌∷◌, arith}
use suite_connector.Prelude.Text.{codes}
use suite_connector.Connector.Connection.{
  SubscriptionInfo, loop, unsubscribe_topics, unsubscribe_packets,
}
use suite_connector.Connector.Connection.Disposal.{
  free, ended, flagged, by_deleter, Shared, Event, visits, reader_locks, checks, sends, takes,
  deleter_locks, disposes, releases, unlocks, resubscription, reader_step, deleter_step, step, run,
}
use suite_connector.Connector.Connection.Disposal.Final.{
  Released, unsubscribed_is_final, unsubscribe_ends,
}

abbrev info : SubscriptionInfo
info = record { topics = codes "a/#" ∷ []; callback = loop 1; qos = 1; disposed = false }

-- Two goroutines have the record: one sends before unsubscribe has the lock, the other comes too late.
abbrev begun : List Event
begun = visits ∷ visits ∷ takes ∷ reader_locks ∷ checks ∷ sends ∷ deleter_locks ∷ disposes ∷ []

abbrev events : List Event
events =
    visits
    ∷ visits
    ∷ takes
    ∷ reader_locks
    ∷ checks
    ∷ sends
    ∷ deleter_locks
    ∷ disposes
    ∷ releases true
    ∷ unlocks
    ∷ []

abbrev disposed : SubscriptionInfo
disposed = record info { disposed = true }

abbrev flagged_state : Shared
flagged_state = record {
  info = disposed;
  lock = by_deleter;
  waiting = 1;
  deleter = flagged;
  sent = resubscription info ∷ [];
}

abbrev final_state : Shared
final_state = record {
  info = disposed;
  lock = free;
  waiting = 1;
  deleter = ended;
  sent = resubscription info ∷ unsubscribe_topics (codes "a/#" ∷ []) ∷ [];
}

abbrev late_state : Shared
late_state = record final_state { waiting = 0 }

unsubscribed_is_final_example :
    Released true (codes "a/#" ∷ []) ended final_state.sent × (late_state.sent ≡ final_state.sent)
unfolding run step reader_step deleter_step unsubscribe_packets
unsubscribed_is_final_example =
    unsubscribed_is_final true info [] events (reader_locks ∷ checks ∷ []) final_state late_state
      refl refl refl

unsubscribe_ends_example :
    (fs : List Event) × (s' : Shared) × (run true fs flagged_state ≡ some s') × (s'.deleter ≡ ended)
unfolding run step reader_step deleter_step
unsubscribe_ends_example = unsubscribe_ends true info [] begun flagged_state refl (ground arith)
