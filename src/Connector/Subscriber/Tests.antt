-- ===== src/Connector/Subscriber/Tests.antt =====
-- Interleavings of a message loop, and the properties at concrete inputs.
use suite_connector.Prelude.{ℕ, ◌≡◌, ◌⊎◌, refl, true, false, Option, some, List, [], ◌∷◌, All}
use suite_connector.Prelude.Text.{Text, codes}
use suite_connector.Connector.Context.{Message, set_topic_to_ctx, set_qos_to_ctx}
use suite_connector.Connector.Subscriber.{MqttMessage}
use suite_connector.Connector.Subscriber.Loop.{
  offering, ended, Event, close_called, arrives, looks, gives_up, wakes, stops, locks, flags_again,
  unlocks, closes, free, Loop, new_loop, look, handler_step, loop_step, step, run,
}
use suite_connector.Connector.Subscriber.Interleavings.{has_ended, message_loop_safe}
use suite_connector.Connector.Subscriber.Ends.{IsOwn, closing_loop_ends}

abbrev read : ℕ → Text → Option Message
read id payload = some (record { uuid = codes "u"; payload = payload; ctx = [] })

abbrev arrival : MqttMessage
arrival = record { message_id = 1; topic = codes "e"; qos = 1; payload = codes "x" }

-- A message is offered while the subscriber closes; the handler gives up, and the goroutine ends.
abbrev course : List Event
course =
    arrives arrival
    ∷ looks
    ∷ close_called
    ∷ wakes
    ∷ stops
    ∷ gives_up
    ∷ locks
    ∷ flags_again
    ∷ unlocks
    ∷ closes
    ∷ []

abbrev end_state : Loop
end_state = record {
  topic_closed = true;
  closing = true;
  cancelled = false;
  out_closed = true;
  panicked = false;
  lock = free;
  stage = ended;
  delivered = [];
}

course-lem : run read false [] course new_loop ≡ some end_state
unfolding run step handler_step loop_step look
course-lem = refl

message_loop_safe_example :
    (end_state.panicked ≡ false)
    × (end_state.out_closed ≡ has_ended end_state.stage)
    × ((end_state.out_closed ≡ false) ⊎ (end_state.topic_closed ≡ true))
message_loop_safe_example = message_loop_safe read false [] course end_state course-lem

-- A late call of handler finds the flag set.
late_call : run read false [] (arrives arrival ∷ looks ∷ []) end_state ≡ some end_state
unfolding run step handler_step look
late_call = refl

-- A message is offered, and nobody takes it.
abbrev offered : Loop
offered = record new_loop {
  closing = true;
  lock = offering (record {
    uuid = codes "u";
    payload = codes "x";
    ctx = set_qos_to_ctx (set_topic_to_ctx [] (codes "e")) 1;
  });
}

offered-lem :
    run read false [] (arrives arrival ∷ looks ∷ close_called ∷ []) new_loop ≡ some offered
unfolding run step handler_step look
offered-lem = refl

closing_loop_ends_example :
    (fs : List Event) × (s' : Loop) × (run read false [] fs offered ≡ some s')
    × All IsOwn fs
    × (s'.stage ≡ ended)
    × (s'.lock ≡ free)
    × (s'.out_closed ≡ true)
closing_loop_ends_example =
    closing_loop_ends read false [] (arrives arrival ∷ looks ∷ close_called ∷ []) offered
      offered-lem refl
