-- ===== src/Connector/Subscriber/Loop.antt =====
-- connector/subscriber.go: messageloop, as interleavings of the calls of handler, which the mutex lets
-- through one at a time, with the goroutine of runMessageLoop and with what happens outside.
use suite_connector.Prelude.{
  ℕ, Bool, true, false, ◌||◌, Option, none, some, List, [], ◌∷◌, ◌++◌, if◌then◌else◌,
}
use suite_connector.Prelude.Text.{Text}
use suite_connector.Connector.Context.{Context, Message, set_topic_to_ctx, set_qos_to_ctx}
use suite_connector.Connector.Subscriber.{MqttMessage}

-- Who holds processMessage: a call of handler, and where it is, or the goroutine.
pub data Lock : Type 0 where
  free by_loop : Lock
  entered : MqttMessage → Lock
  offering awaiting : Message → Lock

-- Where the goroutine is: in its select, behind the first store, behind the stopper, with the mutex,
-- behind the second store, behind the deferred Unlock, and behind the deferred close of `out`.
pub data Stage : Type 0 where
  listening flagged stopped locked flagged_again unlocked ended : Stage

-- What happens: Close of the subscriber, the end of the context, a step of handler, or one of the
-- goroutine. A call of handler enters with its message, looks at the flag and reads the message, and
-- hands it over or gives up, for the closing channel; then it is answered by the router (acknowledged
-- or not), its time runs out, or it gives up.
pub data Event : Type 0 where
  close_called context_done : Event
  arrives : MqttMessage → Event
  looks hands_over gives_up answered times_out : Event
  wakes stops locks flags_again unlocks closes : Event

pub record Loop : Type 0 where
  pub topic_closed : Bool
  pub closing : Bool
  pub cancelled : Bool
  pub out_closed : Bool
  pub panicked : Bool
  pub lock : Lock
  pub stage : Stage
  pub delivered : List Message

abbrev pub new_loop : Loop
new_loop = record {
  topic_closed = false;
  closing = false;
  cancelled = false;
  out_closed = false;
  panicked = false;
  lock = free;
  stage = listening;
  delivered = [];
}

module _ (unmarshal : ℕ → Text → Option Message) (auto_ack : Bool) (ctx : Context) where
  -- From the test of the flag to the select.
  unfoldable pub look : MqttMessage → Loop → Loop
  look m s =
      let read : Lock = elim (unmarshal m.message_id m.payload) [
        | none ↦ free
        | some msg ↦
            offering (record msg { ctx = set_qos_to_ctx (set_topic_to_ctx ctx m.topic) m.qos })
      ] in
      record s { lock = if s.topic_closed then free else read }

  -- `l.out <- msg`, which panics on a closed channel.
  unfoldable pub send : Message → Loop → Loop
  send msg s =
      let lock = if auto_ack then free else awaiting msg in
      if s.out_closed
      then record s { panicked = true }
      else record s { lock = lock; delivered = s.delivered ++ msg ∷ [] }

  -- A step of the handler that holds the mutex; `none` where it cannot be made.
  unfoldable pub handler_step : Event → Lock → Loop → Option Loop
  unfolding look send
  handler_step (arrives m) free s = some (record s { lock = entered m })
  handler_step looks (entered m) s = some (look m s)
  handler_step hands_over (offering msg) s = some (send msg s)
  handler_step gives_up (offering msg) s =
      if s.closing then some (record s { lock = free }) else none
  handler_step gives_up (awaiting msg) s =
      if s.closing then some (record s { lock = free }) else none
  handler_step answered (awaiting msg) s = some (record s { lock = free })
  handler_step times_out (awaiting msg) s = some (record s { lock = free })
  handler_step _ _ s = none

  -- A step of the goroutine.
  unfoldable pub loop_step : Event → Stage → Loop → Option Loop
  loop_step wakes listening s =
      if s.closing || s.cancelled
      then some (record s { topic_closed = true; stage = flagged })
      else none
  loop_step stops flagged s = some (record s { stage = stopped })
  loop_step locks stopped s = elim s.lock [
    | free ↦ some (record s { lock = by_loop; stage = locked })
    | _ ↦ none
  ]
  loop_step flags_again locked s = some (record s { topic_closed = true; stage = flagged_again })
  loop_step unlocks flagged_again s = some (record s { lock = free; stage = unlocked })
  loop_step closes unlocked s =
      some (record s { out_closed = true; panicked = s.panicked || s.out_closed; stage = ended })
  loop_step _ _ s = none

  unfoldable pub step : Event → Loop → Option Loop
  unfolding handler_step loop_step
  step close_called s = some (record s { closing = true })
  step context_done s = some (record s { cancelled = true })
  step (arrives m) s = handler_step (arrives m) s.lock s
  step looks s = handler_step looks s.lock s
  step hands_over s = handler_step hands_over s.lock s
  step gives_up s = handler_step gives_up s.lock s
  step answered s = handler_step answered s.lock s
  step times_out s = handler_step times_out s.lock s
  step e s = loop_step e s.stage s

  unfoldable pub run : List Event → Loop → Option Loop
  unfolding step
  run [] s = some s
  run (e ∷ es) s = elim (step e s) [ none ↦ none | some s' ↦ run es s' ]
