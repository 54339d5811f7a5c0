-- ===== src/Routing/Events.antt =====
-- routing/events.go and routing/timestamp.go: a local event or telemetry message gets its topic at
-- the hub. The JSON edit of the timestamp middleware is a library's and is an argument.
pub mod Laws
use suite_connector.Prelude.{
  ℕ, zero, suc, ◌+◌, Bool, true, false, ◌&&◌, ◌||◌, not, Option, none, some, List, [], ◌∷◌, ◌++◌,
  if◌then◌else◌, drop, get_elem?,
}
use suite_connector.Prelude.Text.{Text, codes, text_eq, is_empty, split}
use suite_connector.Prelude.Outcome.{no_topic, Outcome, ok, err, ◌>>=◌}
use suite_connector.Connector.Context.{Message, topic_from_ctx, with_topic}
use suite_connector.Routing.Gateway.{join_tail, strip_gateway_id}

pub record EventsHandler : Type 0 where
  pub prefix : Text
  pub tenant_id : Text
  pub device_id : Text
  pub generic : Bool

-- `len(segments) > i && len(segments[i]) > 0`, or the default
unfoldable pub segment_or : Text → List Text → ℕ → Text
segment_or default segments i = elim (get_elem? segments i) [
  | none ↦ default
  | some s ↦ if is_empty s then default else s
]

-- `segments[0]`; the list is never empty.
unfoldable pub message_type : List Text → Text
message_type [] = codes "event"
message_type (s ∷ _) =
    if text_eq s (codes "telemetry") || text_eq s (codes "t")
    then codes "telemetry"
    else codes "event"

-- The name of the device at the hub: behind the gateway's if that is generic.
unfoldable pub hub_device : EventsHandler → Text → Outcome Text
hub_device h dev =
    if h.generic
    then (do
      stripped ← strip_gateway_id h.device_id dev
      ok (h.device_id ++ (codes "/" ++ stripped)))
    else ok dev

unfoldable pub event_topic : EventsHandler → Text → Outcome Text
event_topic h topic = do
  let segments = split topic b'/'
  let tenant = segment_or h.tenant_id segments 1
  let prefix = if h.generic && not (is_empty h.prefix) then h.prefix ++ codes "/" else []
  device ← hub_device h (segment_or h.device_id segments 2)
  ok (
      prefix
      ++ (message_type segments
          ++ (codes "/" ++ (tenant ++ (codes "/" ++ (device ++ join_tail (drop 3 segments)))))))

unfoldable pub handle_event : EventsHandler → Message → Outcome (List Message)
handle_event h msg = elim (topic_from_ctx msg.ctx) [
  | none ↦ err no_topic
  | some topic ↦ event_topic h topic >>= λ hub. ok (with_topic msg hub ∷ [])
]

-- AddTimestamp, over the JSON edit of a payload by the time in milliseconds.
unfoldable pub add_timestamp :
    (Text → ℕ → Outcome Text)
    → ℕ
    → (Message → Outcome (List Message))
    → Message
    → Outcome (List Message)
add_timestamp set_timestamp now h msg = do
  payload ← set_timestamp msg.payload now
  h (record { uuid = msg.uuid; payload = payload; ctx = msg.ctx })
