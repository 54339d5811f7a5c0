-- ===== src/Connector/Subscriber.antt =====
-- connector/subscriber.go: a subscriber over a connection, and the message loop that hands messages
-- to the router. The unmarshaller is an interface of the source and an argument; what the selects of
-- the loop see is given.
pub mod Delivery
pub mod Loop
pub mod Interleavings
pub mod Ends
mod Tests
use suite_connector.Prelude.{
  ℕ, ◌≡◌, Bool, true, false, Option, none, some, List, [], ◌∷◌, ltb, if◌then◌else◌,
}
use suite_connector.Prelude.Text.{Text, is_empty}
use suite_connector.Prelude.Outcome.{closed, Outcome, ok, err, ◌>>=◌}
use suite_connector.Connector.Context.{Context, Message, set_topic_to_ctx, set_qos_to_ctx}
use suite_connector.Connector.Connection.{
  Callback, loop, Packet, Registry, parse_subs, subscribe, unsubscribe,
}

-- A message as the MQTT client hands it over.
pub record MqttMessage : Type 0 where
  pub message_id : ℕ
  pub topic : Text
  pub qos : ℕ
  pub payload : Text

-- The first select: the router takes the message, or the subscriber is closing. The second: the
-- acknowledgement times out, the subscriber is closing, or the router answers.
pub data Handover : Type 0 where
  taken closing : Handover

pub data Reply : Type 0 where
  ack_timeout reply_closing acked nacked : Reply

-- What became of a message. A message that was not taken is lost to the router.
pub data Fate : Type 0 where
  topic_closed unmarshal_failed not_consumed : Fate
  consumed : Message → Fate
  replied : Message → Reply → Fate

module _ (unmarshal : ℕ → Text → Option Message) where
  unfoldable pub handler : Bool → Bool → Context → MqttMessage → Handover → Reply → Fate
  handler is_topic_closed auto_ack ctx m handover reply =
      if is_topic_closed then topic_closed else elim (unmarshal m.message_id m.payload) [
        | none ↦ unmarshal_failed
        | some msg ↦
            let routed = record msg { ctx = set_qos_to_ctx (set_topic_to_ctx ctx m.topic) m.qos } in
            elim handover [
              | taken ↦ if auto_ack then consumed routed else replied routed reply
              | closing ↦ not_consumed
            ]
      ]

-- The subscriber's part of the connection: the registry and the default handler.
pub record Routes : Type 0 where
  pub registry : Registry
  pub default_handler : Option ℕ

pub record Subscriber : Type 0 where
  pub is_closed : Bool
  pub qos : ℕ
  pub buff_size : ℕ
  pub auto_delete : Bool

-- NewSubscriber and NewBufferedSubscriber, which asks for quality 0.
abbrev pub new_subscriber : ℕ → Bool → Subscriber
new_subscriber qos auto_delete = record {
  is_closed = false;
  qos = qos;
  buff_size = 0;
  auto_delete = auto_delete;
}

abbrev pub new_buffered_subscriber : ℕ → Bool → Subscriber
new_buffered_subscriber buff_size auto_delete = record {
  is_closed = false;
  qos = 0;
  buff_size = buff_size;
  auto_delete = auto_delete;
}

-- The identifier of a subscription, `none` for the default handler.
unfoldable pub subscribe_topic :
    Bool → Text → Subscriber → ℕ → Text → Routes → Outcome (Option Text × Routes × List Packet)
subscribe_topic is_open uuid sub handler topic r =
    if sub.is_closed
    then err closed
    else if is_empty topic
    then ok (none, record r { default_handler = some handler }, [])
    else subscribe is_open uuid (loop handler) sub.qos (parse_subs topic) r.registry
      >>= λ (id, registry, packets). ok (some id, record r { registry = registry }, packets)

-- The stopper that the message loop runs when the subscriber closes or its context ends.
unfoldable pub stop_topic : Bool → Subscriber → Option Text → Routes → Routes × List Packet
stop_topic is_open sub none r = (record r { default_handler = none }, [])
stop_topic is_open sub (some id) r =
    let (registry, packets) = unsubscribe is_open id sub.auto_delete r.registry in
    (record r { registry = registry }, packets)
