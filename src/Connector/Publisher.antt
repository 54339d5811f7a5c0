-- ===== src/Connector/Publisher.antt =====
-- connector/publisher.go: the publisher, with and without an acknowledgement, and the one that
-- refuses to publish offline. The marshaller is an interface of the source and an argument; the MQTT
-- client's tokens are a library's: what each does is given by the number of its packet.
pub mod Order
use suite_connector.Prelude.{
  ℕ, ◌+◌, ◌≡◌, Bool, true, false, not, ◌&&◌, Option, none, some, List, [], ◌∷◌, map, ltb, ◌==◌,
  if◌then◌else◌,
}
use suite_connector.Prelude.Text.{Text, is_empty}
use suite_connector.Prelude.Outcome.{Error, closed, timeout, not_connected, marshal_failed}
use suite_connector.Connector.Context.{Message, topic_from_ctx, qos_from_ctx, retain_from_ctx}

pub record Publisher : Type 0 where
  pub closed : Bool
  pub qos : ℕ
  -- In nanoseconds; zero for none.
  pub ack_timeout : ℕ

-- NewPublisher and NewSyncPublisher
abbrev pub new_sync_publisher : ℕ → ℕ → Publisher
new_sync_publisher qos ack_timeout = record { closed = false; qos = qos; ack_timeout = ack_timeout }

abbrev pub new_publisher : ℕ → Publisher
new_publisher qos = new_sync_publisher qos 0

pub record Published : Type 0 where
  pub topic : Text
  pub qos : ℕ
  pub retain : Bool
  pub payload : Text

-- Whether a token is done in time, and its error.
pub record Token : Type 0 where
  pub in_time : Bool
  pub error : Option Error

-- defMarshaller.Marshal
unfoldable pub default_marshal : Message → Option Text
default_marshal msg = some msg.payload

unfoldable pub publish_topic : Text → Message → Text
publish_topic topic msg = elim (topic_from_ctx msg.ctx) [
  | none ↦ topic
  | some t ↦ if is_empty t then topic else t
]

unfoldable pub publish_qos : Publisher → Message → ℕ
publish_qos p msg = elim (qos_from_ctx msg.ctx) [ none ↦ p.qos | some q ↦ q ]

-- The packet of a message.
unfoldable pub packet : Publisher → Text → Message → Text → Published
packet p topic msg payload = record {
  topic = publish_topic topic msg;
  qos = publish_qos p msg;
  retain = retain_from_ctx msg.ctx;
  payload = payload;
}

-- Whether the acknowledgement of a packet is waited for.
unfoldable pub awaits_ack : Publisher → Published → Bool
awaits_ack p m = ltb 0 p.ack_timeout && not (m.qos == 0)

-- The error of the wait for a token, if it has one.
unfoldable pub token_error : Token → Option Error
token_error t = if t.in_time then t.error else some timeout

abbrev pub before : Published → List Published × Option Error → List Published × Option Error
before m (ms, e) = (m ∷ ms, e)

module _ (marshal : Message → Option Text) where
  -- From packet number `i` on: what was published, and the error that ended the loop.
  unfoldable pub publish_from :
      Publisher → Text → (ℕ → Token) → ℕ → List Message → List Published × Option Error
  publish_from p topic token i [] = ([], none)
  publish_from p topic token i (msg ∷ msgs) =
      let rest = publish_from p topic token (i + 1) msgs in
      elim (marshal msg) [
        | none ↦ ([], some marshal_failed)
        | some payload ↦
            let m = packet p topic msg payload in
            if awaits_ack p m
            then elim (token_error (token i)) [ some e ↦ (m ∷ [], some e) | none ↦ before m rest ]
            else before m rest
      ]

  unfoldable pub publish :
      Publisher → Text → (ℕ → Token) → List Message → List Published × Option Error
  unfolding publish_from
  publish p topic token msgs =
      if p.closed then ([], some closed) else publish_from p topic token 0 msgs

  -- onlinepub.Publish
  unfoldable pub publish_online :
      Bool → Publisher → Text → (ℕ → Token) → List Message → List Published × Option Error
  unfolding publish
  publish_online is_connected p topic token msgs =
      if is_connected then publish p topic token msgs else ([], some not_connected)
