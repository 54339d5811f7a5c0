-- ===== src/Connector/Subscriber/Delivery.antt =====
-- What the router sees of a message, and what stopping a subscription undoes.
use suite_connector.Prelude.{ℕ, ◌≡◌, Bool, false, Option, none, some, arith, Option-cases, inl, inr}
use suite_connector.Prelude.Text.{Text}
use suite_connector.Connector.Context.{
  Context, Message, topic_from_ctx, qos_from_ctx, set_topic_to_ctx, set_qos_to_ctx,
}
use suite_connector.Connector.Subscriber.{
  MqttMessage, Handover, taken, Reply, Fate, topic_closed, unmarshal_failed, not_consumed, consumed,
  replied, handler,
}

-- The message that a fate hands to the router.
abbrev pub delivered : Fate → Option Message
delivered (consumed m) = some m
delivered (replied m r) = some m
delivered topic_closed = none
delivered unmarshal_failed = none
delivered not_consumed = none

-- A message that the router sees comes from an open loop, is what the unmarshaller read, and carries
-- the topic and the quality of service of the MQTT message in its context.
pub handler-delivered :
    (unmarshal : ℕ → Text → Option Message) (is_topic_closed auto_ack : Bool) (ctx : Context)
    (m : MqttMessage) (handover : Handover) (reply : Reply) (out : Message)
    → delivered (handler unmarshal is_topic_closed auto_ack ctx m handover reply) ≡ some out
    → (is_topic_closed ≡ false)
      × (handover ≡ taken)
      × (topic_from_ctx out.ctx ≡ some m.topic)
      × (qos_from_ctx out.ctx ≡ some m.qos)
      × ((read : Message) × (unmarshal m.message_id m.payload ≡ some read)
          × (out.payload ≡ read.payload)
          × (out.uuid ≡ read.uuid))
unfolding handler set_topic_to_ctx set_qos_to_ctx topic_from_ctx qos_from_ctx
handler-delivered unmarshal is_topic_closed auto_ack ctx m handover reply out h =
    elim (Option-cases (unmarshal m.message_id m.payload)) [
      | inl unreadable ↦ absurd (ground (arith, h, unreadable))
      | inr (read, e) ↦ (
        ground (arith, h, e),
        ground (arith, h, e),
        ground (arith, h, e),
        ground (arith, h, e),
        (read, e, ground (arith, h, e), ground (arith, h, e)),
      )
    ]
