-- ===== src/Connector/Context.antt =====
-- connector/context.go: topic, quality of service and retain flag in a message's context, which is
-- a chain of key and value pairs, the newest first. A message is watermill's, with the fields that
-- this program uses.
pub mod Laws
use suite_connector.Prelude.{
  ℕ, Bool, true, false, not, Option, none, some, List, [], ◌∷◌, ◌==◌, if◌then◌else◌,
}
use suite_connector.Prelude.Text.{Text}

-- The three keys of the package, each with a value of its type.
pub data Entry : Type 0 where
  topic : Text → Entry
  qos : ℕ → Entry
  retain : Bool → Entry

abbrev pub Context : Type 0
Context = List Entry

pub record Message : Type 0 where
  pub uuid : Text
  pub payload : Text
  pub ctx : Context

abbrev pub bool_eq : Bool → Bool → Bool
bool_eq true b = b
bool_eq false b = not b

unfoldable pub topic_from_ctx : Context → Option Text
topic_from_ctx [] = none
topic_from_ctx (topic t ∷ ctx) = some t
topic_from_ctx (qos q ∷ ctx) = topic_from_ctx ctx
topic_from_ctx (retain r ∷ ctx) = topic_from_ctx ctx

unfoldable pub qos_from_ctx : Context → Option ℕ
qos_from_ctx [] = none
qos_from_ctx (topic t ∷ ctx) = qos_from_ctx ctx
qos_from_ctx (qos q ∷ ctx) = some q
qos_from_ctx (retain r ∷ ctx) = qos_from_ctx ctx

-- `ctx.Value(retainContextKey).(bool)`
unfoldable pub retain_value : Context → Option Bool
retain_value [] = none
retain_value (topic t ∷ ctx) = retain_value ctx
retain_value (qos q ∷ ctx) = retain_value ctx
retain_value (retain r ∷ ctx) = some r

unfoldable pub retain_from_ctx : Context → Bool
retain_from_ctx ctx = elim (retain_value ctx) [ some r ↦ r | none ↦ false ]

unfoldable pub set_topic_to_ctx : Context → Text → Context
set_topic_to_ctx ctx t = topic t ∷ ctx

unfoldable pub set_qos_to_ctx : Context → ℕ → Context
set_qos_to_ctx ctx q = elim (qos_from_ctx ctx) [
  | some old ↦ if not (old == q) then qos q ∷ ctx else qos q ∷ ctx
  | none ↦ qos q ∷ ctx
]

unfoldable pub set_retain_to_ctx : Context → Bool → Context
set_retain_to_ctx ctx r = elim (retain_value ctx) [
  | some old ↦ if not (bool_eq old r) then retain r ∷ ctx else ctx
  | none ↦ if r then retain r ∷ ctx else ctx
]

-- `msg.SetContext(SetTopicToCtx(msg.Context(), t))`
unfoldable pub with_topic : Message → Text → Message
unfolding set_topic_to_ctx
with_topic msg t = record msg { ctx = set_topic_to_ctx msg.ctx t }
