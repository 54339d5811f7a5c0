-- ===== src/Connector/Trace.antt =====
-- connector/trace.go: the middleware that logs the messages under some topics. The compact form of a
-- JSON text is a library's and an argument, `none` where the text is not JSON.
mod Tests
use suite_connector.Prelude.{
  ◌≡◌, ◌⊎◌, inl, inr, refl, Bool, true, false, Bool-cases, Option, Option-cases, none, some, List,
  [], ◌∷◌, arith, if◌then◌else◌,
}
use suite_connector.Prelude.Text.{Text, is_empty, has_prefix}
use suite_connector.Prelude.Outcome.{Error, Outcome, ok, err}
use suite_connector.Connector.Context.{Message, topic_from_ctx}

-- What is logged for a message: its compact payload, with its identifier.
pub record Logged : Type 0 where
  pub text : Text
  pub uuid : Text

-- Some prefix is one of the topic; the loop ends there.
unfoldable pub is_traced : List Text → Text → Bool
is_traced [] topic = false
is_traced (p ∷ ps) topic = if has_prefix topic p then true else is_traced ps topic

module _ (compact : Text → Option Text) (unreadable : Error) (prefixes : List Text) {A : Type 0}
    (handler : Message → Outcome A) where
  -- What is logged, and what the handler behind it answers.
  unfoldable pub trace : Message → List Logged × Outcome A
  unfolding is_traced
  trace msg =
      let traced : List Logged × Outcome A = elim (compact msg.payload) [
        | none ↦ ([], err unreadable)
        | some text ↦ (record { text = text; uuid = msg.uuid } ∷ [], handler msg)
      ] in
      let by_topic : List Logged × Outcome A = elim (topic_from_ctx msg.ctx) [
        | none ↦ ([], handler msg)
        | some topic ↦ if is_traced prefixes topic then traced else ([], handler msg)
      ] in
      if is_empty msg.payload then ([], handler msg) else by_topic

  -- Either the message is handled as if there was no tracing, or it has a payload that is not JSON
  -- under a traced topic: then it is not handled, and the answer is the error.
  pub trace_hands_on :
      (msg : Message)
      → ((trace msg).1 ≡ handler msg)
        ⊎ ((trace msg ≡ ([], err unreadable))
            × (compact msg.payload ≡ none)
            × (is_empty msg.payload ≡ false)
            × ((t : Text) × (topic_from_ctx msg.ctx ≡ some t) × (is_traced prefixes t ≡ true)))
  unfolding trace
  trace_hands_on msg = elim (Option-cases (topic_from_ctx msg.ctx)) [
    | inl no_topic ↦ inl (ground (arith, no_topic))
    | inr (t, found) ↦ elim (Bool-cases (is_traced prefixes t)) [
      | inr other ↦ inl (ground (arith, found, other))
      | inl traced ↦ elim (Bool-cases (is_empty msg.payload)) [
        | inl empty ↦ inl (ground (arith, found, traced, empty))
        | inr full ↦ elim (Option-cases (compact msg.payload)) [
          | inl unread ↦
              inr (ground (arith, found, traced, full, unread), unread, full, (t, found, traced))
          | inr (text, read) ↦ inl (ground (arith, found, traced, full, read))
        ]
      ]
    ]
  ]
