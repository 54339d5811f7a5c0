-- ===== src/Connector/Trace/Tests.antt =====
-- A message under a traced topic that is no JSON, and the property at a concrete input.
use suite_connector.Prelude.{◌≡◌, ◌⊎◌, refl, true, false, Option, none, some, [], ◌∷◌}
use suite_connector.Prelude.Text.{Text, codes, is_empty, has_prefix}
use suite_connector.Prelude.Outcome.{Outcome, ok, err, external}
use suite_connector.Connector.Context.{Message, topic, topic_from_ctx}
use suite_connector.Connector.Trace.{is_traced, trace, trace_hands_on}

abbrev message : Message
message = record { uuid = codes "1"; payload = codes "x"; ctx = topic (codes "e/a") ∷ [] }

abbrev not_json : Text → Option Text
not_json text = none

abbrev handle : Message → Outcome Text
handle msg = ok msg.payload

trace_run : trace not_json (external 1) (codes "e" ∷ []) handle message ≡ ([], err (external 1))
unfolding trace is_traced topic_from_ctx has_prefix
trace_run = refl

trace_hands_on_run :
    ((trace not_json (external 1) (codes "e" ∷ []) handle message).1 ≡ handle message)
    ⊎ ((trace not_json (external 1) (codes "e" ∷ []) handle message ≡ ([], err (external 1)))
        × (not_json message.payload ≡ none)
        × (is_empty message.payload ≡ false)
        × ((t : Text) × (topic_from_ctx message.ctx ≡ some t)
            × (is_traced (codes "e" ∷ []) t ≡ true)))
trace_hands_on_run = trace_hands_on not_json (external 1) (codes "e" ∷ []) handle message
