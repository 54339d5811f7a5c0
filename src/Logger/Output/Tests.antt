-- ===== src/Logger/Output/Tests.antt =====
-- A call with two fields, and the property at a concrete input.
use suite_connector.Prelude.{◌≡◌, refl, none, some, [], ◌∷◌, ◌++◌, arith}
use suite_connector.Prelude.Text.{Text, codes, text_eq, text_eq_iff}
use suite_connector.Prelude.Dict.{lookup}
use suite_connector.Logger.{enabled, info_level}
use suite_connector.Logger.Output.{
  insert_field, sort_fields, text_le, has_space, write_pair, write_pairs, Logger, all_fields, log,
  log_at,
}
use suite_connector.Logger.Output.Order.{IsSameMap, log_at_same_map}

abbrev quiet : Logger
quiet = record { level = info_level; fields = none }

abbrev topic : Text × Text
topic = (codes "topic", codes "a b")

abbrev qos : Text × Text
qos = (codes "qos", codes "1")

log_at_run :
    log_at (λ old new. old ++ new) info_level quiet (codes "sent") (some (topic ∷ qos ∷ []))
    ≡ some (record { level = info_level; text = codes "sent qos=1 topic=\"a b\" " })
unfolding log_at log all_fields enabled sort_fields insert_field text_le write_pairs write_pair
    has_space
log_at_run = refl

-- A logger with a field of its own, which is put together with that of a call.
abbrev named : Text × Text → Logger
named f = record { level = info_level; fields = some (f ∷ []) }

same_fields : IsSameMap (topic ∷ qos ∷ []) (qos ∷ topic ∷ [])
unfolding lookup text_eq
same_fields = (
  (refl, (refl, tt)),
  (refl, (refl, tt)),
  λ k. ground (arith, text_eq_iff (codes "qos") k, text_eq_iff (codes "topic") k),
)

log_at_same_map_example :
    log_at (λ old new. old ++ new) info_level (named topic) (codes "sent") (some (qos ∷ []))
    ≡ log_at (λ old new. old ++ new) info_level (named qos) (codes "sent") (some (topic ∷ []))
unfolding all_fields
log_at_same_map_example =
    log_at_same_map (λ old new. old ++ new) info_level (named topic) (named qos) (codes "sent")
      (some (qos ∷ [])) (some (topic ∷ [])) refl same_fields
