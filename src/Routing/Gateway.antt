-- ===== src/Routing/Gateway.antt =====
-- routing/utils.go: the device names that a generic gateway puts behind its own.
pub mod Laws
use suite_connector.Prelude.{
  ℕ, ◌+◌, Bool, Option, none, some, List, [], ◌∷◌, ◌++◌, leb, if◌then◌else◌, length,
}
use suite_connector.Prelude.Text.{Text, codes, is_empty, has_prefix, split}
use suite_connector.Prelude.Outcome.{Error, invalid_command_topic, invalid_device, Outcome, ok, err}
use suite_connector.Util.Topic.{slice_from}

-- The loop that writes a slash before each segment.
unfoldable pub join_tail : List Text → Text
join_tail [] = []
join_tail (w ∷ ws) = b'/' ∷ (w ++ join_tail ws)

-- `none` below five segments.
unfoldable pub fix_segments : List Text → Option Text
unfolding join_tail
fix_segments (s0 ∷ s1 ∷ s2 ∷ s3 ∷ s4 ∷ rest) =
    let device = if is_empty s3 then [] else s2 ++ (codes ":" ++ s3) in
    some (codes "command//" ++ (device ++ join_tail (s4 ∷ rest)))
fix_segments _ = none

unfoldable pub fix_command : Text → Outcome Text
fix_command topic = elim (fix_segments (split topic b'/')) [
  | none ↦ err (invalid_command_topic topic)
  | some fixed ↦ ok fixed
]

unfoldable pub strip_gateway_id : Text → Text → Outcome Text
strip_gateway_id gateway_id device_id =
    if has_prefix device_id gateway_id
    then (if leb (length device_id) (length gateway_id + 1)
        then ok []
        else slice_from device_id (length gateway_id + 1))
    else err (invalid_device device_id gateway_id)
