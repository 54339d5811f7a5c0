-- ===== src/Util/Tests.antt =====
-- Runs of the functions of util/utils.go, and the properties at concrete inputs.
use suite_connector.Prelude.{◌<◌, ◌≡◌, ◌↔◌, refl, ◌*◌, arith}
use suite_connector.Prelude.Int.{pos, ◌≤ℤ◌, ◌*ℤ◌}
use suite_connector.Prelude.Text.{Text, codes}
use suite_connector.Prelude.Outcome.{ok, panic}
use suite_connector.Util.Topic.{normalize_topic, parse_cmd_topic, response_status_topic}
use suite_connector.Util.Topic.Parse.{
  parse_cmd_topic-short, parse_cmd_topic-long, response_status_topic-long, parse_cmd_topic_bare,
}
use suite_connector.Util.Topic.Normalize.{normalize_topic-short}
use suite_connector.Util.Timeout.{
  second, hour, digits_value, parse_timeout, timeout_value, scaled, atoi, byte_before, wrap64,
  in_timeout_range,
}
use suite_connector.Util.Timeout.Bounds.{parse_timeout_bounds, parse_timeout-panic}
use suite_connector.Util.Timeout.Units.{seconds, parse_timeout-units}

abbrev device : Text
device = codes "org.eclipse:dev"

parse_timeout_ms : parse_timeout (codes "500ms") ≡ ok (pos 500_000_000)
unfolding parse_timeout timeout_value scaled atoi byte_before digits_value wrap64 in_timeout_range
    ◌*ℤ◌
parse_timeout_ms = refl

parse_timeout_two_hours : parse_timeout (codes "120m") ≡ ok (pos (60 * second))
unfolding parse_timeout timeout_value scaled atoi byte_before digits_value wrap64 in_timeout_range
    ◌*ℤ◌
parse_timeout_two_hours = refl

parse_timeout_bounds_example : (pos 0 ≤ℤ pos 500_000_000) × (500_000_000 < hour)
parse_timeout_bounds_example =
    parse_timeout_bounds (codes "500ms") (pos 500_000_000) parse_timeout_ms

parse_timeout-panic_example : (parse_timeout (codes "10") ≡ panic) ↔ (codes "10" ≡ codes "s")
parse_timeout-panic_example = parse_timeout-panic (codes "10")

parse_cmd_topic_short_run :
    parse_cmd_topic (codes "c//org.eclipse:dev/q/17/turn-on")
    ≡ ok (record { cmd_type = codes "q"; prefix = device; suffix = codes "17/turn-on" })
parse_cmd_topic_short_run =
    parse_cmd_topic-short device (codes "q") (codes "17/turn-on") (ground arith) refl

parse_cmd_topic-long_run :
    parse_cmd_topic (codes "command//org.eclipse:dev/req/17/turn-on")
    ≡ ok (record { cmd_type = codes "req"; prefix = device; suffix = codes "17/turn-on" })
parse_cmd_topic-long_run =
    parse_cmd_topic-long device (codes "req") (codes "17/turn-on") (ground arith) refl

parse_cmd_topic_bare_example : parse_cmd_topic (codes "command//org.eclipse:dev/req") ≡ panic
parse_cmd_topic_bare_example = parse_cmd_topic_bare device (codes "req") (ground arith) refl

response_status_topic-long_run :
    response_status_topic (codes "command//org.eclipse:dev/req/17/turn-on") (codes "200")
    ≡ ok (codes "command//org.eclipse:dev/res/17/200")
response_status_topic-long_run =
    response_status_topic-long device (codes "17") (codes "turn-on") (codes "200") (ground arith)
      (ground arith)

normalize_topic-short_run :
    normalize_topic (codes "c//org.eclipse:dev/q/#") ≡ codes "command//org.eclipse:dev/req/#"
normalize_topic-short_run = normalize_topic-short device (ground arith)

parse_timeout-units_run : parse_timeout (codes "90s") ≡ ok (pos (90 * second))
unfolding digits_value
parse_timeout-units_run =
    parse_timeout-units seconds (codes "90") 90 (ground arith, refl) (omega arith)
