-- ===== src/Routing/Buses/Tests.antt =====
-- The packets of the status and of the parameters, and the property of the buses at a concrete input.
use suite_connector.Prelude.{
  ℕ, ◌≡◌, refl, Bool, true, false, Option, none, some, [], ◌∷◌, All, arith,
}
use suite_connector.Prelude.Int.{pos}
use suite_connector.Prelude.Text.{Text, codes, has_prefix, index_rune, split}
use suite_connector.Prelude.Outcome.{ok}
use suite_connector.Util.Topic.{offset, slice, slice_from, parse_cmd_at, parse_cmd_topic}
use suite_connector.Connector.Context.{
  Message, topic, topic_from_ctx, qos_from_ctx, retain_from_ctx, retain_value, set_retain_to_ctx,
  set_topic_to_ctx, with_topic,
}
use suite_connector.Connector.Publisher.{packet, publish_topic, publish_qos}
use suite_connector.Cache.Queue.{Element}
use suite_connector.Cache.Table.{Cache}
use suite_connector.Routing.Gateway.{fix_command, fix_segments, join_tail}
use suite_connector.Routing.Status.{config_error}
use suite_connector.Routing.Commands.Defs.{
  Headers, register, request_messages, forward_request, handle_request,
}
use suite_connector.Routing.Commands.Pending.{ttl_cache}
use suite_connector.Routing.Buses.{
  GwParams, Environment, commands_req_bus, publish_status, send_gw_params, new_gw_params_message,
}
use suite_connector.Routing.Buses.Echo.{IsQuiet, commands_req_bus-IsQuiet}

abbrev decode : Text → Option Headers
decode payload = some (record { correlation_id = []; timeout = [] })

abbrev params : GwParams
params = record { device_id = codes "ns:gw"; tenant_id = codes "t"; policy_id = [] }

abbrev env : Environment
env = record { events_prefix = []; telemetry_prefix = []; response_prefix = [] }

abbrev encode : GwParams → Text
encode p = p.device_id

abbrev cell : ℕ → Element Bool
cell a = record { index = none; key = []; value = true; ttl = pos 1; exp_time = 1 }

abbrev store : Cache Bool
store = record {
  closed = false;
  queue = record { cell = cell; items = [] };
  elements = [];
  next = 0;
}

abbrev request : Message
request = record {
  uuid = codes "1";
  payload = codes "{}";
  ctx = topic (codes "command/t/ns:gw/dev/req/17/on") ∷ [];
}

abbrev long : Message
long = record request { ctx = topic (codes "command//ns:gw:dev/req/17/on") ∷ request.ctx }

abbrev short : Message
short = record request { ctx = topic (codes "c//ns:gw:dev/q/17/on") ∷ long.ctx }

handled :
    ((commands_req_bus ttl_cache decode (codes "t") (codes "ns:gw") true).handle 0 request store).1
    ≡ ok (long ∷ short ∷ [])
unfolding commands_req_bus handle_request topic_from_ctx register forward_request fix_command
    fix_segments join_tail split with_topic set_topic_to_ctx request_messages parse_cmd_topic
    parse_cmd_at has_prefix slice slice_from offset index_rune
handled = refl

commands_req_bus-IsQuiet_example :
    All
      (IsQuiet ttl_cache decode encode (codes "u") (λ payload now. ok payload) env params true)
      (long ∷ short ∷ [])
unfolding topic_from_ctx
commands_req_bus-IsQuiet_example =
    commands_req_bus-IsQuiet ttl_cache decode encode (codes "u") (λ payload now. ok payload) env
      params true (codes "dev") (codes "17/on") 0 request store (long ∷ short ∷ []) (ground arith)
      (ground arith) (ground arith) (ground arith) refl handled

-- The status is retained, the parameters are not.
status_run :
    publish_status
      (λ s. codes "{}")
      (codes "u")
      config_error
      (record { closed = false; qos = 1; ack_timeout = 0 })
    ≡ record {
      topic = codes "edge/connection/remote/status";
      qos = 1;
      retain = true;
      payload = codes "{}";
    }
unfolding publish_status packet publish_topic publish_qos topic_from_ctx qos_from_ctx
    retain_from_ctx retain_value set_retain_to_ctx
status_run = refl

params_run :
    send_gw_params encode
      (codes "u")
      params
      false
      (record { closed = false; qos = 0; ack_timeout = 0 })
    ≡ record {
      topic = codes "edge/thing/response";
      qos = 0;
      retain = false;
      payload = codes "ns:gw";
    }
unfolding send_gw_params new_gw_params_message packet publish_topic publish_qos topic_from_ctx
    qos_from_ctx retain_from_ctx retain_value set_retain_to_ctx
params_run = refl
