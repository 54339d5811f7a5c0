-- ===== src/Routing/Tests.antt =====
-- Runs of the functions of routing/, and the properties at concrete inputs.
use suite_connector.Prelude.{
  ◌≡◌, ◌≢◌, ◌↔◌, refl, sym, Bool, true, false, ◌&&◌, some, [], ◌∷◌, ◌-◌, arith,
}
use suite_connector.Prelude.Text.{Text, codes, text_eq, has_prefix}
use suite_connector.Prelude.Outcome.{ok, err, panic, ◌>>=◌, invalid_device}
use suite_connector.Util.Topic.Normalize.{normalize_topic-long}
use suite_connector.Util.Topic.{response_status_topic}
use suite_connector.Connector.Context.{Message, topic, with_topic}
use suite_connector.Connector.Subscriptions.{lookup}
use suite_connector.Connector.Subscriptions.Counts.{references}
use suite_connector.Connector.Reconnect.{is_auth_error, bad_username_or_password}
use suite_connector.Routing.Gateway.{fix_command, strip_gateway_id}
use suite_connector.Routing.Gateway.Laws.{fix_command_qualifies, strip_gateway_id-err}
use suite_connector.Routing.Events.{EventsHandler, event_topic}
use suite_connector.Routing.Events.Laws.{event, telemetry, event_topic-direct, event_topic-generic}
use suite_connector.Routing.Commands.Defs.{
  RequestHandler, ResponseHandler, forward_request, response_topic,
}
use suite_connector.Routing.Commands.Request.{forward_request-generic}
use suite_connector.Routing.Commands.Response.{response_topic-generic}
use suite_connector.Routing.Commands.RoundTrip.{status_response_returns}
use suite_connector.Routing.LogMessage.{
  subscription, termination, message_of, find_match, match_here, match_lit, match_run,
  parse_log_message, topic_log_subscribe, topic_log_notice_level, parse_log_message_notice_level,
}
use suite_connector.Routing.Subscription.{
  SubscriptionItem, LogHandler, OwnClients, process_logs, remove_all_subscriptions,
}
use suite_connector.Routing.Subscription.Consistent.{
  IsConsistent, topic_count, client_count, process_logs-IsConsistent, remove_all_subscriptions_one,
}
use suite_connector.Routing.Status.{send_status, status_cause, errors_handler_connected}
use suite_connector.Routing.Status.Causes.{causes_agree}

abbrev gateway : Text
gateway = codes "ns:gw"

abbrev device : Text
device = codes "dev"

fix_command_qualifies_run :
    fix_command (codes "command/tenant/ns:gw/dev/req/17/on")
    ≡ ok (codes "command//ns:gw:dev/req/17/on")
fix_command_qualifies_run =
    fix_command_qualifies (codes "command") (codes "tenant") gateway device (codes "req/17/on")
      (ground arith) (ground arith) (ground arith) (ground arith) (ground arith)

strip_gateway_id-err_run :
    (strip_gateway_id gateway device ≢ panic)
    × ((strip_gateway_id gateway device ≡ err (invalid_device device gateway))
        ↔ (has_prefix device gateway ≡ false))
strip_gateway_id-err_run = strip_gateway_id-err gateway device

abbrev events : Bool → EventsHandler
events generic = record {
  prefix = codes "p";
  tenant_id = codes "tenant";
  device_id = gateway;
  generic = generic;
}

-- The tenant is filled in.
event_topic-direct_run :
    event_topic (events false) (codes "e//dev/sub") ≡ ok (codes "event/tenant/dev/sub")
event_topic-direct_run =
    event_topic-direct (events false) event true [] device (codes "sub") refl (ground arith)
      (ground arith)

event_topic-generic_run :
    event_topic (events true) (codes "t/tenant/ns:gw:dev/sub")
    ≡ ok (codes "p/telemetry/tenant/ns:gw/dev/sub")
event_topic-generic_run =
    event_topic-generic (events true) telemetry true (codes "tenant") device (codes "sub") refl
      (ground arith) (ground arith) (ground arith)

abbrev requests : RequestHandler
requests = record { tenant_id = codes "tenant"; device_id = gateway; generic = true }

abbrev request : Message
request = record {
  uuid = codes "1";
  payload = codes "{}";
  ctx = topic (codes "command/tenant/ns:gw/dev/req/17/on") ∷ [];
}

forward_request-generic_run :
    let fixed = with_topic request (codes "command//ns:gw:dev/req/17/on") in
    forward_request requests request (codes "command/tenant/ns:gw/dev/req/17/on")
    ≡ ok (fixed ∷ with_topic fixed (codes "c//ns:gw:dev/q/17/on") ∷ [])
forward_request-generic_run =
    forward_request-generic requests request (codes "tenant") gateway device (codes "17/on") refl
      (ground arith) (ground arith) (ground arith) (ground arith)

abbrev responses : ResponseHandler
responses = record { prefix = []; tenant_id = codes "tenant"; device_id = gateway; generic = true }

response_topic-generic_run :
    response_topic responses (codes "c//ns:gw:dev/s/17/200")
    ≡ ok (codes "command/tenant/ns:gw/dev/res/17/200")
response_topic-generic_run =
    response_topic-generic responses true device (codes "17/200") refl (ground arith) (ground arith)

abbrev response : Message
response = record {
  uuid = codes "2";
  payload = codes "{}";
  ctx = topic (codes "c//ns:gw:dev/s/17/200") ∷ [];
}

abbrev item : SubscriptionItem
item = record {
  client_id = codes "C";
  timestamp = 1;
  topic_id = codes "command//d/req/#";
  topic_real = codes "command//d/req/#";
}

-- One client with two subscriptions.
abbrev log_handler : LogHandler
log_handler = record {
  items = item ∷ item ∷ [];
  manager = record { topics = (codes "command//d/req/#", 2) ∷ []; conn = some 1 };
}

log_handler-IsConsistent : IsConsistent log_handler
unfolding lookup references topic_count
log_handler-IsConsistent = record {
  valid = (ground arith, refl, tt);
  counted = λ t. ground arith;
  normal = (sym (normalize_topic-long (codes "d")), (sym (normalize_topic-long (codes "d")), tt));
}

abbrev own : OwnClients
own = record { local_client_id = codes "connector"; cloud_client_id = codes "cloud" }

abbrev notice : Message
notice = record {
  uuid = codes "3";
  payload = codes "1610290410: Client C disconnected.";
  ctx = topic topic_log_notice_level ∷ [];
}

process_logs-IsConsistent_example : IsConsistent (process_logs own notice log_handler).0
process_logs-IsConsistent_example =
    process_logs-IsConsistent log_handler log_handler-IsConsistent own notice

remove_all_subscriptions_one_example :
    client_count (codes "C") (remove_all_subscriptions (codes "C") log_handler).0.items
    ≡ client_count (codes "C") log_handler.items - 1
remove_all_subscriptions_one_example = remove_all_subscriptions_one (codes "C") log_handler

causes_agree_run :
    (errors_handler_connected false (some bad_username_or_password)
      ≡ send_status (status_cause bad_username_or_password).0 ∷ [])
    × ((is_auth_error bad_username_or_password && (status_cause bad_username_or_password).1)
        ≡ false)
causes_agree_run = causes_agree bad_username_or_password

parse_log_message_subscribe :
    parse_log_message topic_log_subscribe (codes "1610290410: MQTT_FX_Client 0 command//d e/req/#")
    ≡ some (record {
      client_id = codes "MQTT_FX_Client";
      timestamp = 1_610_290_410;
      text = codes "command//d e/req/#";
      kind = subscription;
    })
unfolding parse_log_message message_of find_match match_here match_lit match_run text_eq has_prefix
parse_log_message_subscribe = refl

parse_log_message_closed :
    parse_log_message topic_log_notice_level (codes "1610290410: Client C closed its connection.")
    ≡ some (record {
      client_id = codes "C";
      timestamp = 1_610_290_410;
      text = codes "closed its connection.";
      kind = termination;
    })
unfolding parse_log_message parse_log_message_notice_level message_of find_match match_here
    match_lit match_run text_eq has_prefix
parse_log_message_closed = refl

status_response_returns_example :
    (fix_command (codes "command/tenant/ns:gw/dev/req/17/on")
      >>= (λ local. response_status_topic local (codes "200"))
      >>= response_topic responses)
    ≡ ok (codes "command/tenant/ns:gw/dev/res/17/200")
status_response_returns_example =
    status_response_returns responses (codes "tenant") device (codes "17") (codes "on")
      (codes "200") refl (ground arith) (ground arith) (ground arith) (ground arith) (ground arith)
