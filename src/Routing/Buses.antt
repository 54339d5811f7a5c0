-- ===== src/Routing/Buses.antt =====
-- routing/commands.go, events.go, service.go and subscription.go: the buses, each a handler between a
-- subscriber and a publisher of the router, with the messages of SendStatus and SendGwParams. The router
-- is a library's: it calls the handler for a message of the subscriber, and publishes what it answers.
-- The environment's variables and the JSON texts are given.
pub mod Echo
mod Tests
use suite_connector.Prelude.{
  ℕ, Bool, true, false, Option, none, some, List, [], ◌∷◌, ◌++◌, if◌then◌else◌,
}
use suite_connector.Prelude.Text.{Text, codes, is_empty}
use suite_connector.Prelude.Outcome.{Outcome, ok}
use suite_connector.Connector.Context.{Message, set_retain_to_ctx}
use suite_connector.Connector.Publisher.{Publisher, Published, packet}
use suite_connector.Routing.Status.{Cause, ConnectionStatus, send_status}
use suite_connector.Routing.Events.{EventsHandler, handle_event, add_timestamp}
use suite_connector.Routing.Commands.Defs.{
  RequestCache, Headers, RequestHandler, ResponseHandler, handle_request, handle_response,
}

-- The subscribers and publishers of the launcher and of Run: those of the hub, those of the cloud client
-- of the local broker with quality 1 and 0, and those of the local client.
pub data Source : Type 0 where
  hono_sub mosquitto_sub params_sub logs_sub : Source

pub data Sink : Type 0 where
  hono_pub mosquitto_pub params_pub no_publisher : Sink

-- A handler of the router, over the cache of pending requests; the number is the time.
pub record Bus (S : Type 0) : Type 0 where
  pub name : Text
  pub subscribe_topic : Text
  pub subscriber : Source
  pub publish_topic : Text
  pub publisher : Sink
  pub handle : ℕ → Message → S → S × Outcome (List Message)

pub record GwParams : Type 0 where
  pub device_id : Text
  pub tenant_id : Text
  pub policy_id : Text

abbrev pub topic_empty : Text
topic_empty = []

abbrev pub topic_command_request : Text
topic_command_request = codes "command//+/req/#"

abbrev pub topic_command_response : Text
topic_command_response = codes "command//+/res/#,c//+/s/#"

abbrev pub topics_event : Text
topics_event = codes "event/#,e/#"

abbrev pub topics_telemetry : Text
topics_telemetry = codes "telemetry/#,t/#"

abbrev pub topic_gw_params_request : Text
topic_gw_params_request = codes "edge/thing/request"

abbrev pub topic_gw_params_response : Text
topic_gw_params_response = codes "edge/thing/response"

abbrev pub topic_connection_status : Text
topic_connection_status = codes "edge/connection/remote/status"

abbrev pub topic_log : Text
topic_log = codes "$SYS/broker/log/#"

-- The names of the own clients: the environment's, if they are set.
abbrev pub client_id_or : Text → Text → Text
client_id_or default env = if is_empty env then default else env

-- The variables of the environment that the buses read.
pub record Environment : Type 0 where
  pub events_prefix : Text
  pub telemetry_prefix : Text
  pub response_prefix : Text

module _ (tenant_id device_id : Text) (generic : Bool) where
  abbrev pub events_handler : Text → EventsHandler
  events_handler prefix = record {
    prefix = prefix;
    tenant_id = tenant_id;
    device_id = device_id;
    generic = generic;
  }

  -- The time stamp is added only for a generic gateway.
  unfoldable pub events_bus : {S : Type 0} → Text → (Text → ℕ → Outcome Text) → Bus S
  events_bus prefix set_timestamp =
      let handler = handle_event (events_handler prefix) in
      record {
        name = codes "events_bus";
        subscribe_topic = topics_event;
        subscriber = mosquitto_sub;
        publish_topic = topic_empty;
        publisher = hono_pub;
        handle = λ now msg s.
            (s, if generic then add_timestamp set_timestamp now handler msg else handler msg);
      }

  unfoldable pub telemetry_bus : {S : Type 0} → Text → Bus S
  telemetry_bus prefix = record {
    name = codes "telemetry_bus";
    subscribe_topic = topics_telemetry;
    subscriber = mosquitto_sub;
    publish_topic = topic_empty;
    publisher = hono_pub;
    handle = λ now msg s. (s, handle_event (events_handler prefix) msg);
  }

module _ (cache : RequestCache) (decode : Text → Option Headers) (tenant_id device_id : Text)
    (generic : Bool) where
  open cache use {Store}

  abbrev pub request_handler : RequestHandler
  request_handler = record { tenant_id = tenant_id; device_id = device_id; generic = generic }

  unfoldable pub commands_req_bus : Bus Store
  commands_req_bus = record {
    name = codes "commands_request_bus";
    subscribe_topic =
        if generic
        then codes "command/" ++ (tenant_id ++ (codes "/" ++ (device_id ++ codes "/+/req/#")))
        else topic_command_request;
    subscriber = hono_sub;
    publish_topic = topic_empty;
    publisher = mosquitto_pub;
    handle = handle_request cache decode request_handler;
  }

  unfoldable pub commands_res_bus : Text → Bus Store
  commands_res_bus prefix = record {
    name = codes "commands_response_bus";
    subscribe_topic = topic_command_response;
    subscriber = mosquitto_sub;
    publish_topic = topic_empty;
    publisher = hono_pub;
    handle = λ now msg s.
        handle_response cache decode
          (record {
            prefix = prefix;
            tenant_id = tenant_id;
            device_id = device_id;
            generic = generic;
          })
          msg s;
  }

-- What CreateLogHandler adds to the router of the services, over ProcessLogs.
unfoldable pub logs_bus : {S : Type 0} → (Message → S → S) → Bus S
logs_bus process_logs = record {
  name = codes "logs_bus";
  subscribe_topic = topic_log;
  subscriber = logs_sub;
  publish_topic = topic_empty;
  publisher = no_publisher;
  handle = λ now msg s. (process_logs msg s, ok []);
}

module _ (encode : GwParams → Text) (uuid : Text) where
  -- NewGwParamsMessage
  unfoldable pub new_gw_params_message : GwParams → Message
  new_gw_params_message params = record { uuid = uuid; payload = encode params; ctx = [] }

  unfoldable pub params_bus : {S : Type 0} → GwParams → Bus S
  params_bus params = record {
    name = codes "params_bus";
    subscribe_topic = topic_gw_params_request;
    subscriber = params_sub;
    publish_topic = topic_gw_params_response;
    publisher = params_pub;
    handle = λ now msg s. (s, ok (new_gw_params_message params ∷ []));
  }

  -- SendGwParams: the packet that the publisher makes of the message.
  unfoldable pub send_gw_params : GwParams → Bool → Publisher → Published
  send_gw_params params retain p =
      let msg = new_gw_params_message params in
      packet p topic_gw_params_response (record msg { ctx = set_retain_to_ctx msg.ctx retain })
        (encode params)

-- SendStatus: the packet of the status, over its JSON text.
unfoldable pub publish_status : (ConnectionStatus → Text) → Text → Cause → Publisher → Published
publish_status encode uuid cause p =
    let payload = encode (send_status cause) in
    packet p topic_connection_status
      (record { uuid = uuid; payload = payload; ctx = set_retain_to_ctx [] true }) payload

-- The buses that the launcher adds to its router, in order.
module _ (cache : RequestCache) (decode : Text → Option Headers) where
  unfoldable pub launcher_buses :
      (GwParams → Text)
      → Text
      → (Text → ℕ → Outcome Text)
      → Environment
      → GwParams
      → Bool
      → List (Bus (cache.Store))
  launcher_buses encode uuid set_timestamp env params generic =
      params_bus encode uuid params
      ∷ events_bus params.tenant_id params.device_id generic env.events_prefix set_timestamp
      ∷ telemetry_bus params.tenant_id params.device_id generic env.telemetry_prefix
      ∷ commands_res_bus cache decode params.tenant_id params.device_id generic env.response_prefix
      ∷ commands_req_bus cache decode params.tenant_id params.device_id generic
      ∷ []
