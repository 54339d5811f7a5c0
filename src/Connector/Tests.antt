-- ===== src/Connector/Tests.antt =====
-- Runs of the connector's functions, and the properties at concrete inputs.
use suite_connector.Prelude.{
  ℕ, ◌≤◌, ◌≡◌, ◌≢◌, ◌↔◌, ◌⊎◌, refl, Bool, true, false, not, ◌&&◌, ◌||◌, Option, none, some, List,
  [], ◌∷◌, ◌++◌, ◌-◌, ◌+◌, arith, if◌then◌else◌, length, map, ◌==◌,
}
use suite_connector.Prelude.Text.{Text, codes, text_eq, is_empty}
use suite_connector.Prelude.Outcome.{Error, timeout}
use suite_connector.Connector.Context.{
  Message, topic, qos, topic_from_ctx, qos_from_ctx, set_topic_to_ctx, set_qos_to_ctx,
  set_retain_to_ctx,
}
use suite_connector.Connector.Context.Laws.{view, set-view}
use suite_connector.Connector.Subscriptions.{Manager, add, remove, lookup}
use suite_connector.Connector.Subscriptions as Subscriptions
use suite_connector.Connector.Subscriptions.Counts.{
  IsValid, references, add_counts, remove_counts, call_if_set, is_set,
}
use suite_connector.Connector.Listeners.{add_connection_listener, remove_connection_listener}
use suite_connector.Connector.Listeners.Laws.{
  occurrences, occurrences-add, occurrences-remove, remove-add,
}
use suite_connector.Connector.Connection.{
  Registry, SubscriptionInfo, loop, load, store, subscribe, unsubscribe, resubscribe,
  subscription_id, subscribe_packets,
}
use suite_connector.Connector.Connection.Registry.{
  subscribed, subscribe_registers, unsubscribe_forgets, subscribe_packet, resubscribe_all,
}
use suite_connector.Connector.Connection.Registry as Registry
use suite_connector.Connector.Reconnect.{
  Round, bad_username_or_password, retries_exhausted, external_reconnect,
}
use suite_connector.Connector.Reconnect.Retries.{
  Counted, IsRefused, external_reconnect_counts, external_reconnect_gives_up,
}
use suite_connector.Connector.Publisher.{Publisher, Published, Token, publish}
use suite_connector.Connector.Publisher.Order.{all_packets, publish_prefix}
use suite_connector.Connector.RateLimiter as RateLimiter
use suite_connector.Connector.RateLimiter.Accounts.{publish_accounts}
use suite_connector.Connector.Wrapper.{close_times, is_closed, new_wrapper, close_once}
use suite_connector.Connector.Subscriber.{MqttMessage, taken, acked, handler}
use suite_connector.Connector.Subscriber.Delivery.{handler-delivered}
use suite_connector.Connector.Config.{
  Configuration, ClientOptions, new_mqtt_client_config, new_mqtt_connection, create_client_options,
  validate,
}
use suite_connector.Connector.Config.Valid.{validate-none, new_mqtt_connection-options}
use suite_connector.Connector.Config.Valid as Valid

abbrev events : Text
events = codes "e/t/d"

abbrev commands : Text
commands = codes "command//+/req/#"

-- Two references to one topic.
abbrev manager : Manager
manager = record { topics = (commands, 2) ∷ []; conn = some 7 }

manager-IsValid : IsValid manager.topics
unfolding lookup
manager-IsValid = (omega arith, refl, tt)

add_counts_example :
    let r = add events manager in
    IsValid r.manager.topics
    × ((j : Text)
        → references j r.manager.topics ≡ (
            if text_eq events j
            then references j manager.topics + 1
            else references j manager.topics))
    × (r.manager.conn ≡ manager.conn)
    × (r.calls ≡ (
        if references events manager.topics == 0
        then call_if_set Subscriptions.subscribe events manager.conn
        else []))
    × (r.answer ≡ (references events manager.topics == 0 && is_set manager.conn))
add_counts_example = add_counts events manager manager-IsValid

remove_counts_example :
    let r = remove commands manager in
    IsValid r.manager.topics
    × ((j : Text)
        → references j r.manager.topics ≡ (
            if text_eq commands j
            then references j manager.topics - 1
            else references j manager.topics))
    × (r.manager.conn ≡ manager.conn)
    × (r.calls ≡ (
        if references commands manager.topics == 1
        then call_if_set Subscriptions.unsubscribe commands manager.conn
        else []))
    × (r.answer ≡ (references commands manager.topics == 1 && is_set manager.conn))
remove_counts_example = remove_counts commands manager manager-IsValid

occurrences-add_example :
    occurrences 2 (add_connection_listener 2 (1 ∷ 3 ∷ []))
    ≡ (if 2 == 2 && occurrences 2 (1 ∷ 3 ∷ []) == 0 then 1 else occurrences 2 (1 ∷ 3 ∷ []))
occurrences-add_example = occurrences-add 2 2 (1 ∷ 3 ∷ [])

occurrences-remove_run :
    occurrences 3 (remove_connection_listener 3 (1 ∷ 3 ∷ []))
    ≡ (if 3 == 3 then occurrences 3 (1 ∷ 3 ∷ []) - 1 else occurrences 3 (1 ∷ 3 ∷ []))
occurrences-remove_run = occurrences-remove 3 3 (1 ∷ 3 ∷ [])

remove-add_run : remove_connection_listener 2 (add_connection_listener 2 (1 ∷ 3 ∷ [])) ≡ 1 ∷ 3 ∷ []
unfolding occurrences
remove-add_run = remove-add 2 (1 ∷ 3 ∷ []) refl

abbrev info : SubscriptionInfo
info = record { topics = commands ∷ []; callback = loop 4; qos = 1; disposed = false }

abbrev registry : Registry
registry = (commands, info) ∷ []

registry-IsValid : Registry.IsValid registry
unfolding load
registry-IsValid = (refl, refl, tt)

abbrev larger : Registry
larger = (commands, info) ∷ (events, subscribed (loop 5) 1 (events ∷ [])) ∷ []

subscribe_registers_run :
    Registry.IsValid larger
    × ((j : Text)
        → load j larger ≡ (
            if text_eq events j
            then some (subscribed (loop 5) 1 (events ∷ []))
            else load j registry))
unfolding subscribe subscription_id store text_eq
subscribe_registers_run =
    subscribe_registers false (codes "uuid") events (loop 5) 1 (events ∷ []) registry larger
      (subscribe_packets false (loop 5) 1 (events ∷ [])) registry-IsValid refl

unsubscribe_forgets_run :
    let r' = (unsubscribe true commands true registry).0 in
    Registry.IsValid r'
    × ((j : Text) → load j r' ≡ (if text_eq commands j then none else load j registry))
unsubscribe_forgets_run = unsubscribe_forgets true true commands registry registry-IsValid

resubscribe_all_run : resubscribe registry ≡ map subscribe_packet registry
resubscribe_all_run = resubscribe_all registry registry-IsValid

-- A round in which the broker refuses the credentials.
abbrev refused : Round
refused = record {
  running = true;
  next_backoff = some 7_000_000_000;
  running_after = λ i. true;
  failure = some bad_username_or_password;
}

external_reconnect_counts_example :
    Counted (3 - 0) (external_reconnect 3 0 (refused ∷ refused ∷ []))
external_reconnect_counts_example =
    external_reconnect_counts 3 0 (refused ∷ refused ∷ []) (omega arith)

refused-IsRefused : IsRefused refused
refused-IsRefused = (refl, ground arith, λ i. refl, (bad_username_or_password, refl, refl))

external_reconnect_gives_up_example :
    (external_reconnect 2 0 (refused ∷ refused ∷ [])).ending ≡ retries_exhausted
external_reconnect_gives_up_example =
    external_reconnect_gives_up 2 0 (refused ∷ refused ∷ []) (omega arith) (omega arith)
      (refused-IsRefused, (refused-IsRefused, tt))

abbrev publisher : Publisher
publisher = record { closed = false; qos = 1; ack_timeout = 15 }

abbrev message : Message
message = record { uuid = codes "1"; payload = codes "{}"; ctx = topic events ∷ [] }

-- The second packet is not acknowledged in time.
abbrev tokens : ℕ → Token
tokens n = record { in_time = n == 0; error = none }

abbrev own_payload : Message → Option Text
own_payload m = some m.payload

publish_prefix_run :
    (rest : List Published) × (all_packets own_payload publisher []
        (message ∷ message ∷ message ∷ [])
      ≡ (publish own_payload publisher [] tokens (message ∷ message ∷ message ∷ [])).0 ++ rest)
    × (((publish own_payload publisher [] tokens (message ∷ message ∷ message ∷ [])).1 ≢ none)
        ⊎ (rest ≡ []))
publish_prefix_run =
    publish_prefix own_payload publisher [] tokens (message ∷ message ∷ message ∷ []) refl

abbrev first_fails : ℕ → Option Error
first_fails n = if n == 0 then some timeout else none

publish_accounts_run :
    let (sent, failures) = RateLimiter.publish (λ n. true) first_fails (message ∷ message ∷ []) in
    (sent ≡ message ∷ message ∷ []) × (length failures ≤ length (message ∷ message ∷ []))
publish_accounts_run = publish_accounts (λ n. true) first_fails (message ∷ message ∷ []) (λ n. refl)

close_once_example :
    ((close_times 3 new_wrapper).closings ≡ 1) × (is_closed (close_times 3 new_wrapper) ≡ true)
close_once_example = close_once 2

abbrev mqtt_message : MqttMessage
mqtt_message = record { message_id = 9; topic = events; qos = 1; payload = codes "{}" }

abbrev unmarshal : ℕ → Text → Option Message
unmarshal id payload = some (record { uuid = codes "9"; payload = payload; ctx = [] })

abbrev routed : Message
routed = record { uuid = codes "9"; payload = codes "{}"; ctx = qos 1 ∷ topic events ∷ [] }

handler-delivered_run :
    (false ≡ false)
    × (taken ≡ taken)
    × (topic_from_ctx routed.ctx ≡ some events)
    × (qos_from_ctx routed.ctx ≡ some 1)
    × ((read : Message) × (unmarshal 9 (codes "{}") ≡ some read)
        × (routed.payload ≡ read.payload)
        × (routed.uuid ≡ read.uuid))
unfolding handler set_topic_to_ctx set_qos_to_ctx qos_from_ctx
handler-delivered_run =
    handler-delivered unmarshal false false [] mqtt_message taken acked routed refl

set-view_run :
    (view (set_topic_to_ctx routed.ctx commands)
      ≡ record (view routed.ctx) { topic = some commands })
    × (view (set_qos_to_ctx routed.ctx 0) ≡ record (view routed.ctx) { qos = some 0 })
    × (view (set_retain_to_ctx routed.ctx true) ≡ record (view routed.ctx) { retain = true })
set-view_run = set-view routed.ctx commands 0 true

abbrev config : Configuration ℕ
config = new_mqtt_client_config 2 (codes "tcp://localhost:1883")

abbrev below_one : ℕ → Bool
below_one n = n == 0

validate-none_run :
    (validate below_one (λ u. true) config ≡ none) ↔ Valid.IsValid below_one (λ u. true) config
validate-none_run = validate-none below_one (λ u. true) config

abbrev no_name : Text
no_name = []

abbrev options : ClientOptions
options = create_client_options config (codes "uuid") true

new_mqtt_connection-options_example :
    Valid.IsValid below_one (λ u. true) config
    × ((config.external_reconnect && options.auto_reconnect) ≡ false)
    × ((not (is_empty no_name) || options.clean_session) ≡ true)
    × (options.broker ≡ config.url)
unfolding new_mqtt_connection new_mqtt_client_config validate
new_mqtt_connection-options_example =
    new_mqtt_connection-options below_one (λ u. true) (codes "uuid") config no_name options refl
