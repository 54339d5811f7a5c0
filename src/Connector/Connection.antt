-- ===== src/Connector/Connection.antt =====
-- connector/connection.go and connector/utils.go: the subscriptions of an MQTT connection, and what
-- the connection asks of its MQTT client. The client is a library's: the packets it is asked to send
-- are recorded in order, and whether its connection is open is an argument.
pub mod Registry
pub mod Disposal
mod Waits
use suite_connector.Prelude.{
  ℕ, ◌≡◌, Bool, true, false, not, ◌&&◌, Option, none, some, List, [], ◌∷◌, ◌++◌, map, ◌==◌, ltb,
  length, if◌then◌else◌,
}
use suite_connector.Prelude.Text.{Text, text_eq, split}
use suite_connector.Prelude.Outcome.{Outcome, ok, panic, ◌>>=◌}
use suite_connector.Connector.Listeners.{Notification, fire_connection_event}

-- What handles the messages of a topic: nothing, a message loop, or the default handler's wrapper.
pub data Callback : Type 0 where
  nil default_handler : Callback
  loop : ℕ → Callback

pub data Packet : Type 0 where
  subscribe_multiple : List (Text × ℕ) → Callback → Packet
  unsubscribe_topics : List Text → Packet
  add_route : Text → Callback → Packet
  connect disconnect : Packet

pub record SubscriptionInfo : Type 0 where
  pub topics : List Text
  pub callback : Callback
  pub qos : ℕ
  pub disposed : Bool

abbrev pub Registry : Type 0
Registry = List (Text × SubscriptionInfo)

-- `c.topics.Load(id)`
unfoldable pub load : Text → Registry → Option SubscriptionInfo
load id [] = none
load id ((k, s) ∷ r) = if text_eq k id then some s else load id r

-- `c.topics.Store(id, s)`
unfoldable pub store : Text → SubscriptionInfo → Registry → Registry
store id s [] = (id, s) ∷ []
store id s ((k, t) ∷ r) = if text_eq k id then (k, s) ∷ r else (k, t) ∷ store id s r

unfoldable pub delete : Text → Registry → Registry
delete id [] = []
delete id ((k, t) ∷ r) = if text_eq k id then r else (k, t) ∷ delete id r

unfoldable pub parse_subs : Text → List Text
parse_subs topic = split topic b','

-- `filters[topic] = qos` on a map kept as a list.
unfoldable pub set_filter : Text → ℕ → List (Text × ℕ) → List (Text × ℕ)
set_filter t q [] = (t, q) ∷ []
set_filter t q ((k, p) ∷ m) = if text_eq k t then (k, q) ∷ m else (k, p) ∷ set_filter t q m

unfoldable pub sub_filters_from : ℕ → List Text → List (Text × ℕ) → List (Text × ℕ)
sub_filters_from q [] filters = filters
sub_filters_from q (t ∷ ts) filters = sub_filters_from q ts (set_filter t q filters)

unfoldable pub sub_filters : ℕ → List Text → List (Text × ℕ)
unfolding sub_filters_from set_filter
sub_filters qos subs = sub_filters_from qos subs []

-- `topics[0]`, or the fresh identifier where there are more topics.
unfoldable pub subscription_id : Text → List Text → Outcome Text
subscription_id uuid [] = panic
subscription_id uuid (t ∷ []) = ok t
subscription_id uuid (t ∷ u ∷ ts) = ok uuid

-- What subscribe asks of the client.
unfoldable pub subscribe_packets : Bool → Callback → ℕ → List Text → List Packet
subscribe_packets is_open callback qos topics =
    if is_open
    then subscribe_multiple (sub_filters qos topics) callback ∷ []
    else if qos == 0
    then []
    else map (λ t. add_route t callback) topics

-- The identifier, the new registry and the packets.
unfoldable pub subscribe :
    Bool → Text → Callback → ℕ → List Text → Registry → Outcome (Text × Registry × List Packet)
subscribe is_open uuid callback qos topics r = do
  id ← subscription_id uuid topics
  let sub : SubscriptionInfo = record {
    topics = topics;
    callback = callback;
    qos = qos;
    disposed = false;
  }
  ok (id, store id sub r, subscribe_packets is_open callback qos topics)

unfoldable pub unsubscribe_packets : Bool → Bool → List Text → List Packet
unsubscribe_packets is_open auto_delete topics =
    if auto_delete && is_open
    then unsubscribe_topics topics ∷ []
    else map (λ t. add_route t default_handler) topics

-- LoadAndDelete; the record that was loaded is disposed of under its lock.
unfoldable pub unsubscribe : Bool → Text → Bool → Registry → Registry × List Packet
unsubscribe is_open id auto_delete r = elim (load id r) [
  | none ↦ (r, [])
  | some sub ↦ (delete id r, unsubscribe_packets is_open auto_delete sub.topics)
]

-- The packets that onConnected sends for the subscriptions, in the order of the registry.
unfoldable pub resubscribe : Registry → List Packet
resubscribe [] = []
resubscribe ((id, sub) ∷ r) =
    if sub.disposed
    then resubscribe r
    else subscribe_multiple (sub_filters sub.qos sub.topics) sub.callback ∷ resubscribe r

-- onConnected: all subscriptions are sent before the listeners hear of the connection.
unfoldable pub on_connected : Registry → List ℕ → List Packet × List Notification
on_connected r listeners = (resubscribe r, fire_connection_event true none listeners)

-- The flags of the connection that Connect and Disconnect change.
pub record Lifecycle : Type 0 where
  pub running : Bool
  pub listeners : List ℕ

-- Connect: the connection runs, and the client is asked to connect.
unfoldable pub connect_client : Lifecycle → Lifecycle × List Packet
connect_client c = (record c { running = true }, connect ∷ [])

-- Disconnect, for a client that is connected or connecting (`was_connected`) or not.
unfoldable pub disconnect_client : Bool → Lifecycle → Lifecycle × List Packet × List Notification
disconnect_client was_connected c =
    let events = if was_connected then fire_connection_event false none c.listeners else [] in
    if c.running then (record c { running = false }, disconnect ∷ [], events) else (c, [], events)

-- onDefaultHandlerWrapper: a message that no route takes goes to the default handler, if one is set.
unfoldable pub route_default {ℓ} : {M : Type ℓ} → Option ℕ → M → Option (ℕ × M)
route_default none msg = none
route_default (some handler) msg = some (handler, msg)
