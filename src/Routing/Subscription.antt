-- ===== src/Routing/Subscription.antt =====
-- routing/subscription.go: LogHandler follows the subscriptions of the local clients by the broker's
-- log, and has the manager subscribe at the hub for them. Its list is container/list: Remove clears
-- the links of the element, so that Next of a removed element is nil and a loop over it ends there.
pub mod Consistent
use suite_connector.Prelude.{
  ℕ, Bool, ◌&&◌, ◌||◌, Option, none, some, List, [], ◌∷◌, ◌++◌, if◌then◌else◌,
}
use suite_connector.Prelude.Text.{Text, codes, text_eq, contains}
use suite_connector.Util.Topic.{normalize_topic}
use suite_connector.Connector.Context.{Message, topic_from_ctx}
use suite_connector.Connector.Subscriptions.{Manager, Call}
use suite_connector.Connector.Subscriptions as Subscriptions
use suite_connector.Routing.LogMessage.{
  LogType, subscription, unsubscription, disconnection, termination, LogMessage, parse_log_message,
}

pub record SubscriptionItem : Type 0 where
  pub client_id : Text
  pub timestamp : ℕ
  pub topic_id : Text
  pub topic_real : Text

pub record LogHandler : Type 0 where
  pub items : List SubscriptionItem
  pub manager : Manager

-- The clients that are this program's own.
pub record OwnClients : Type 0 where
  pub local_client_id : Text
  pub cloud_client_id : Text

unfoldable pub filter_topic : Text → Bool
filter_topic topic = contains topic (codes "/+/")

unfoldable pub add_subscription : LogMessage → LogHandler → LogHandler × List Call
add_subscription msg h =
    let topic_norm = normalize_topic msg.text in
    let item : SubscriptionItem = record {
      client_id = msg.client_id;
      timestamp = msg.timestamp;
      topic_id = topic_norm;
      topic_real = msg.text;
    } in
    let step = Subscriptions.add topic_norm h.manager in
    if filter_topic topic_norm
    then (h, [])
    else (record { items = h.items ++ item ∷ []; manager = step.manager }, step.calls)

-- The list without the first item of the client and the topic, if there is one.
unfoldable pub remove_item : Text → Text → List SubscriptionItem → Option (List SubscriptionItem)
remove_item client real [] = none
remove_item client real (i ∷ items) =
    let rest : Option (List SubscriptionItem) = elim (remove_item client real items) [
      | none ↦ none
      | some is ↦ some (i ∷ is)
    ] in
    if text_eq i.client_id client && text_eq i.topic_real real then some items else rest

unfoldable pub remove_subscription : LogMessage → LogHandler → LogHandler × List Call
remove_subscription msg h = elim (remove_item msg.client_id msg.text h.items) [
  | none ↦ (h, [])
  | some items ↦
      let step = Subscriptions.remove (normalize_topic msg.text) h.manager in
      (record { items = items; manager = step.manager }, step.calls)
]

-- The loop that takes the items of a client out of the list: what it collects, and what is left. It
-- ends with the first element that it removes.
unfoldable pub take_items :
    Text → List SubscriptionItem → List SubscriptionItem × List SubscriptionItem
take_items client [] = ([], [])
take_items client (i ∷ items) =
    let (subs, rest) = take_items client items in
    if text_eq i.client_id client then (i ∷ [], items) else (subs, i ∷ rest)

-- The loop over the collected items.
unfoldable pub remove_topics : List SubscriptionItem → Manager → Manager × List Call
remove_topics [] m = (m, [])
remove_topics (i ∷ items) m =
    let step = Subscriptions.remove i.topic_id m in
    let (m', calls) = remove_topics items step.manager in (m', step.calls ++ calls)

unfoldable pub remove_all_subscriptions : Text → LogHandler → LogHandler × List Call
remove_all_subscriptions client h =
    let (subs, rest) = take_items client h.items in
    let (m, calls) = remove_topics subs h.manager in (record { items = rest; manager = m }, calls)

unfoldable pub evaluate : LogMessage → LogType → LogHandler → LogHandler × List Call
evaluate msg subscription h = add_subscription msg h
evaluate msg unsubscription h = remove_subscription msg h
evaluate msg disconnection h = remove_all_subscriptions msg.client_id h
evaluate msg termination h = remove_all_subscriptions msg.client_id h

unfoldable pub process_logs : OwnClients → Message → LogHandler → LogHandler × List Call
process_logs own msg h = elim (topic_from_ctx msg.ctx) [
  | none ↦ (h, [])
  | some topic ↦ elim (parse_log_message topic msg.payload) [
    | none ↦ (h, [])
    | some log ↦
        if text_eq log.client_id own.local_client_id
        then (h, [])
        else if text_eq log.client_id own.cloud_client_id
        then (h, [])
        else evaluate log log.kind h
  ]
]
