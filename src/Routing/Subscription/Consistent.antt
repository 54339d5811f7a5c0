-- ===== src/Routing/Subscription/Consistent.antt =====
-- The handler's list and the manager's counts agree, whatever the log says; and what the loop over a
-- client's items does.
use suite_connector.Prelude.{
  ℕ, ◌+◌, ◌-◌, ◌≡◌, ◌⊎◌, refl, ap, ◌∙◌, ◌&&◌, Option-cases, Bool-cases, inl, inr, some, List, [],
  ◌∷◌, ◌++◌, arith, if◌then◌else◌, All, All-append,
}
use suite_connector.Prelude.Text.{Text, text_eq, text_eq_iff}
use suite_connector.Util.Topic.{normalize_topic}
use suite_connector.Connector.Context.{Message, topic_from_ctx}
use suite_connector.Connector.Subscriptions.{Manager, Counts, Call}
use suite_connector.Connector.Subscriptions as Subscriptions
use suite_connector.Connector.Subscriptions.Counts.{IsValid, references, add_counts, remove_counts}
use suite_connector.Routing.LogMessage.{
  LogType, subscription, unsubscription, disconnection, termination, LogMessage, parse_log_message,
}
use suite_connector.Routing.Subscription.{
  SubscriptionItem, LogHandler, OwnClients, filter_topic, add_subscription, remove_item,
  remove_subscription, take_items, remove_topics, remove_all_subscriptions, evaluate, process_logs,
}

-- How many items are for a normalized topic, and how many are of a client.
unfoldable pub topic_count : Text → List SubscriptionItem → ℕ
topic_count t [] = 0
topic_count t (i ∷ items) = (if text_eq i.topic_id t then 1 else 0) + topic_count t items

unfoldable pub client_count : Text → List SubscriptionItem → ℕ
client_count c [] = 0
client_count c (i ∷ items) = (if text_eq i.client_id c then 1 else 0) + client_count c items

abbrev pub IsNormal : SubscriptionItem → Type 0
IsNormal i = i.topic_id ≡ normalize_topic i.topic_real

-- The manager counts exactly the items, and each item has the normal form of its topic.
pub record IsConsistent (h : LogHandler) : Type 0 where
  pub valid : IsValid h.manager.topics
  pub counted : (t : Text) → references t h.manager.topics ≡ topic_count t h.items
  pub normal : All IsNormal h.items

topic_count-append :
    (t : Text) (xs ys : List SubscriptionItem)
    → topic_count t (xs ++ ys) ≡ topic_count t xs + topic_count t ys
unfolding topic_count
topic_count-append t [] ys = omega arith
topic_count-append t (x ∷ xs) ys = omega (arith, topic_count-append t xs ys)

topic_count-concat :
    (t : Text) (xs : List SubscriptionItem) (x : SubscriptionItem)
    → topic_count t (xs ++ x ∷ []) ≡ (if text_eq x.topic_id t then 1 else 0) + topic_count t xs
unfolding topic_count
topic_count-concat t xs x = omega (arith, topic_count-append t xs (x ∷ []))

-- What is taken by the loop and what is left are the items there were.
take_items_counts :
    (client t : Text) (items : List SubscriptionItem)
    → topic_count t (take_items client items).0 + topic_count t (take_items client items).1
      ≡ topic_count t items
unfolding topic_count take_items
take_items_counts client t [] = omega arith
take_items_counts client t (i ∷ items) = ground (arith, take_items_counts client t items)

take_items-IsNormal :
    (client : Text) (items : List SubscriptionItem)
    → All IsNormal items
    → All IsNormal (take_items client items).1
unfolding take_items
take_items-IsNormal client [] n = tt
take_items-IsNormal client (i ∷ items) n = ground (arith, take_items-IsNormal client items n.1)

-- The loop ends with the first item that it removes: one item of the client goes, if there is one.
take_items_client :
    (client : Text) (items : List SubscriptionItem)
    → client_count client (take_items client items).1 ≡ client_count client items - 1
unfolding client_count take_items
take_items_client client [] = omega arith
take_items_client client (i ∷ items) = ground (arith, take_items_client client items)

-- Removing the topics of some items takes their references away.
remove_topics_counts :
    (subs rest : List SubscriptionItem) (m : Manager)
    → IsValid m.topics
    → ((t : Text) → references t m.topics ≡ topic_count t subs + topic_count t rest)
    → let m' = (remove_topics subs m).0 in
      IsValid m'.topics × ((t : Text) → references t m'.topics ≡ topic_count t rest)
unfolding remove_topics topic_count
remove_topics_counts [] rest m v h = (v, λ t. omega (arith, h t))
remove_topics_counts (i ∷ subs) rest m v h =
    let (v', counts, _, _, _) = remove_counts i.topic_id m v in
    remove_topics_counts subs rest (Subscriptions.remove i.topic_id m).manager v'
      (λ t. ground (arith, counts t, h t, text_eq_iff i.topic_id t))

remove_item-inv :
    (client real : Text) (i : SubscriptionItem) (items rest : List SubscriptionItem)
    → remove_item client real (i ∷ items) ≡ some rest
    → ((i.topic_real ≡ real) × (rest ≡ items))
      ⊎ ((is : List SubscriptionItem) × (remove_item client real items ≡ some is) × (rest ≡ i ∷ is))
unfolding remove_item
remove_item-inv client real i items rest e =
    elim (Bool-cases (text_eq i.client_id client && text_eq i.topic_real real)) [
      | inl here ↦
          inl (ground (arith, e, here, text_eq_iff i.topic_real real), ground (arith, e, here))
      | inr later ↦ elim (Option-cases (remove_item client real items)) [
        | inl missing ↦ absurd (ground (arith, e, later, missing))
        | inr (is, found) ↦ inr (is, found, ground (arith, e, later, found))
      ]
    ]

remove_item_counts :
    (client real : Text) (items rest : List SubscriptionItem)
    → remove_item client real items ≡ some rest
    → All IsNormal items
    → (t : Text)
    → topic_count t items ≡ (if text_eq (normalize_topic real) t then 1 else 0) + topic_count t rest
unfolding topic_count
remove_item_counts client real [] rest e n t = unfold remove_item in cc
remove_item_counts client real (i ∷ items) rest e n t =
    elim (remove_item-inv client real i items rest e) [
      | inl (same, r) ↦
          let id : i.topic_id ≡ normalize_topic real = n.0 ∙ ap normalize_topic same in
          rw (id, r) refl
      | inr (is, found, r) ↦
          rw r (omega (arith, remove_item_counts client real items is found n.1 t))
    ]

remove_item-IsNormal :
    (client real : Text) (items rest : List SubscriptionItem)
    → remove_item client real items ≡ some rest
    → All IsNormal items
    → All IsNormal rest
remove_item-IsNormal client real [] rest e n = unfold remove_item in cc
remove_item-IsNormal client real (i ∷ items) rest e n =
    elim (remove_item-inv client real i items rest e) [
      | inl (same, r) ↦ rw r n.1
      | inr (is, found, r) ↦ rw r (n.0, remove_item-IsNormal client real items is found n.1)
    ]

module _ (h : LogHandler) (c : IsConsistent h) where
  add_subscription-IsConsistent : (msg : LogMessage) → IsConsistent (add_subscription msg h).0
  unfolding add_subscription
  add_subscription-IsConsistent msg = elim (Bool-cases (filter_topic (normalize_topic msg.text))) [
    | inl ignored ↦ rw (ignored, add_subscription) c
    | inr kept ↦
        let (v, counts, _, _, _) = add_counts (normalize_topic msg.text) h.manager c.valid in
        rw (kept, add_subscription)
          (record {
            valid = v;
            counted = λ t. rw topic_count-concat (ground (arith, counts t, c.counted t));
            normal = All-append IsNormal h.items _ c.normal (refl, tt);
          })
  ]

  remove_subscription-IsConsistent : (msg : LogMessage) → IsConsistent (remove_subscription msg h).0
  unfolding remove_subscription
  remove_subscription-IsConsistent msg =
      elim (Option-cases (remove_item msg.client_id msg.text h.items)) [
        | inl missing ↦ rw (missing, remove_subscription) c
        | inr (rest, found) ↦
            let (v, counts, _, _, _) = remove_counts (normalize_topic msg.text) h.manager c.valid in
            rw (found, remove_subscription)
              (record {
                valid = v;
                counted = λ t. ground (
                  arith,
                  counts t,
                  c.counted t,
                  remove_item_counts msg.client_id msg.text h.items rest found c.normal t,
                );
                normal = remove_item-IsNormal msg.client_id msg.text h.items rest found c.normal;
              })
      ]

  remove_all_subscriptions-IsConsistent :
      (client : Text) → IsConsistent (remove_all_subscriptions client h).0
  unfolding remove_all_subscriptions
  remove_all_subscriptions-IsConsistent client =
      let (subs, rest) = take_items client h.items in
      let (v, counts) =
        remove_topics_counts subs rest h.manager c.valid
          (λ t. omega (arith, c.counted t, take_items_counts client t h.items)) in
      record { valid = v; counted = counts; normal = take_items-IsNormal client h.items c.normal }

  evaluate-IsConsistent : (msg : LogMessage) (kind : LogType) → IsConsistent (evaluate msg kind h).0
  unfolding evaluate
  evaluate-IsConsistent msg subscription = add_subscription-IsConsistent msg
  evaluate-IsConsistent msg unsubscription = remove_subscription-IsConsistent msg
  evaluate-IsConsistent msg disconnection = remove_all_subscriptions-IsConsistent msg.client_id
  evaluate-IsConsistent msg termination = remove_all_subscriptions-IsConsistent msg.client_id

  -- If, before a line of the log, the manager counts for each normalized topic exactly the items of
  -- the list, with positive counts and items in the normal form of their topics, then so it does
  -- after the line, whatever that says.
  pub process_logs-IsConsistent :
      (own : OwnClients) (msg : Message) → IsConsistent (process_logs own msg h).0
  unfolding process_logs
  process_logs-IsConsistent own msg = elim (Option-cases (topic_from_ctx msg.ctx)) [
    | inl missing ↦ rw (missing, process_logs) c
    | inr (topic, found) ↦ elim (Option-cases (parse_log_message topic msg.payload)) [
      | inl other ↦ rw (found, process_logs, other) c
      | inr (log, parsed) ↦ elim (Bool-cases (text_eq log.client_id own.local_client_id)) [
        | inl local ↦ rw (found, process_logs, parsed, local) c
        | inr foreign ↦ elim (Bool-cases (text_eq log.client_id own.cloud_client_id)) [
          | inl cloud ↦ rw (found, process_logs, parsed, foreign, cloud) c
          | inr client ↦
              rw (found, process_logs, parsed, foreign, client) (evaluate-IsConsistent log log.kind)
        ]
      ]
    ]
  ]

-- A client that disconnects loses one subscription, if it has any: one that had several keeps the
-- others.
pub remove_all_subscriptions_one :
    (client : Text) (h : LogHandler)
    → client_count client (remove_all_subscriptions client h).0.items
      ≡ client_count client h.items - 1
unfolding remove_all_subscriptions
remove_all_subscriptions_one client h = take_items_client client h.items
