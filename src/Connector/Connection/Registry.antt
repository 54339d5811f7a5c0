-- ===== src/Connector/Connection/Registry.antt =====
-- The registry is a map from identifiers to subscriptions, all of them alive, and a reconnect sends
-- exactly these.
use suite_connector.Prelude.{
  ℕ, ◌≡◌, refl, Bool, false, none, some, List, [], ◌∷◌, map, arith, if◌then◌else◌, Option-cases,
  inl, inr,
}
use suite_connector.Prelude.Text.{Text, text_eq, text_eq_iff}
use suite_connector.Prelude.Outcome.{ok, Outcome-cases}
use suite_connector.Connector.Connection.{
  Callback, Packet, subscribe_multiple, SubscriptionInfo, Registry, load, store, delete,
  sub_filters, subscription_id, subscribe, unsubscribe, resubscribe,
}

-- No identifier is listed twice, and nothing that is listed is disposed of.
abbrev pub IsValid : Registry → Type 0
IsValid [] = Unit
IsValid ((k, s) ∷ r) = (s.disposed ≡ false) × (load k r ≡ none) × IsValid r

load-store :
    (id j : Text) (s : SubscriptionInfo) (r : Registry)
    → load j (store id s r) ≡ (if text_eq id j then some s else load j r)
unfolding load store
load-store id j s [] = refl
load-store id j s ((k, t) ∷ r) =
    ground (arith, text_eq_iff id j, text_eq_iff k id, text_eq_iff k j, load-store id j s r)

load-delete :
    (id j : Text) (r : Registry)
    → IsValid r
    → load j (delete id r) ≡ (if text_eq id j then none else load j r)
unfolding load delete
load-delete id j [] v = ground arith
load-delete id j ((k, t) ∷ r) v =
    ground (arith, text_eq_iff id j, text_eq_iff k id, text_eq_iff k j, load-delete id j r v.2)

store-IsValid :
    (id : Text) (s : SubscriptionInfo) (r : Registry)
    → IsValid r
    → s.disposed ≡ false
    → IsValid (store id s r)
unfolding store
store-IsValid id s [] v d = unfold load in (d, refl, tt)
store-IsValid id s ((k, t) ∷ r) v d =
    ground
      (arith, store-IsValid id s r v.2 d, load-store id k s r, text_eq_iff id k, text_eq_iff k id)

delete-IsValid : (id : Text) (r : Registry) → IsValid r → IsValid (delete id r)
unfolding delete
delete-IsValid id [] v = tt
delete-IsValid id ((k, t) ∷ r) v = ground (arith, delete-IsValid id r v.2, load-delete id k r v.2)

-- The record that a subscription leaves.
abbrev pub subscribed : Callback → ℕ → List Text → SubscriptionInfo
subscribed callback qos topics = record {
  topics = topics;
  callback = callback;
  qos = qos;
  disposed = false;
}

-- A subscription that succeeds on a valid registry leaves it valid and is found under its
-- identifier, with its topics, quality and callback; no other identifier's is touched.
pub subscribe_registers :
    (is_open : Bool) (uuid id : Text) (callback : Callback) (qos : ℕ) (topics : List Text)
    (r r' : Registry) (packets : List Packet)
    → IsValid r
    → subscribe is_open uuid callback qos topics r ≡ ok (id, r', packets)
    → IsValid r'
      × ((j : Text)
          → load j r' ≡ (if text_eq id j then some (subscribed callback qos topics) else load j r))
unfolding subscribe
subscribe_registers is_open uuid id callback qos topics r r' packets v e =
    elim (Outcome-cases (subscription_id uuid topics)) [
      | inl (k, found) ↦
          let sub = subscribed callback qos topics in
          let same : k ≡ id = ground (arith, e, found) in
          let left : r' ≡ store id sub r = ground (arith, e, found) in
          rw left (store-IsValid id sub r v refl, λ j. load-store id j sub r)
      | inr failed ↦ absurd (ground (arith, e, failed))
    ]

-- An unsubscription leaves a valid registry valid; nothing is found under its identifier
-- afterwards, and no other's is touched.
pub unsubscribe_forgets :
    (is_open auto_delete : Bool) (id : Text) (r : Registry)
    → IsValid r
    → let r' = (unsubscribe is_open id auto_delete r).0 in
      IsValid r' × ((j : Text) → load j r' ≡ (if text_eq id j then none else load j r))
unfolding unsubscribe
unsubscribe_forgets is_open auto_delete id r v = elim (Option-cases (load id r)) [
  | inl missing ↦ rw (missing, unsubscribe) (v, λ j. ground (arith, missing, text_eq_iff id j))
  | inr (s, found) ↦ rw (found, unsubscribe) (delete-IsValid id r v, λ j. load-delete id j r v)
]

-- The packet that subscribes for a record.
abbrev pub subscribe_packet : Text × SubscriptionInfo → Packet
subscribe_packet (id, s) = subscribe_multiple (sub_filters s.qos s.topics) s.callback

-- On a valid registry a reconnect subscribes for every record, once each.
pub resubscribe_all : (r : Registry) → IsValid r → resubscribe r ≡ map subscribe_packet r
unfolding resubscribe
resubscribe_all [] v = refl
resubscribe_all ((k, s) ∷ r) v = ground (arith, resubscribe_all r v.2)
