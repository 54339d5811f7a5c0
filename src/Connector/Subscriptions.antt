-- ===== src/Connector/Subscriptions.antt =====
-- connector/subscription_manager.go: the topics that local clients subscribe to, counted, and the
-- calls on the hub connection that follow. A Go map is an association list; its iteration order,
-- which Go leaves open, is the order of the list. A connection is known by a number.
pub mod Counts
pub mod Bag
mod Tests
use suite_connector.Prelude.{
  ℕ, ◌+◌, ◌-◌, ◌≡◌, Bool, true, false, Option, none, some, List, [], ◌∷◌, map, ltb, if◌then◌else◌,
}
use suite_connector.Prelude.Text.{Text, text_eq}

abbrev pub Counts : Type 0
Counts = List (Text × ℕ)

-- `m.topics[topic]`
unfoldable pub lookup : Text → Counts → Option ℕ
lookup t [] = none
lookup t ((k, c) ∷ m) = if text_eq k t then some c else lookup t m

-- `m.topics[topic] = c`
unfoldable pub insert : Text → ℕ → Counts → Counts
insert t c [] = (t, c) ∷ []
insert t c ((k, d) ∷ m) = if text_eq k t then (k, c) ∷ m else (k, d) ∷ insert t c m

-- `delete(m.topics, topic)`
unfoldable pub erase : Text → Counts → Counts
erase t [] = []
erase t ((k, d) ∷ m) = if text_eq k t then m else (k, d) ∷ erase t m

pub record Manager : Type 0 where
  pub topics : Counts
  pub conn : Option ℕ

-- Calls on a connection: subscribe with quality 0 and no callback, unsubscribe with autoDelete.
pub data Call : Type 0 where
  subscribe unsubscribe : ℕ → Text → Call

abbrev pub new_subscription_manager : Manager
new_subscription_manager = record { topics = []; conn = none }

-- The map that add0 leaves, and its answer.
unfoldable pub add0 : Text → Counts → Counts × Bool
add0 t m = elim (lookup t m) [ some c ↦ (insert t (c + 1) m, false) | none ↦ (insert t 1 m, true) ]

unfoldable pub remove0 : Text → Counts → Counts × Bool
remove0 t m = elim (lookup t m) [
  | some c ↦ if ltb 1 c then (insert t (c - 1) m, false) else (erase t m, true)
  | none ↦ (m, false)
]

-- A manager, the answer of a call on it, and the calls made on the connection.
pub record Step : Type 0 where
  pub manager : Manager
  pub answer : Bool
  pub calls : List Call

-- The common part of Add and Remove: the connection is called if the topic came or went.
unfoldable pub finish : (ℕ → Text → Call) → Text → Manager → Counts × Bool → Step
finish call t m (topics, changed) =
    let m' : Manager = record m { topics = topics } in
    let idle : Step = record { manager = m'; answer = false; calls = [] } in
    if changed
    then elim m.conn [
      | some conn ↦ record { manager = m'; answer = true; calls = call conn t ∷ [] }
      | none ↦ idle
    ]
    else idle

unfoldable pub add : Text → Manager → Step
add t m = finish subscribe t m (add0 t m.topics)

unfoldable pub remove : Text → Manager → Step
remove t m = finish unsubscribe t m (remove0 t m.topics)

abbrev pub keys : Counts → List Text
keys = map (λ (e : Text × ℕ). e.0)

-- RemoveAll: the topics are forgotten also when there is no connection.
unfoldable pub remove_all : Manager → Manager × List Call
remove_all m =
    let calls : List Call = elim m.conn [
      | some conn ↦ map (unsubscribe conn) (keys m.topics)
      | none ↦ []
    ] in
    (record m { topics = [] }, calls)

unfoldable pub forward_to : ℕ → Manager → Manager × List Call
forward_to conn m = (record m { conn = some conn }, map (subscribe conn) (keys m.topics))
