-- ===== src/Connector/Listeners.antt =====
-- connector/connection.go: the connection listeners, known by numbers, and their notification. A
-- notification goes through the list that was current when it began.
pub mod Laws
use suite_connector.Prelude.{
  ℕ, suc, ◌≡◌, Bool, true, false, Option, none, some, List, [], ◌∷◌, ◌++◌, ◌==◌, if◌then◌else◌, ◌+◌,
  take, drop,
}
use suite_connector.Prelude.Outcome.{Error}

-- The index of the listener, if it is in the list.
unfoldable pub index_of : ℕ → List ℕ → Option ℕ
index_of l [] = none
index_of l (k ∷ ls) =
    if l == k then some 0 else elim (index_of l ls) [ none ↦ none | some i ↦ some (suc i) ]

unfoldable pub add_connection_listener : ℕ → List ℕ → List ℕ
add_connection_listener l ls = elim (index_of l ls) [ some _ ↦ ls | none ↦ ls ++ l ∷ [] ]

-- `listeners[:i]` and `listeners[i+1:]`
unfoldable pub remove_connection_listener : ℕ → List ℕ → List ℕ
remove_connection_listener l ls = elim (index_of l ls) [
  | some i ↦ take i ls ++ drop (suc i) ls
  | none ↦ ls
]

-- A call of Connected on a listener.
pub record Notification : Type 0 where
  pub listener : ℕ
  pub connected : Bool
  pub error : Option Error

unfoldable pub fire_connection_event : Bool → Option Error → List ℕ → List Notification
fire_connection_event connected error [] = []
fire_connection_event connected error (l ∷ ls) =
    record { listener = l; connected = connected; error = error }
    ∷ fire_connection_event connected error ls
