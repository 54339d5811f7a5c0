-- ===== src/Connector/Dynamic.antt =====
-- connector/subscriber.go: the dynamic subscriber, which has an MQTT client of its own for each
-- subscription. What the client's tokens answer, and a fresh identifier, are given.
pub mod Balance
mod Tests
use suite_connector.Prelude.{
  ℕ, zero, suc, ◌+◌, ◌-◌, Bool, true, false, Option, none, some, List, [], ◌∷◌, ◌++◌, if◌then◌else◌,
}
use suite_connector.Prelude.Text.{Text, is_empty}
use suite_connector.Prelude.Outcome.{Error, closed, timeout, Outcome, ok, err}
use suite_connector.Connector.Config.{Configuration, ClientOptions, create_client_options}
use suite_connector.Connector.Connection.{parse_subs, sub_filters}

-- The end of a token's wait.
pub data TokenEnd : Type 0 where
  completed timed_out : TokenEnd
  failed : Error → TokenEnd

-- Calls on the clients: a connect with its options and whether it succeeds.
pub data Call : Type 0 where
  connects : ClientOptions → Bool → Call
  subscribes : List (Text × ℕ) → Call
  unsubscribes : List Text → Call
  disconnects : Call

pub record Settings (F : Type 0) : Type 0 where
  pub config : Configuration F
  pub qos : ℕ
  pub auto_delete : Bool
  pub client_id_provider : Option (Text → Text)

-- The closed flag, the wait group, the topics of the running message loops, and the calls so far.
pub record Dynamic : Type 0 where
  pub is_closed : Bool
  pub wait_group : ℕ
  pub running : List (List Text)
  pub calls : List Call

-- getClientID
unfoldable pub get_client_id : Option (Text → Text) → Text → Text → Text
get_client_id none uuid topic = uuid
get_client_id (some provider) uuid topic =
    let id = provider topic in if is_empty id then uuid else id

module _ {F : Type 0} (settings : Settings F) where
  unfoldable pub options : Text → Text → ClientOptions
  options uuid topic =
      create_client_options settings.config (get_client_id settings.client_id_provider uuid topic)
        false

  unfoldable pub subscribe_end : TokenEnd → Outcome (Unit {0})
  subscribe_end completed = ok tt
  subscribe_end timed_out = err timeout
  subscribe_end (failed e) = err e

  -- SubscribeInitialize; the deferred Disconnect follows on every path behind a connect that succeeds.
  unfoldable pub subscribe_initialize :
      Text → Text → Option Error → TokenEnd → Dynamic → Dynamic × Outcome (Unit {0})
  unfolding subscribe_end
  subscribe_initialize uuid topic connected subscribed d =
      let called : List Call → Dynamic = λ cs. record d { calls = d.calls ++ cs } in
      let filters = sub_filters settings.qos (parse_subs topic) in
      let o = options uuid topic in
      let after : Dynamic × Outcome (Unit {0}) = elim connected [
        | some e ↦ (called (connects o false ∷ []), err e)
        | none ↦ (
          called (connects o true ∷ subscribes filters ∷ disconnects ∷ []),
          subscribe_end subscribed,
        )
      ] in
      if d.is_closed then (d, err closed) else after

  -- Subscribe: a loop that cannot connect is closed, and leaves the wait group again.
  unfoldable pub subscribe : Text → Text → Option Error → Dynamic → Dynamic × Outcome (Unit {0})
  subscribe uuid topic connected d =
      let topics = parse_subs topic in
      let o = options uuid topic in
      let added = record d { wait_group = d.wait_group + 1 } in
      let after : Dynamic × Outcome (Unit {0}) = elim connected [
        | some e ↦ (
          record added {
            calls = added.calls ++ connects o false ∷ [];
            wait_group = added.wait_group - 1;
          },
          err e,
        )
        | none ↦ (
          record added {
            calls =
                added.calls ++ connects o true ∷ subscribes (sub_filters settings.qos topics) ∷ [];
            running = added.running ++ topics ∷ [];
          },
          ok tt,
        )
      ] in
      if d.is_closed then (d, err closed) else after

  -- What the message loop runs when it ends: the stopper, and the cleaner.
  unfoldable pub stop : List Text → Dynamic → Dynamic
  stop topics d =
      let unsubscribed = if settings.auto_delete then unsubscribes topics ∷ [] else [] in
      record d {
        calls = d.calls ++ (unsubscribed ++ disconnects ∷ []);
        wait_group = d.wait_group - 1;
      }

-- The list without what is at an index, and what is there.
unfoldable pub take_at : ℕ → List (List Text) → Option (List Text × List (List Text))
take_at i [] = none
take_at zero (x ∷ xs) = some (x, xs)
take_at (suc i) (x ∷ xs) = elim (take_at i xs) [ none ↦ none | some (y, ys) ↦ some (y, x ∷ ys) ]

-- Uses of a subscriber, each with what its tokens answer. A message loop ends when its context does
-- or the subscriber is closed.
pub data Use : Type 0 where
  initializes : Text → Text → Option Error → TokenEnd → Use
  subscribing : Text → Text → Option Error → Use
  loop_ends : ℕ → Use
  close_called : Use

module _ {F : Type 0} (settings : Settings F) where
  unfoldable pub use_step : Use → Dynamic → Dynamic
  unfolding take_at stop subscribe subscribe_initialize
  use_step (initializes uuid topic c s) d = (subscribe_initialize settings uuid topic c s d).0
  use_step (subscribing uuid topic c) d = (subscribe settings uuid topic c d).0
  use_step (loop_ends i) d = elim (take_at i d.running) [
    | none ↦ d
    | some (topics, rest) ↦ stop settings topics (record d { running = rest })
  ]
  use_step close_called d = record d { is_closed = true }

  unfoldable pub uses : List Use → Dynamic → Dynamic
  unfolding use_step
  uses [] d = d
  uses (u ∷ us) d = uses us (use_step u d)

abbrev pub new_dynamic_subscriber : Dynamic
new_dynamic_subscriber = record { is_closed = false; wait_group = 0; running = []; calls = [] }
