-- ===== src/App/Run.antt =====
-- cmd/connector/app/eventloop.go: Run and its deferred calls, with SetupProvisioningWatcher of
-- util/file_watcher.go. What is done with each resource is a list of uses, in order; the answers of the
-- surroundings are given, those of the launchers by the number of the file event.
pub mod Releases
mod Tests
use suite_connector.Prelude.{
  ℕ, ◌+◌, Bool, true, false, not, ◌||◌, Option, none, some, List, [], ◌∷◌, ◌++◌, if◌then◌else◌, map,
}
use suite_connector.Prelude.Text.{Text}
use suite_connector.Config.HonoConnect.{
  HonoRound, HonoEnding, pending, connected, canceled, gave_up,
}
use suite_connector.Config.LocalConnect.{local_connect}
use suite_connector.App.EventLoop.{
  FileEvent, Input, signal, done, tick, file_event, Action, stop, run, launch, event_loop,
}

-- The client of the local broker, the publisher of the status, the watcher, the router of the services
-- and the launchers; a launcher runs with its clean-session flag, and well or not.
pub data Use : Type 0 where
  client_connects client_disconnects : Use
  status_opens sends_config_error status_closes : Use
  watcher_opens watcher_closes router_starts router_closes : Use
  launcher_runs : Bool → Bool → Use
  launcher_stops : Use

pub data AppFault : Type 0 where
  no_local_client not_connected no_watcher : AppFault

-- `ended` is false while Run has not returned.
pub record Ran : Type 0 where
  pub uses : List Use
  pub ended : Bool
  pub fault : Option AppFault

-- What the surroundings answer: the local client is made, the rounds of its connect; the path is valid,
-- a watcher is made, and the directory can be watched.
pub record World : Type 0 where
  pub client_made : Bool
  pub rounds : List HonoRound
  pub path_valid : Bool
  pub watcher_made : Bool
  pub watched : Bool

-- SetupProvisioningWatcher: whether there is a watcher, and what is done with it.
unfoldable pub setup_watcher : World → Bool × List Use
setup_watcher w =
    if not w.path_valid
    then (false, [])
    else if not w.watcher_made
    then (false, [])
    else if not w.watched
    then (false, watcher_opens ∷ watcher_closes ∷ [])
    else (true, watcher_opens ∷ [])

-- stopLauncher
unfoldable pub stop_launcher : Bool → List Use
stop_launcher launched = if launched then launcher_stops ∷ [] else []

-- The event loop sees a signal, or the end of its context.
unfoldable pub is_ending : List Input → Bool
is_ending [] = false
is_ending (signal ∷ inputs) = true
is_ending (done ∷ inputs) = true
is_ending (tick ∷ inputs) = is_ending inputs
is_ending (file_event e ∷ inputs) = is_ending inputs

-- The deferred calls of Run, in the order in which they are made.
abbrev pub deferred : List Use
deferred = client_disconnects ∷ router_closes ∷ watcher_closes ∷ status_closes ∷ []

-- A launcher's action, of the callback whose launch goes well or not.
abbrev pub use_of : Bool → Action → Use
use_of well stop = launcher_stops
use_of well run = launcher_runs true well

module _ (is_watched : ℕ → Bool) (runs_well : ℕ → Bool) where
  -- The callbacks of the event loop, from event number `i` on, and whether there is a launcher then.
  unfoldable pub launches : ℕ → Bool → List FileEvent → Bool × List Use
  unfolding launch
  launches i launched [] = (launched, [])
  launches i launched (e ∷ es) =
      let (launched', actions) = launch is_watched (runs_well i) e launched in
      let (launched'', uses) = launches (i + 1) launched' es in
      (launched'', map (use_of (runs_well i)) actions ++ uses)

  -- From the first launcher to the deferred calls; the first launcher has the number 0.
  unfoldable pub serve : List FileEvent → Bool → Ran
  unfolding launches stop_launcher
  serve events ends =
      let (launched, uses) = launches 1 (runs_well 0) events in
      let served = router_starts ∷ launcher_runs false (runs_well 0) ∷ uses in
      if ends
      then record {
        uses = served ++ (stop_launcher launched ++ deferred);
        ended = true;
        fault = none;
      }
      else record { uses = served; ended = false; fault = none }

  -- What Run does once the local client is connected.
  unfoldable pub watch : World → List FileEvent → Bool → Ran
  unfolding setup_watcher serve
  watch w events ends =
      let (made, opened) = setup_watcher w in
      let begun = client_connects ∷ status_opens ∷ opened in
      if made then (let r = serve events ends in record r { uses = begun ++ r.uses }) else record {
        uses = begun ++ (sends_config_error ∷ client_disconnects ∷ status_closes ∷ []);
        ended = true;
        fault = some no_watcher;
      }

  unfoldable pub after_connect : HonoEnding → World → List FileEvent → Bool → Ran
  unfolding watch
  after_connect pending w events ends = record { uses = []; ended = false; fault = none }
  after_connect connected w events ends = watch w events ends
  after_connect canceled w events ends = record {
    uses = [];
    ended = true;
    fault = some not_connected;
  }
  after_connect (gave_up e) w events ends = record {
    uses = [];
    ended = true;
    fault = some not_connected;
  }

  -- Run, over the base name of a path, the provisioning file, and what the event loop sees.
  unfoldable pub app_run : (Text → Text) → Text → World → List Input → Ran
  unfolding after_connect event_loop
  app_run base file_name w inputs =
      if not w.client_made
      then record { uses = []; ended = true; fault = some no_local_client }
      else after_connect (local_connect w.rounds) w (event_loop base file_name [] inputs)
          (is_ending inputs)
