-- ===== src/App/Run/Tests.antt =====
-- Runs of the application, and its property at a concrete input.
use suite_connector.Prelude.{ℕ, zero, suc, ◌≡◌, refl, Bool, true, false, none, [], ◌∷◌, List}
use suite_connector.Prelude.Text.{Text, codes, text_eq}
use suite_connector.Config.HonoConnect.{HonoRound, made}
use suite_connector.Config.LocalConnect.{local_connect, local_round}
use suite_connector.App.EventLoop.{
  FileEvent, Input, done, tick, file_event, launch, event_loop, keep,
}
use suite_connector.App.Run.{
  client_connects, client_disconnects, status_opens, sends_config_error, status_closes,
  watcher_opens, watcher_closes, router_starts, router_closes, launcher_runs, launcher_stops, World,
  setup_watcher, stop_launcher, is_ending, launches, serve, watch, after_connect, app_run,
}
use suite_connector.App.Run.Releases.{IsReleased, nothing, app_run-IsReleased}

abbrev settings : Text
settings = codes "p.json"

abbrev written : FileEvent
written = record { name = settings; op = 2 }

abbrev reached : HonoRound
reached = record { answer = made; next_backoff = none; signal_in_wait = false }

abbrev world : Bool → World
world watched = record {
  client_made = true;
  rounds = reached ∷ [];
  path_valid = true;
  watcher_made = true;
  watched = watched;
}

-- The first launcher runs well, the second does not, the third does.
abbrev runs_well : ℕ → Bool
runs_well (suc zero) = false
runs_well i = true

abbrev inputs : List Input
inputs = file_event written ∷ tick ∷ file_event written ∷ tick ∷ done ∷ []

app_run_run :
    (app_run (λ op. true) runs_well (λ t. t) settings (world true) inputs).uses
    ≡ client_connects
      ∷ status_opens
      ∷ watcher_opens
      ∷ router_starts
      ∷ launcher_runs false true
      ∷ launcher_stops
      ∷ launcher_runs true false
      ∷ launcher_runs true true
      ∷ launcher_stops
      ∷ client_disconnects
      ∷ router_closes
      ∷ watcher_closes
      ∷ status_closes
      ∷ []
unfolding app_run after_connect watch setup_watcher serve launches launch stop_launcher is_ending
    event_loop keep text_eq local_connect local_round
app_run_run = refl

unwatched_run :
    (app_run (λ op. true) runs_well (λ t. t) settings (world false) inputs).uses
    ≡ client_connects ∷ status_opens ∷ watcher_opens ∷ watcher_closes ∷ sends_config_error
      ∷ client_disconnects ∷ status_closes ∷ []
unfolding app_run after_connect watch setup_watcher local_connect local_round
unwatched_run = refl

app_run-IsReleased_example :
    IsReleased nothing (app_run (λ op. true) runs_well (λ t. t) settings (world true) inputs)
app_run-IsReleased_example =
    app_run-IsReleased (λ op. true) runs_well (λ t. t) settings (world true) inputs
