-- ===== src/App/Launcher.antt =====
-- cmd/connector/launcher.go: the launcher. Run sets up both connections and the routes; the plugin
-- that it gives the router connects to the hub, waits for a signal, and takes everything down again.
-- Listeners are known by numbers. The set-up of publishers, subscribers and routes is not modelled,
-- and neither is the wait for the router; whether a connection could be created is given.
pub mod Stops
mod Tests
use suite_connector.Prelude.{
  ℕ, Bool, true, false, ◌||◌, not, ◌⊎◌, inl, inr, Option, none, some, List, [], ◌∷◌, ◌++◌, map,
  if◌then◌else◌,
}
use suite_connector.Connector.Listeners.{add_connection_listener, remove_connection_listener}
use suite_connector.Connector.Subscriptions.{Call, Manager, forward_to}
use suite_connector.Routing.Status.{Cause, connection_closed, connection_error}
use suite_connector.Config.Settings.{HubConnectionSettings, ApplyFault, Applied}
use suite_connector.Config.HonoConnect.{
  HonoRound, HonoEnding, pending, connected, canceled, gave_up, hono_connect,
}

-- What the goroutine of the plugin does.
pub data Action : Type 0 where
  sends : Cause → Action
  hub_disconnects local_disconnects router_stops cache_closes cleans_up signals_done : Action

-- The listeners of the two connections, and what has been done.
pub record Session : Type 0 where
  pub hub : List ℕ
  pub local : List ℕ
  pub done : List Action

pub record Handlers : Type 0 where
  pub status_handler : ℕ
  pub reconnect_handler : ℕ
  pub conn_handler : ℕ
  pub errors_handler : ℕ

abbrev pub acts : List Action → Session → Session
acts actions s = record s { done = s.done ++ actions }

module _ (h : Handlers) where
  unfoldable pub add_listeners : Session → Session
  add_listeners s = record s {
    local =
        add_connection_listener h.reconnect_handler
          (add_connection_listener h.status_handler s.local);
    hub = add_connection_listener h.errors_handler (add_connection_listener h.conn_handler s.hub);
  }

  -- Before the routes are stopped, and once more by the deferred calls, in the same order.
  unfoldable pub remove_listeners : Session → Session
  remove_listeners s = record s {
    hub =
        remove_connection_listener h.conn_handler
          (remove_connection_listener h.errors_handler s.hub);
    local =
        remove_connection_listener h.status_handler
          (remove_connection_listener h.reconnect_handler s.local);
  }

  -- The deferred calls that follow on every path, behind those that remove the listeners.
  unfoldable pub finish : Bool → Session → Session
  unfolding remove_listeners
  finish has_cleanup s =
      acts
        (sends connection_closed ∷ cache_closes ∷ (if has_cleanup then cleans_up ∷ [] else [])
          ++ signals_done ∷ [])
        (remove_listeners s)

  -- After HonoConnect; `none` while the goroutine waits for a signal, or is still in HonoConnect.
  unfoldable pub serve : Bool → Bool → HonoEnding → Session → Option Session
  unfolding finish
  serve has_cleanup signalled pending s = none
  serve has_cleanup signalled connected s =
      let stopped =
        acts (local_disconnects ∷ router_stops ∷ hub_disconnects ∷ []) (remove_listeners s) in
      if signalled then some (finish has_cleanup stopped) else none
  serve has_cleanup signalled canceled s = some (finish has_cleanup (acts (router_stops ∷ []) s))
  serve has_cleanup signalled (gave_up e) s = some (finish has_cleanup (acts (router_stops ∷ []) s))

  -- The plugin's goroutine; `none` while it has not ended.
  unfoldable pub shutdown : ℕ → Bool → List HonoRound → Bool → Session → Option Session
  unfolding serve add_listeners
  shutdown retries has_cleanup rounds signalled s =
      let trace = hono_connect retries 0 rounds in
      serve has_cleanup signalled trace.ending (acts (map sends trace.causes) (add_listeners s))

-- Why Run fails.
pub data RunFault : Type 0 where
  settings_refused : ApplyFault → RunFault
  local_refused hub_refused : RunFault

-- The causes that Run sends, what the manager asks of the hub connection, and its fault.
pub record Launched : Type 0 where
  pub causes : List Cause
  pub forwarded : List Call
  pub manager : Manager
  pub fault : Option RunFault

-- Run: the subscriptions are forwarded only over a direct connection.
unfoldable pub launcher_run :
    (HubConnectionSettings → Bool) → Applied → Bool → Bool → ℕ → Manager → Launched
launcher_run is_aws applied local_created hub_created hub_conn m =
    let fails : List Cause → RunFault → Launched = λ more fault. record {
      causes = applied.causes ++ more;
      forwarded = [];
      manager = m;
      fault = some fault;
    } in
    let (m', calls) = forward_to hub_conn m in
    elim applied.result [
      | inl fault ↦ fails [] (settings_refused fault)
      | inr settings ↦
          if not local_created
          then fails [] local_refused
          else if not hub_created
          then fails (connection_error ∷ []) hub_refused
          else if is_aws settings || settings.generic
          then record { causes = applied.causes; forwarded = []; manager = m; fault = none }
          else record { causes = applied.causes; forwarded = calls; manager = m'; fault = none }
    ]
