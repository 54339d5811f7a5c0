-- ===== src/App/Launcher/Tests.antt =====
-- Runs of the launcher, and the property at a concrete input.
use suite_connector.Prelude.{◌≡◌, refl, true, false, some, List, [], ◌∷◌}
use suite_connector.Connector.Listeners.{
  index_of, add_connection_listener, remove_connection_listener,
}
use suite_connector.Connector.Listeners.Laws.{occurrences}
use suite_connector.Connector.Reconnect.{other_error}
use suite_connector.Routing.Status.{connection_error, connection_closed, status_cause}
use suite_connector.Config.HonoConnect.{
  HonoRound, made, failed, next_auth, hono_round, wait_round, hono_connect,
}
use suite_connector.App.Launcher.{
  sends, local_disconnects, router_stops, hub_disconnects, cache_closes, signals_done, Session,
  Handlers, add_listeners, remove_listeners, finish, serve, shutdown,
}
use suite_connector.App.Launcher.Stops.{IsTakenDown, shutdown_takes_down}

abbrev handlers : Handlers
handlers = record {
  status_handler = 1;
  reconnect_handler = 2;
  conn_handler = 3;
  errors_handler = 4;
}

-- Both connections have a listener of their own.
abbrev session : Session
session = record { hub = 7 ∷ []; local = 8 ∷ []; done = [] }

-- One attempt fails, the next is made.
abbrev rounds : List HonoRound
rounds =
    record { answer = failed (other_error 1); next_backoff = some 60; signal_in_wait = false }
    ∷ record { answer = made; next_backoff = some 60; signal_in_wait = false }
    ∷ []

shutdown_run :
    shutdown handlers 1 false rounds true session
    ≡ some (record {
      hub = 7 ∷ [];
      local = 8 ∷ [];
      done =
          sends connection_error
          ∷ local_disconnects
          ∷ router_stops
          ∷ hub_disconnects
          ∷ sends connection_closed
          ∷ cache_closes
          ∷ signals_done
          ∷ [];
    })
unfolding shutdown serve finish remove_listeners add_listeners hono_connect hono_round wait_round
    next_auth status_cause add_connection_listener remove_connection_listener index_of
shutdown_run = refl

shutdown_takes_down_example :
    (s' : Session) × (shutdown handlers 1 false rounds true session ≡ some s')
    × IsTakenDown session s'
unfolding occurrences hono_connect hono_round wait_round next_auth status_cause
shutdown_takes_down_example =
    shutdown_takes_down handlers 1 false rounds true session refl refl refl refl refl
