-- ===== src/App/Launcher/Stops.antt =====
-- The launcher takes down what it has set up.
use suite_connector.Prelude.{
  ℕ, ◌+◌, ◌-◌, ◌≡◌, refl, ◌∙◌, Bool, true, false, some, List, [], ◌∷◌, ◌++◌, map, ◌==◌, arith,
  append_assoc, if◌then◌else◌,
}
use suite_connector.Connector.Listeners.{add_connection_listener, remove_connection_listener}
use suite_connector.Connector.Listeners.Laws.{occurrences, occurrences-add, occurrences-remove}
use suite_connector.Routing.Status.{Cause, connection_closed}
use suite_connector.Config.HonoConnect.{
  HonoRound, HonoEnding, pending, connected, canceled, gave_up, hono_connect,
}
use suite_connector.App.Launcher.{
  Action, acts, sends, hub_disconnects, local_disconnects, router_stops, cache_closes, cleans_up,
  signals_done, Session, Handlers, add_listeners, remove_listeners, finish, serve, shutdown,
}

-- Two listeners that are added, and removed.
abbrev added : ℕ → ℕ → List ℕ → List ℕ
added a b ls = add_connection_listener b (add_connection_listener a ls)

abbrev removed : ℕ → ℕ → List ℕ → List ℕ
removed a b ls = remove_connection_listener a (remove_connection_listener b ls)

module _ (a b k : ℕ) (ls : List ℕ) where
  occurrences-added :
      occurrences a ls ≡ 0
      → occurrences b ls ≡ 0
      → occurrences k (added a b ls)
        ≡ (if k == a then 1 else if k == b then 1 else occurrences k ls)
  occurrences-added ha hb =
      let first = add_connection_listener a ls in
      ground (arith, occurrences-add b k first, occurrences-add a k ls, occurrences-add a b ls)

  occurrences-removed :
      occurrences k (removed a b ls)
      ≡ occurrences k ls - (if k == a then 1 else 0) - (if k == b then 1 else 0)
  occurrences-removed =
      ground
        (arith, occurrences-remove a k (remove_connection_listener b ls), occurrences-remove b k ls)

-- A list that did not have them has its listeners again, also if they are removed twice.
module _ (a b k : ℕ) (ls : List ℕ) (ha : occurrences a ls ≡ 0) (hb : occurrences b ls ≡ 0) where
  once_back : occurrences k (removed a b (added a b ls)) ≡ occurrences k ls
  once_back =
      ground (arith, occurrences-removed a b k (added a b ls), occurrences-added a b k ls ha hb)

  twice_back : occurrences k (removed a b (removed a b (added a b ls))) ≡ occurrences k ls
  twice_back = ground (arith, occurrences-removed a b k (removed a b (added a b ls)), once_back)

-- How often the end is signalled.
unfoldable pub signalled_done : List Action → ℕ
signalled_done [] = 0
signalled_done (signals_done ∷ acts) = signalled_done acts + 1
signalled_done (_ ∷ acts) = signalled_done acts

signalled_done-sends :
    (cs : List Cause) (acts : List Action)
    → signalled_done (map sends cs ++ acts) ≡ signalled_done acts
unfolding signalled_done
signalled_done-sends [] acts = refl
signalled_done-sends (c ∷ cs) acts = signalled_done-sends cs acts

-- The goroutine's work ends: a connect that is made is followed by a signal.
abbrev pub is_stopping : HonoEnding → Bool → Bool
is_stopping pending signalled = false
is_stopping connected signalled = signalled
is_stopping canceled signalled = true
is_stopping (gave_up e) signalled = true

-- The listeners are as before, and the end is signalled once, last.
pub record IsTakenDown (s s' : Session) : Type 0 where
  pub hub : (k : ℕ) → occurrences k s'.hub ≡ occurrences k s.hub
  pub local : (k : ℕ) → occurrences k s'.local ≡ occurrences k s.local
  pub done :
      (earlier : List Action) × (s'.done ≡ s.done ++ (earlier ++ signals_done ∷ []))
      × (signalled_done earlier ≡ 0)

all_done :
    (d cs xs ys : List Action)
    → ((d ++ cs) ++ xs) ++ (ys ++ signals_done ∷ [])
      ≡ d ++ ((cs ++ (xs ++ ys)) ++ signals_done ∷ [])
all_done d cs xs ys = simp append_assoc

-- What the deferred calls do before they signal the end.
abbrev last_calls : Bool → List Action
last_calls has_cleanup =
    sends connection_closed ∷ cache_closes ∷ (if has_cleanup then cleans_up ∷ [] else [])

last_calls-lem : (has_cleanup : Bool) → signalled_done (last_calls has_cleanup) ≡ 0
unfolding signalled_done
last_calls-lem has_cleanup = ground arith

module _ (h : Handlers) (has_cleanup : Bool) (s : Session) (cs : List Cause)
    (status : occurrences h.status_handler s.local ≡ 0)
    (reconnect : occurrences h.reconnect_handler s.local ≡ 0)
    (conn : occurrences h.conn_handler s.hub ≡ 0)
    (errors : occurrences h.errors_handler s.hub ≡ 0) where
  -- HonoConnect has ended, and sent its causes.
  abbrev tried : Session
  tried = acts (map sends cs) (add_listeners h s)

  failed-IsTakenDown : IsTakenDown s (finish h has_cleanup (acts (router_stops ∷ []) tried))
  unfolding finish remove_listeners add_listeners signalled_done
  failed-IsTakenDown = record {
    hub = λ k. once_back h.conn_handler h.errors_handler k s.hub conn errors;
    local = λ k. once_back h.status_handler h.reconnect_handler k s.local status reconnect;
    done = (
      map sends cs ++ (router_stops ∷ last_calls has_cleanup),
      all_done s.done (map sends cs) (router_stops ∷ []) (last_calls has_cleanup),
      signalled_done-sends cs (router_stops ∷ last_calls has_cleanup) ∙ last_calls-lem has_cleanup,
    );
  }

  served-IsTakenDown : IsTakenDown s (
      finish h has_cleanup
        (acts (local_disconnects ∷ router_stops ∷ hub_disconnects ∷ []) (remove_listeners h tried)))
  unfolding finish remove_listeners add_listeners signalled_done
  served-IsTakenDown =
      let calls = local_disconnects ∷ router_stops ∷ hub_disconnects ∷ [] in
      record {
        hub = λ k. twice_back h.conn_handler h.errors_handler k s.hub conn errors;
        local = λ k. twice_back h.status_handler h.reconnect_handler k s.local status reconnect;
        done = (
          map sends cs ++ (calls ++ last_calls has_cleanup),
          all_done s.done (map sends cs) calls (last_calls has_cleanup),
          signalled_done-sends cs (calls ++ last_calls has_cleanup) ∙ last_calls-lem has_cleanup,
        );
      }

  serve-IsTakenDown :
      (ending : HonoEnding) (signalled : Bool)
      → is_stopping ending signalled ≡ true
      → (s' : Session) × (serve h has_cleanup signalled ending tried ≡ some s') × IsTakenDown s s'
  unfolding serve
  serve-IsTakenDown pending signalled stops = absurd (ground (arith, stops))
  serve-IsTakenDown connected true stops = (_, refl, served-IsTakenDown)
  serve-IsTakenDown connected false stops = absurd (ground (arith, stops))
  serve-IsTakenDown canceled signalled stops = (_, refl, failed-IsTakenDown)
  serve-IsTakenDown (gave_up e) signalled stops = (_, refl, failed-IsTakenDown)

-- With listeners that the connections do not have yet, and once HonoConnect ends, and a signal comes
-- if it has connected, the launcher's goroutine ends: both connections have the listeners that they
-- had before, and the end, which Stop waits for, is signalled exactly once, after all else.
pub shutdown_takes_down :
    (h : Handlers) (retries : ℕ) (has_cleanup : Bool) (rounds : List HonoRound) (signalled : Bool)
    (s : Session)
    → occurrences h.status_handler s.local ≡ 0
    → occurrences h.reconnect_handler s.local ≡ 0
    → occurrences h.conn_handler s.hub ≡ 0
    → occurrences h.errors_handler s.hub ≡ 0
    → is_stopping (hono_connect retries 0 rounds).ending signalled ≡ true
    → (s' : Session) × (shutdown h retries has_cleanup rounds signalled s ≡ some s')
      × IsTakenDown s s'
unfolding shutdown
shutdown_takes_down h retries has_cleanup rounds signalled s status reconnect conn errors stops =
    let trace = hono_connect retries 0 rounds in
    serve-IsTakenDown h has_cleanup s trace.causes status reconnect conn errors trace.ending
      signalled stops
