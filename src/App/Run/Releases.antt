-- ===== src/App/Run/Releases.antt =====
-- Run uses each resource only while it has it, and gives all of them back.
use suite_connector.Prelude.{
  ℕ, ◌+◌, ◌≡◌, refl, Bool, true, false, not, ◌&&◌, inl, inr, Option, Option-cases, Bool-cases, ◌∙◌,
  none, some, List, [], ◌∷◌, ◌++◌, if◌then◌else◌, arith,
}
use suite_connector.Prelude.Text.{Text}
use suite_connector.Config.HonoConnect.{HonoEnding, pending, connected, canceled, gave_up}
use suite_connector.Config.LocalConnect.{local_connect}
use suite_connector.App.EventLoop.{FileEvent, Input, launch, event_loop}
use suite_connector.App.Run.{
  Use, client_connects, client_disconnects, status_opens, sends_config_error, status_closes,
  watcher_opens, watcher_closes, router_starts, router_closes, launcher_runs, launcher_stops, World,
  setup_watcher, stop_launcher, is_ending, launches, deferred, serve, watch, after_connect, app_run,
  Ran,
}

-- The resources that are held.
pub record Held : Type 0 where
  pub client : Bool
  pub status : Bool
  pub watcher : Bool
  pub router : Bool
  pub launcher : Bool

abbrev pub nothing : Held
nothing = record {
  client = false;
  status = false;
  watcher = false;
  router = false;
  launcher = false;
}

-- `none` where a use is out of order: what is held is taken again, or what is not held is used. A
-- launcher runs only over the client, the publisher and the router, and is stopped before these are.
unfoldable pub use_held : Use → Held → Option Held
use_held client_connects h = if h.client then none else some (record h { client = true })
use_held client_disconnects h =
    if h.client && not h.launcher then some (record h { client = false }) else none
use_held status_opens h =
    if h.client && not h.status then some (record h { status = true }) else none
use_held sends_config_error h = if h.client && h.status then some h else none
use_held status_closes h =
    if h.status && not h.launcher then some (record h { status = false }) else none
use_held watcher_opens h = if h.watcher then none else some (record h { watcher = true })
use_held watcher_closes h = if h.watcher then some (record h { watcher = false }) else none
use_held router_starts h =
    if h.client && not h.router then some (record h { router = true }) else none
use_held router_closes h =
    if h.router && not h.launcher then some (record h { router = false }) else none
use_held (launcher_runs clean well) h =
    if h.client && (h.status && (h.router && not h.launcher))
    then some (record h { launcher = well })
    else none
use_held launcher_stops h = if h.launcher then some (record h { launcher = false }) else none

unfoldable pub use_all : List Use → Held → Option Held
use_all [] h = some h
use_all (u ∷ us) h = elim (use_held u h) [ none ↦ none | some h' ↦ use_all us h' ]

use_all-append :
    (us vs : List Use) (h h' : Held) → use_all us h ≡ some h' → use_all (us ++ vs) h ≡ use_all vs h'
unfolding use_all
use_all-append [] vs h h' e = ground (arith, e)
use_all-append (u ∷ us) vs h h' e = elim (Option-cases (use_held u h)) [
  | inl refused ↦ absurd (ground (arith, e, refused))
  | inr (k, used) ↦ ground (arith, e, used, use_all-append us vs k h')
]

-- While Run serves: the launcher is held or not.
abbrev serving : Bool → Held
serving launched = record {
  client = true;
  status = true;
  watcher = true;
  router = true;
  launcher = launched;
}

abbrev started : Held
started = record (serving false) { router = false }

deferred_lem :
    (launched : Bool)
    → use_all (stop_launcher launched ++ deferred) (serving launched) ≡ some nothing
unfolding use_all use_held stop_launcher
deferred_lem launched = ground arith

-- All uses are in order, and after the end nothing is held.
abbrev pub IsReleased : Held → Ran → Type 0
IsReleased h r = (h' : Held) × (use_all r.uses h ≡ some h') × (r.ended ≡ true → h' ≡ nothing)

module _ (is_watched : ℕ → Bool) (runs_well : ℕ → Bool) where
  launches_held :
      (i : ℕ) (launched : Bool) (es : List FileEvent)
      → let r = launches is_watched runs_well i launched es in
        use_all r.1 (serving launched) ≡ some (serving r.0)
  unfolding launches launch use_all use_held
  launches_held i launched [] = refl
  launches_held i launched (e ∷ es) =
      ground (arith, launches_held (i + 1) (runs_well i) es, launches_held (i + 1) launched es)

  module _ (events : List FileEvent) (ends : Bool) where
    serve_held : IsReleased started (serve is_watched runs_well events ends)
    unfolding serve stop_launcher use_all use_held
    serve_held =
        let (launched, uses) = launches is_watched runs_well 1 (runs_well 0) events in
        let held = launches_held 1 (runs_well 0) events in
        elim (Bool-cases ends) [
          | inr goes_on ↦ rw goes_on (serving launched, held, λ over. absurd (ground (arith, over)))
          | inl over ↦ rw over (
            nothing,
            use_all-append uses (stop_launcher launched ++ deferred) (serving (runs_well 0))
                  (serving launched) held
                ∙ deferred_lem launched,
            λ _. refl,
          )
        ]

    watch_held : (w : World) → IsReleased nothing (watch is_watched runs_well w events ends)
    unfolding watch setup_watcher use_all use_held
    watch_held w = elim (Bool-cases (setup_watcher w).0) [
      | inl made ↦
          let (held, ordered, released) = serve_held in
          (held, ground (arith, made, ordered), λ over. released (ground (arith, made, over)))
      | inr failed ↦ (nothing, ground (arith, failed), λ _. refl)
    ]

    after_connect_held :
        (ending : HonoEnding) (w : World)
        → IsReleased nothing (after_connect is_watched runs_well ending w events ends)
    unfolding after_connect use_all
    after_connect_held pending w = (nothing, refl, λ over. absurd (ground (arith, over)))
    after_connect_held connected w = watch_held w
    after_connect_held canceled w = (nothing, refl, λ _. refl)
    after_connect_held (gave_up e) w = (nothing, refl, λ _. refl)

-- Whatever file events, signals and answers come, Run uses each resource only while it holds it: it
-- runs no launcher beside another, runs them over an open client, publisher and router, and stops only
-- one that runs; and when it has returned, on each path, it holds nothing any more.
pub app_run-IsReleased :
    (is_watched : ℕ → Bool) (runs_well : ℕ → Bool) (base : Text → Text) (file_name : Text)
    (w : World) (inputs : List Input)
    → IsReleased nothing (app_run is_watched runs_well base file_name w inputs)
unfolding app_run use_all
app_run-IsReleased is_watched runs_well base file_name w inputs = elim (Bool-cases w.client_made) [
  | inr unmade ↦ rw unmade (nothing, refl, λ _. refl)
  | inl made ↦ rw made (
      after_connect_held is_watched runs_well (event_loop base file_name [] inputs)
        (is_ending inputs) (local_connect w.rounds) (record w { client_made = true }))
]
