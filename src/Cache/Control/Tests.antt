-- ===== src/Cache/Control/Tests.antt =====
-- Interleavings of the cache's operations, and the properties at concrete inputs.
use suite_connector.Prelude.{ℕ, ◌≡◌, refl, true, false, none, some, List, [], ◌∷◌}
use suite_connector.Prelude.Int.{pos}
use suite_connector.Prelude.Text.{codes}
use suite_connector.Cache.Queue.{Element}
use suite_connector.Cache.Table.{close, new_ttl_cache}
use suite_connector.Cache.Control.{
  by_late_signal, Event, puts, closes, shuts, signals, Control, new_control, shut, step, run,
}
use suite_connector.Cache.Control.Quiet.{quiet_close_safe}
use suite_connector.Cache.Control.Race.{IsGuarded, control-IsGuarded, overtaken_change_panics}

abbrev cell : ℕ → Element ℕ
cell a = record { index = none; key = []; value = 0; ttl = pos 0; exp_time = 0 }

abbrev start : Control ℕ
start = new_control cell

start-lem : run [] start ≡ some start
unfolding run
start-lem = refl

abbrev closed_twice : List (Event ℕ)
closed_twice = closes ∷ shuts ∷ closes ∷ []

abbrev twice_state : Control ℕ
twice_state = record start {
  cache = record (new_ttl_cache cell) { closed = true };
  channel_closed = true;
}

closed_twice-lem : run closed_twice start ≡ some twice_state
unfolding run step close shut new_control new_ttl_cache
closed_twice-lem = refl

control-IsGuarded_example : IsGuarded false twice_state
control-IsGuarded_example = control-IsGuarded cell closed_twice twice_state closed_twice-lem

overtaken_change_panics_example :
    (s' : Control ℕ) × (run (puts 0 (codes "k") 1 (pos 5) ∷ closes ∷ shuts ∷ signals ∷ []) start
      ≡ some s')
    × (s'.panicked ≡ some by_late_signal)
unfolding new_control new_ttl_cache
overtaken_change_panics_example =
    overtaken_change_panics cell [] start 0 (codes "k") 1 5 start-lem refl

quiet_close_safe_run : twice_state.panicked ≡ none
unfolding new_control new_ttl_cache
quiet_close_safe_run =
    quiet_close_safe cell [] (shuts ∷ closes ∷ []) start twice_state start-lem refl refl refl
      (refl, (refl, tt)) closed_twice-lem
