-- ===== src/App/EventLoop.antt =====
-- cmd/connector/app/eventloop.go: EventLoop. What its select sees is a list of inputs, in the order in
-- which it takes them; the base name of a path is taken by a library and is an argument.
pub mod Bursts
use suite_connector.Prelude.{ℕ, Bool, true, false, not, List, [], ◌∷◌, ◌++◌, ◌==◌, if◌then◌else◌}
use suite_connector.Prelude.Text.{Text, text_eq}

-- A file event, with the bit set of its operations.
pub record FileEvent : Type 0 where
  pub name : Text
  pub op : ℕ

pub data Input : Type 0 where
  signal done tick : Input
  file_event : FileEvent → Input

abbrev pub newest : List FileEvent → List FileEvent
newest [] = []
newest (e ∷ _) = e ∷ []

module _ (base : Text → Text) (file_name : Text) where
  -- The events that are kept after an input, newest first.
  unfoldable pub keep : FileEvent → List FileEvent → List FileEvent
  keep e events = if text_eq (base e.name) (base file_name) then e ∷ events else events

  -- The launches, in order.
  unfoldable pub event_loop : List FileEvent → List Input → List FileEvent
  unfolding keep
  event_loop events [] = []
  event_loop events (signal ∷ inputs) = []
  event_loop events (done ∷ inputs) = []
  event_loop events (file_event e ∷ inputs) = event_loop (keep e events) inputs
  event_loop events (tick ∷ inputs) = newest events ++ event_loop [] inputs

-- The callback of Run: an event with none of the watched operations is dropped; else the launcher is
-- stopped, if there is one, and a new one is run. The state is whether there is a launcher.
pub data Action : Type 0 where
  stop run : Action

unfoldable pub launch : (ℕ → Bool) → Bool → FileEvent → Bool → Bool × List Action
launch is_watched runs_well e launched =
    let actions = if launched then stop ∷ run ∷ [] else run ∷ [] in
    if is_watched e.op then (runs_well, actions) else (launched, [])
