-- ===== src/App/EventLoop/Bursts.antt =====
-- Between two ticks any number of changes of the file cause one launch, for the last of them.
use suite_connector.Prelude.{
  ℕ, suc, ◌≤◌, ◌≡◌, refl, true, List, [], ◌∷◌, ◌++◌, arith, length, length-append, if◌then◌else◌,
  map,
}
use suite_connector.Prelude.Text.{Text, text_eq}
use suite_connector.App.EventLoop.{
  FileEvent, Input, signal, done, tick, file_event, newest, keep, event_loop,
}

-- The last event for the file, or the one before the burst.
abbrev pub last_or : List FileEvent → List FileEvent → List FileEvent
last_or before [] = before
last_or before (e ∷ es) = last_or (e ∷ []) es

abbrev pub ticks : List Input → ℕ
ticks [] = 0
ticks (tick ∷ inputs) = suc (ticks inputs)
ticks (signal ∷ inputs) = ticks inputs
ticks (done ∷ inputs) = ticks inputs
ticks (file_event e ∷ inputs) = ticks inputs

module _ (base : Text → Text) (file_name : Text) where
  -- The event is for the watched file.
  abbrev pub IsOwn : FileEvent → Type 0
  IsOwn e = text_eq (base e.name) (base file_name) ≡ true

  abbrev pub matching : List FileEvent → List FileEvent
  matching [] = []
  matching (e ∷ es) =
      if text_eq (base e.name) (base file_name) then e ∷ matching es else matching es

  burst_from :
      (events es : List FileEvent) (inputs : List Input)
      → event_loop base file_name events (map file_event es ++ tick ∷ inputs)
        ≡ last_or (newest events) (matching es) ++ event_loop base file_name [] inputs
  unfolding event_loop keep
  burst_from events [] inputs = refl
  burst_from events (e ∷ es) inputs =
      ground (arith, burst_from (e ∷ events) es inputs, burst_from events es inputs)

  -- A burst of file events before a tick launches once, for the newest event that is for the file, or
  -- not at all if none is; and the loop goes on with no event kept.
  pub event_loop-burst :
      (es : List FileEvent) (inputs : List Input)
      → event_loop base file_name [] (map file_event es ++ tick ∷ inputs)
        ≡ last_or [] (matching es) ++ event_loop base file_name [] inputs
  event_loop-burst es inputs = burst_from [] es inputs

  newest_le : (events : List FileEvent) → length (newest events) ≤ 1
  newest_le [] = omega arith
  newest_le (e ∷ es) = omega arith

  -- There are never more launches than ticks.
  pub length-event_loop :
      (events : List FileEvent) (inputs : List Input)
      → length (event_loop base file_name events inputs) ≤ ticks inputs
  unfolding event_loop
  length-event_loop events [] = omega arith
  length-event_loop events (signal ∷ inputs) = omega arith
  length-event_loop events (done ∷ inputs) = omega arith
  length-event_loop events (file_event e ∷ inputs) =
      length-event_loop (keep base file_name e events) inputs
  length-event_loop events (tick ∷ inputs) = omega (
    arith,
    length-append (newest events) (event_loop base file_name [] inputs),
    newest_le events,
    length-event_loop [] inputs,
  )
