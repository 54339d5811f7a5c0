-- ===== src/App/Tests.antt =====
-- Runs of the event loop, and its properties at concrete inputs.
use suite_connector.Prelude.{◌≤◌, ◌≡◌, refl, [], ◌∷◌, ◌++◌, map, length}
use suite_connector.Prelude.Text.{Text, codes, text_eq}
use suite_connector.App.EventLoop.{FileEvent, file_event, tick, done, keep, event_loop}
use suite_connector.App.EventLoop.Bursts.{
  last_or, matching, ticks, event_loop-burst, length-event_loop,
}

abbrev base : Text → Text
base t = t

abbrev settings : Text
settings = codes "p.json"

abbrev created : FileEvent
created = record { name = settings; op = 1 }

abbrev written : FileEvent
written = record { name = settings; op = 2 }

abbrev other : FileEvent
other = record { name = codes "x.json"; op = 2 }

-- Two changes of the file and one of another give one launch, for the second change.
event_loop_run :
    event_loop base settings []
      (map file_event (created ∷ written ∷ other ∷ []) ++ tick ∷ done ∷ tick ∷ [])
    ≡ written ∷ []
unfolding event_loop keep text_eq
event_loop_run = refl

event_loop-burst_run :
    event_loop base settings []
      (map file_event (created ∷ written ∷ other ∷ []) ++ tick ∷ done ∷ [])
    ≡ last_or [] (matching base settings (created ∷ written ∷ other ∷ []))
      ++ event_loop base settings [] (done ∷ [])
event_loop-burst_run = event_loop-burst base settings (created ∷ written ∷ other ∷ []) (done ∷ [])

length-event_loop_run :
    length (event_loop base settings [] (file_event created ∷ tick ∷ tick ∷ []))
    ≤ ticks (file_event created ∷ tick ∷ tick ∷ [])
length-event_loop_run = length-event_loop base settings [] (file_event created ∷ tick ∷ tick ∷ [])
