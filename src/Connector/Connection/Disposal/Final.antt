-- ===== src/Connector/Connection/Disposal/Final.antt =====
-- A subscription that unsubscribe has released is not sent again.
use suite_connector.Prelude.{
  ◌≡◌, inl, inr, Bool, true, false, Option, Option-cases, none, some, List, [], ◌∷◌, ◌++◌, ◌∙◌, sym,
  subst, ◌≢◌, arith,
}
use suite_connector.Prelude.Text.{Text}
use suite_connector.Connector.Connection.{Packet, SubscriptionInfo, unsubscribe_packets}
use suite_connector.Connector.Connection.Disposal.{
  Holder, checking, sending, by_deleter, Deleter, uncalled, taken, locked, flagged, released, ended,
  Shared, Event, stored, releases, checks, sends, deleter_locks, disposes, unlocks, reader_step,
  deleter_step, step, run,
}

-- The flag is set from the disposal on, and before it the lock belongs to whom it says.
unfoldable pub IsOrdered : Shared → Type 0
IsOrdered s = elim s.deleter [
  | uncalled ↦ (s.lock ≡ by_deleter → ⊥) × (s.info.disposed ≡ false)
  | taken ↦ (s.lock ≡ by_deleter → ⊥) × (s.info.disposed ≡ false)
  | locked ↦ s.lock ≡ by_deleter
  | flagged ↦ (s.lock ≡ by_deleter) × (s.info.disposed ≡ true)
  | released ↦ (s.lock ≡ by_deleter) × (s.info.disposed ≡ true)
  | ended ↦ (s.lock ≡ by_deleter → ⊥) × (s.lock ≡ sending → ⊥) × (s.info.disposed ≡ true)
]

module _ (auto_delete : Bool) where
  step-IsOrdered :
      (e : Event) (s s' : Shared) → IsOrdered s → step auto_delete e s ≡ some s' → IsOrdered s'
  unfolding step reader_step deleter_step IsOrdered
  step-IsOrdered e s s' h made = ground (arith, h, made)

  -- Behind unsubscribe nothing is sent.
  step_sends_nothing :
      (e : Event) (s s' : Shared)
      → IsOrdered s
      → s.deleter ≡ ended
      → step auto_delete e s ≡ some s'
      → (s'.sent ≡ s.sent) × (s'.deleter ≡ ended)
  unfolding step reader_step deleter_step IsOrdered
  step_sends_nothing e s s' h over made = ground (arith, h, over, made)

  run-IsOrdered :
      (es : List Event) (s s' : Shared)
      → IsOrdered s
      → run auto_delete es s ≡ some s'
      → IsOrdered s'
  unfolding run
  run-IsOrdered [] s s' h made = ground (arith, h, made)
  run-IsOrdered (e ∷ es) s s' h made = elim (Option-cases (step auto_delete e s)) [
    | inl stuck ↦ absurd (ground (arith, made, stuck))
    | inr (t, stepped) ↦
        run-IsOrdered es t s' (step-IsOrdered e s t h stepped) (ground (arith, made, stepped))
  ]

  run_sends_nothing :
      (es : List Event) (s s' : Shared)
      → IsOrdered s
      → s.deleter ≡ ended
      → run auto_delete es s ≡ some s'
      → s'.sent ≡ s.sent
  unfolding run
  run_sends_nothing [] s s' h over made = ground (arith, made)
  run_sends_nothing (e ∷ es) s s' h over made = elim (Option-cases (step auto_delete e s)) [
    | inl stuck ↦ absurd (ground (arith, made, stuck))
    | inr (t, stepped) ↦
        let (same, still) = step_sends_nothing e s t h over stepped in
        run_sends_nothing es t s' (step-IsOrdered e s t h stepped) still
          (ground (arith, made, stepped))
        ∙ same
  ]

  -- What has been sent at the end of unsubscribe.
  abbrev pub Released : List Text → Deleter → List Packet → Type 0
  Released topics released sent =
      (earlier : List Packet) × (is_open : Bool) × (sent
        ≡ earlier ++ unsubscribe_packets is_open auto_delete topics)
  Released topics ended sent =
      (earlier : List Packet) × (is_open : Bool) × (sent
        ≡ earlier ++ unsubscribe_packets is_open auto_delete topics)
  Released topics _ sent = Unit

  -- The step that releases the record.
  releases_step :
      (is_open : Bool) (s s' : Shared)
      → step auto_delete (releases is_open) s ≡ some s'
      → (s'.deleter ≡ released)
        × (s'.info.topics ≡ s.info.topics)
        × (s'.sent ≡ s.sent ++ unsubscribe_packets is_open auto_delete s.info.topics)
  unfolding step reader_step deleter_step
  releases_step is_open s s' made = ground (arith, made)

  abbrev is_release : Event → Option Bool
  is_release (releases is_open) = some is_open
  is_release _ = none

  keeps_step :
      (e : Event) (s s' : Shared)
      → is_release e ≡ none
      → IsOrdered s
      → Released s.info.topics s.deleter s.sent
      → step auto_delete e s ≡ some s'
      → (s'.info.topics ≡ s.info.topics) × Released s.info.topics s'.deleter s'.sent
  unfolding step reader_step deleter_step IsOrdered
  keeps_step e s s' other h r made = ground (arith, other, h, r, made)

  step-Released :
      (e : Event) (s s' : Shared)
      → IsOrdered s
      → Released s.info.topics s.deleter s.sent
      → step auto_delete e s ≡ some s'
      → (s'.info.topics ≡ s.info.topics) × Released s.info.topics s'.deleter s'.sent
  step-Released e s s' h r made = elim (Option-cases (is_release e)) [
    | inl other ↦ keeps_step e s s' other h r made
    | inr (is_open, found) ↦
        let same : e ≡ releases is_open = ground (arith, found) in
        let (passed, topics, sent) = releases_step is_open s s' (ground (arith, made, same)) in
        (topics, rw passed (s.sent, is_open, sent))
  ]

  run-Released :
      (es : List Event) (s s' : Shared)
      → IsOrdered s
      → Released s.info.topics s.deleter s.sent
      → run auto_delete es s ≡ some s'
      → Released s.info.topics s'.deleter s'.sent
  unfolding run
  run-Released [] s s' h r made =
      let same : s ≡ s' = ground (arith, made) in
      subst (λ t. Released s.info.topics t.deleter t.sent) same r
  run-Released (e ∷ es) s s' h r made = elim (Option-cases (step auto_delete e s)) [
    | inl stuck ↦ absurd (ground (arith, made, stuck))
    | inr (t, stepped) ↦
        let (same, kept) = step-Released e s t h r stepped in
        subst (λ topics. Released topics s'.deleter s'.sent) same
          (run-Released es t s' (step-IsOrdered e s t h stepped)
            (subst (λ topics. Released topics t.deleter t.sent) (sym same) kept)
            (ground (arith, made, stepped)))
  ]

-- However unsubscribe and any number of goroutines of onConnected interleave over a record, once
-- unsubscribe has ended, the last that was sent for the record are unsubscribe's packets, and nothing is
-- sent for it afterwards.
pub unsubscribed_is_final :
    (auto_delete : Bool) (info : SubscriptionInfo) (packets : List Packet) (es fs : List Event)
    (s s' : Shared)
    → run auto_delete es (stored info packets) ≡ some s
    → s.deleter ≡ ended
    → run auto_delete fs s ≡ some s'
    → Released auto_delete info.topics ended s.sent × (s'.sent ≡ s.sent)
unfolding IsOrdered
unsubscribed_is_final auto_delete info packets es fs s s' made over later =
    let start : IsOrdered (stored info packets) = ground arith in
    let ordered = run-IsOrdered auto_delete es (stored info packets) s start made in
    (
      subst (λ d. Released auto_delete info.topics d s.sent) over
          (run-Released auto_delete es (stored info packets) s start tt made),
      run_sends_nothing auto_delete fs s s' ordered over later,
    )

-- The steps that end unsubscribe.
unfoldable last_steps : Deleter → List Event
last_steps uncalled = []
last_steps taken = deleter_locks ∷ disposes ∷ releases true ∷ unlocks ∷ []
last_steps locked = disposes ∷ releases true ∷ unlocks ∷ []
last_steps flagged = releases true ∷ unlocks ∷ []
last_steps released = unlocks ∷ []
last_steps ended = []

-- The steps that let a goroutine of onConnected give the lock away.
unfoldable freeing : Holder → Bool → List Event
freeing checking false = checks ∷ sends ∷ []
freeing checking true = checks ∷ []
freeing sending disposed = sends ∷ []
freeing _ disposed = []

abbrev is_ended : Deleter → Bool
is_ended ended = true
is_ended _ = false

abbrev has_ended : Option Shared → Bool
has_ended none = false
has_ended (some s) = is_ended s.deleter

last_steps_end :
    (auto_delete : Bool) (s : Shared)
    → IsOrdered s
    → s.deleter ≢ uncalled
    → has_ended (run auto_delete (freeing s.lock s.info.disposed ++ last_steps s.deleter) s) ≡ true
unfolding IsOrdered run step reader_step deleter_step freeing last_steps
last_steps_end auto_delete s ordered called = ground (arith, ordered, called)

-- From every reachable state in which unsubscribe has been called there is a course in which it ends.
pub unsubscribe_ends :
    (auto_delete : Bool) (info : SubscriptionInfo) (packets : List Packet) (es : List Event)
    (s : Shared)
    → run auto_delete es (stored info packets) ≡ some s
    → s.deleter ≢ uncalled
    → (fs : List Event) × (s' : Shared) × (run auto_delete fs s ≡ some s') × (s'.deleter ≡ ended)
unfolding IsOrdered
unsubscribe_ends auto_delete info packets es s made called =
    let start : IsOrdered (stored info packets) = ground arith in
    let ordered = run-IsOrdered auto_delete es (stored info packets) s start made in
    let fs = freeing s.lock s.info.disposed ++ last_steps s.deleter in
    let ends = last_steps_end auto_delete s ordered called in
    elim (Option-cases (run auto_delete fs s)) [
      | inl stuck ↦ absurd (ground (arith, stuck, ends))
      | inr (s', arrived) ↦ (fs, s', arrived, ground (arith, arrived, ends))
    ]
