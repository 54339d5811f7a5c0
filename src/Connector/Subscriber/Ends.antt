-- ===== src/Connector/Subscriber/Ends.antt =====
-- How an interleaving of the message loop goes on to its end.
use suite_connector.Prelude.{
  ℕ, ◌≡◌, ◌⊎◌, refl, ◌∙◌, Bool, true, ◌||◌, Option, Option-cases, some, inl, inr, List, [], ◌∷◌,
  ◌++◌, Bool-cases, All, false, arith,
}
use suite_connector.Prelude.Text.{Text}
use suite_connector.Connector.Context.{Context, Message}
use suite_connector.Connector.Subscriber.Loop.{
  Lock, free, by_loop, entered, offering, awaiting, Stage, listening, flagged, stopped, locked,
  flagged_again, unlocked, ended, Event, looks, gives_up, wakes, stops, locks, flags_again, unlocks,
  closes, Loop, new_loop, look, handler_step, loop_step, step, run,
}
use suite_connector.Connector.Subscriber.Interleavings.{
  is_by_loop, IsSafe, run-IsSafe, new_loop-IsSafe,
}

-- A step of handler or of the goroutine in which the router, the time-out and the outside, which calls
-- handler and closes the subscriber, have no part.
abbrev pub is_own : Event → Bool
is_own looks = true
is_own gives_up = true
is_own wakes = true
is_own stops = true
is_own locks = true
is_own flags_again = true
is_own unlocks = true
is_own closes = true
is_own _ = false

abbrev pub IsOwn : Event → Type 0
IsOwn e = is_own e ≡ true

All-append : (es fs : List Event) → All IsOwn es → All IsOwn fs → All IsOwn (es ++ fs)
All-append [] fs h k = k
All-append (e ∷ es) fs h k = (h.0, All-append es fs h.1 k)

module _ (unmarshal : ℕ → Text → Option Message) (auto_ack : Bool) (ctx : Context) where
  -- What the goroutine has left to do.
  rest_of : Stage → List Event
  rest_of listening = wakes ∷ stops ∷ locks ∷ flags_again ∷ unlocks ∷ closes ∷ []
  rest_of flagged = stops ∷ locks ∷ flags_again ∷ unlocks ∷ closes ∷ []
  rest_of stopped = locks ∷ flags_again ∷ unlocks ∷ closes ∷ []
  rest_of locked = flags_again ∷ unlocks ∷ closes ∷ []
  rest_of flagged_again = unlocks ∷ closes ∷ []
  rest_of unlocked = closes ∷ []
  rest_of ended = []

  abbrev finished : Loop → Loop
  finished s = record s {
    topic_closed = true;
    lock = free;
    out_closed = true;
    panicked = s.panicked || s.out_closed;
    stage = ended;
  }

  rest_of-IsOwn : (g : Stage) → All IsOwn (rest_of g)
  unfolding rest_of
  rest_of-IsOwn g = ground arith

  stage_ends :
      (g : Stage) (s : Loop)
      → s.stage ≡ g
      → s.closing ≡ true
      → IsSafe s
      → is_by_loop s.lock ≡ true ⊎ s.lock ≡ free
      → (s' : Loop) × (run unmarshal auto_ack ctx (rest_of g) s ≡ some s')
        × (s'.stage ≡ ended)
        × (s'.lock ≡ free)
  unfolding run step loop_step rest_of
  stage_ends ended s at c v l = (s, refl, at, ground (arith, at, l, v.mutex))
  stage_ends unlocked s at c v l = (
    record s { out_closed = true; panicked = s.panicked || s.out_closed; stage = ended },
    rw at refl,
    refl,
    ground (arith, at, l, v.mutex),
  )
  stage_ends flagged_again s at c v l = (
    record s {
      lock = free;
      out_closed = true;
      panicked = s.panicked || s.out_closed;
      stage = ended;
    },
    rw at refl,
    refl,
    refl,
  )
  stage_ends locked s at c v l = (finished s, rw at refl, refl, refl)
  stage_ends stopped s at c v l = (finished s, ground (arith, at, l, v.mutex), refl, refl)
  stage_ends flagged s at c v l = (finished s, ground (arith, at, l, v.mutex), refl, refl)
  stage_ends listening s at c v l = (finished s, ground (arith, at, l, v.mutex, c), refl, refl)

  run-append :
      (es fs : List Event) (s t : Loop)
      → run unmarshal auto_ack ctx es s ≡ some t
      → run unmarshal auto_ack ctx (es ++ fs) s ≡ run unmarshal auto_ack ctx fs t
  unfolding run
  run-append [] fs s t h = ground (arith, h)
  run-append (e ∷ es) fs s t h = elim (Option-cases (step unmarshal auto_ack ctx e s)) [
    | inl stuck ↦ absurd (ground (arith, h, stuck))
    | inr (u, moved) ↦ rw (run, moved) (run-append es fs u t (ground (arith, h, moved)))
  ]

  -- No handler holds the mutex.
  abbrev IsReleased : Loop → Type 0
  IsReleased s = (s.closing ≡ true) × (is_by_loop s.lock ≡ true ⊎ s.lock ≡ free)

  abbrev CanRelease : Loop → Type 0
  CanRelease s =
      (es : List Event) × (t : Loop) × (run unmarshal auto_ack ctx es s ≡ some t)
      × IsReleased t
      × All IsOwn es

  release : (l : Lock) (s : Loop) → s.lock ≡ l → s.closing ≡ true → CanRelease s
  unfolding run step handler_step look
  release free s at c = ([], s, refl, (c, inr at), tt)
  release by_loop s at c = ([], s, refl, (c, inl (ground (arith, at))), tt)
  release (offering msg) s at c =
      (gives_up ∷ [], record s { lock = free }, ground (arith, at, c), (c, inr refl), (refl, tt))
  release (awaiting msg) s at c =
      (gives_up ∷ [], record s { lock = free }, ground (arith, at, c), (c, inr refl), (refl, tt))
  release (entered m) s at c = elim (Bool-cases s.topic_closed) [
    | inl shut ↦ (
      looks ∷ [],
      record s { lock = free },
      ground (arith, at, c, shut),
      (c, inr refl),
      (refl, tt),
    )
    | inr going ↦ elim (Option-cases (unmarshal m.message_id m.payload)) [
      | inl unread ↦ (
        looks ∷ [],
        record s { lock = free },
        ground (arith, at, c, going, unread),
        (c, inr refl),
        (refl, tt),
      )
      | inr (msg, read) ↦ (
        looks ∷ gives_up ∷ [],
        record s { lock = free },
        ground (arith, at, c, going, read),
        (c, inr refl),
        (refl, (refl, tt)),
      )
    ]
  ]

  -- From wherever the interleavings of a new message loop have led, once the subscriber is closing its
  -- call of handler and its goroutine can go on to the end by steps of their own: the router need not
  -- take or answer a message, no time-out need run out, and nothing more need happen outside. At the
  -- end the mutex is free and the channel is closed.
  pub closing_loop_ends :
      (es : List Event) (s : Loop)
      → run unmarshal auto_ack ctx es new_loop ≡ some s
      → s.closing ≡ true
      → (fs : List Event) × (s' : Loop) × (run unmarshal auto_ack ctx fs s ≡ some s')
        × All IsOwn fs
        × (s'.stage ≡ ended)
        × (s'.lock ≡ free)
        × (s'.out_closed ≡ true)
  closing_loop_ends es s h c =
      let v =
        run-IsSafe unmarshal auto_ack ctx es new_loop s (new_loop-IsSafe unmarshal auto_ack ctx)
          h in
      let (fs, t, released, (closing, holder), own) = release s.lock s refl c in
      let w = run-IsSafe unmarshal auto_ack ctx fs s t v released in
      let (s', ran, over, freed) = stage_ends t.stage t refl closing w holder in
      let all = run-append fs (rest_of t.stage) s t released ∙ ran in
      let last = run-IsSafe unmarshal auto_ack ctx (fs ++ rest_of t.stage) s s' v all in
      (
        fs ++ rest_of t.stage,
        s',
        all,
        All-append fs (rest_of t.stage) own (rest_of-IsOwn t.stage),
        over,
        freed,
        ground (arith, last.out, over),
      )
