-- ===== src/Connector/Subscriber/Interleavings.antt =====
-- What no interleaving of the message loop does.
use suite_connector.Prelude.{
  ℕ, ◌≡◌, ◌⊎◌, refl, ◌∙◌, Bool, true, false, Option, Option-cases, some, inl, inr, List, [], ◌∷◌,
  arith,
}
use suite_connector.Prelude.Text.{Text}
use suite_connector.Connector.Context.{Context, Message}
use suite_connector.Connector.Subscriber.Loop.{
  Lock, free, by_loop, entered, offering, awaiting, Stage, listening, flagged, stopped, locked,
  flagged_again, unlocked, ended, Event, close_called, context_done, arrives, looks, hands_over,
  gives_up, answered, times_out, wakes, stops, locks, flags_again, unlocks, closes, Loop, new_loop,
  look, send, handler_step, loop_step, step, run,
}

-- What the stage of the goroutine says of the flag, of the mutex and of `out`.
abbrev pub has_flagged : Stage → Bool
has_flagged listening = false
has_flagged _ = true

abbrev pub holds_lock : Stage → Bool
holds_lock locked = true
holds_lock flagged_again = true
holds_lock _ = false

abbrev pub is_over : Stage → Bool
is_over unlocked = true
is_over ended = true
is_over _ = false

abbrev pub has_ended : Stage → Bool
has_ended ended = true
has_ended _ = false

abbrev pub is_by_loop : Lock → Bool
is_by_loop by_loop = true
is_by_loop _ = false

abbrev pub is_under_way : Lock → Bool
is_under_way (offering _) = true
is_under_way (awaiting _) = true
is_under_way _ = false

pub record IsSafe (s : Loop) : Type 0 where
  pub calm : s.panicked ≡ false
  pub flag : has_flagged s.stage ≡ true → s.topic_closed ≡ true
  pub mutex : is_by_loop s.lock ≡ holds_lock s.stage
  pub over : is_over s.stage ≡ true → is_under_way s.lock ≡ false
  pub out : s.out_closed ≡ has_ended s.stage

module _ (unmarshal : ℕ → Text → Option Message) (auto_ack : Bool) (ctx : Context) where
  handler_step-IsSafe :
      (e : Event) (l : Lock) (s s' : Loop)
      → s.lock ≡ l
      → IsSafe s
      → handler_step unmarshal auto_ack ctx e l s ≡ some s'
      → IsSafe s'
  unfolding handler_step look send
  handler_step-IsSafe (arrives m) free s s' at v h = ground arith
  handler_step-IsSafe looks (entered m) s s' at v h = ground arith
  handler_step-IsSafe hands_over (offering msg) s s' at v h = ground arith
  handler_step-IsSafe gives_up (offering msg) s s' at v h = ground arith
  handler_step-IsSafe gives_up (awaiting msg) s s' at v h = ground arith
  handler_step-IsSafe answered (awaiting msg) s s' at v h = ground arith
  handler_step-IsSafe times_out (awaiting msg) s s' at v h = ground arith
  handler_step-IsSafe e l s s' at v h = absurd (ground (arith, h))

  loop_step-IsSafe :
      (e : Event) (g : Stage) (s s' : Loop)
      → s.stage ≡ g
      → IsSafe s
      → loop_step unmarshal auto_ack ctx e g s ≡ some s'
      → IsSafe s'
  unfolding loop_step
  loop_step-IsSafe wakes listening s s' at v h = ground arith
  loop_step-IsSafe stops flagged s s' at v h = ground arith
  loop_step-IsSafe locks stopped s s' at v h = ground arith
  loop_step-IsSafe flags_again locked s s' at v h = ground arith
  loop_step-IsSafe unlocks flagged_again s s' at v h = ground arith
  loop_step-IsSafe closes unlocked s s' at v h = ground arith
  loop_step-IsSafe e g s s' at v h = absurd (ground (arith, h))

  step-IsSafe :
      (e : Event) (s s' : Loop) → IsSafe s → step unmarshal auto_ack ctx e s ≡ some s' → IsSafe s'
  unfolding step
  step-IsSafe close_called s s' v h = ground arith
  step-IsSafe context_done s s' v h = ground arith
  step-IsSafe (arrives m) s s' v h = handler_step-IsSafe (arrives m) s.lock s s' refl v h
  step-IsSafe looks s s' v h = handler_step-IsSafe looks s.lock s s' refl v h
  step-IsSafe hands_over s s' v h = handler_step-IsSafe hands_over s.lock s s' refl v h
  step-IsSafe gives_up s s' v h = handler_step-IsSafe gives_up s.lock s s' refl v h
  step-IsSafe answered s s' v h = handler_step-IsSafe answered s.lock s s' refl v h
  step-IsSafe times_out s s' v h = handler_step-IsSafe times_out s.lock s s' refl v h
  step-IsSafe e s s' v h = loop_step-IsSafe e s.stage s s' refl v h

  pub run-IsSafe :
      (es : List Event) (s s' : Loop)
      → IsSafe s
      → run unmarshal auto_ack ctx es s ≡ some s'
      → IsSafe s'
  unfolding run
  run-IsSafe [] s s' v h = ground (arith, h)
  run-IsSafe (e ∷ es) s s' v h = elim (Option-cases (step unmarshal auto_ack ctx e s)) [
    | inl stuck ↦ absurd (ground (arith, h, stuck))
    | inr (t, moved) ↦ run-IsSafe es t s' (step-IsSafe e s t v moved) (ground (arith, h, moved))
  ]

  pub new_loop-IsSafe : IsSafe new_loop
  new_loop-IsSafe = ground arith

  -- In no interleaving of a new message loop does a call of handler send on the closed channel, or the
  -- goroutine close the channel twice; it is closed exactly when the goroutine has ended, and the flag
  -- is set by then.
  pub message_loop_safe :
      (es : List Event) (s : Loop)
      → run unmarshal auto_ack ctx es new_loop ≡ some s
      → (s.panicked ≡ false)
        × (s.out_closed ≡ has_ended s.stage)
        × ((s.out_closed ≡ false) ⊎ (s.topic_closed ≡ true))
  message_loop_safe es s h =
      let v = run-IsSafe es new_loop s new_loop-IsSafe h in
      (v.calm, v.out, ground (arith, v.out, v.flag))

  -- Once `out` is closed no message is delivered.
  frozen_step :
      (e : Event) (s s' : Loop)
      → IsSafe s
      → s.out_closed ≡ true
      → step unmarshal auto_ack ctx e s ≡ some s'
      → (s'.delivered ≡ s.delivered) × (s'.out_closed ≡ true)
  unfolding step handler_step loop_step look send
  frozen_step close_called s s' v o h = ground arith
  frozen_step context_done s s' v o h = ground arith
  frozen_step (arrives m) s s' v o h = ground arith
  frozen_step looks s s' v o h = ground arith
  frozen_step hands_over s s' v o h = ground arith
  frozen_step gives_up s s' v o h = ground arith
  frozen_step answered s s' v o h = ground arith
  frozen_step times_out s s' v o h = ground arith
  frozen_step wakes s s' v o h = ground arith
  frozen_step stops s s' v o h = ground arith
  frozen_step locks s s' v o h = ground arith
  frozen_step flags_again s s' v o h = ground arith
  frozen_step unlocks s s' v o h = ground arith
  frozen_step closes s s' v o h = ground arith

  frozen_run :
      (es : List Event) (s s' : Loop)
      → IsSafe s
      → s.out_closed ≡ true
      → run unmarshal auto_ack ctx es s ≡ some s'
      → s'.delivered ≡ s.delivered
  unfolding run
  frozen_run [] s s' v o h = ground (arith, h)
  frozen_run (e ∷ es) s s' v o h = elim (Option-cases (step unmarshal auto_ack ctx e s)) [
    | inl stuck ↦ absurd (ground (arith, h, stuck))
    | inr (t, moved) ↦
        let (same, still) = frozen_step e s t v o moved in
        frozen_run es t s' (step-IsSafe e s t v moved) still (ground (arith, h, moved)) ∙ same
  ]

  -- Once the channel of a new message loop is closed, no interleaving delivers another message.
  pub closed_loop_delivers_nothing :
      (es fs : List Event) (s s' : Loop)
      → run unmarshal auto_ack ctx es new_loop ≡ some s
      → s.out_closed ≡ true
      → run unmarshal auto_ack ctx fs s ≡ some s'
      → s'.delivered ≡ s.delivered
  closed_loop_delivers_nothing es fs s s' h o more =
      frozen_run fs s s' (run-IsSafe es new_loop s new_loop-IsSafe h) o more
