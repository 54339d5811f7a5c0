-- ===== src/Cache/Control/Quiet.antt =====
-- What follows when nothing is left to signal.
use suite_connector.Prelude.{
  ℕ, ◌+◌, ◌≡◌, refl, true, false, inl, inr, Option-cases, none, some, List, [], ◌∷◌, ◌||◌, All,
  Bool, false, arith,
}
use suite_connector.Cache.Queue.{Element}
use suite_connector.Cache.Table.{close}
use suite_connector.Cache.Table.Cleaning.{clear_expired_spares}
use suite_connector.Cache.Control.{
  Event, puts, removes, closes, signals, shuts, receives, clears, Control, new_control, one_if,
  changed, cleared, signal, shut, step, run,
}
use suite_connector.Cache.Control.Race.{
  is_negative, has_negative, IsGuarded, put_closed, remove_closed, step-IsGuarded,
  control-IsGuarded,
}

module _ {V : Type 0} where
  -- Nothing is left to signal on a closed cache.
  abbrev pub IsQuiet : Control V → Type 0
  IsQuiet s = (s.cache.closed ≡ true) × (s.pending ≡ 0) × (s.panicked ≡ none)

  -- Not a call of Put with a negative time to live.
  abbrev pub IsNonneg : Event V → Type 0
  IsNonneg e = is_negative e ≡ false

  step-IsQuiet :
      (e : Event V) (b : Bool) (s s' : Control V)
      → is_negative e ≡ false
      → IsGuarded b s
      → IsQuiet s
      → step e s ≡ some s'
      → IsQuiet s'
  unfolding step changed cleared signal shut close
  step-IsQuiet (puts now key value ttl) b s s' n g q h =
      ground (arith, h, put_closed now key value ttl s.cache n q.0)
  step-IsQuiet (removes key) b s s' n g q h = ground (arith, h, remove_closed key s.cache q.0)
  step-IsQuiet closes b s s' n g q h = ground (arith, h)
  step-IsQuiet signals b s s' n g q h = ground (arith, h)
  step-IsQuiet shuts b s s' n g q h = ground (arith, h, g.once)
  step-IsQuiet receives b s s' n g q h = ground (arith, h)
  step-IsQuiet (clears now) b s s' n g q h =
      let (c, done, after) = clear_expired_spares now s.cache g.valid in
      ground (arith, h, done, after.as_open)

  run-IsQuiet :
      (es : List (Event V)) (b : Bool) (s s' : Control V)
      → All IsNonneg es
      → IsGuarded b s
      → IsQuiet s
      → run es s ≡ some s'
      → IsQuiet s'
  unfolding run
  run-IsQuiet [] b s s' n g q h = let same : s ≡ s' = ground (arith, h) in rw same at q
  run-IsQuiet (e ∷ es) b s s' n g q h = elim (Option-cases (step e s)) [
    | inl stuck ↦ absurd (ground (arith, h, stuck))
    | inr (t, moved) ↦
        run-IsQuiet es (b || is_negative e) t s' n.1 (step-IsGuarded e b s t g moved)
          (step-IsQuiet e b s t n.0 g q moved) (ground (arith, h, moved))
  ]

  -- If nothing has panicked and no change is still to be signalled when Close closes the cache, nothing
  -- panics afterwards but a Put with a negative time to live.
  pub quiet_close_safe :
      (cell : ℕ → Element V) (es fs : List (Event V)) (s s' : Control V)
      → run es (new_control cell) ≡ some s
      → s.cache.closed ≡ false
      → s.pending ≡ 0
      → s.panicked ≡ none
      → All IsNonneg fs
      → run (closes ∷ fs) s ≡ some s'
      → s'.panicked ≡ none
  unfolding run step close
  quiet_close_safe cell es fs s s' h is_open none_pending calm nonneg later =
      let g = control-IsGuarded cell es s h in
      let t = record s {
        cache = (close s.cache).0;
        closing = s.closing + one_if (close s.cache).1;
      } in
      let quiet : IsQuiet t = (refl, none_pending, calm) in
      (run-IsQuiet fs (has_negative false es || false) t s' nonneg
        (step-IsGuarded closes (has_negative false es) s t g refl) quiet later).2
