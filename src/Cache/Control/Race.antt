-- ===== src/Cache/Control/Race.antt =====
-- Which interleavings of the cache's operations panic.
use suite_connector.Prelude.{
  ℕ, ◌+◌, ◌-◌, ◌≡◌, ◌⊎◌, ◌||◌, subst, refl, Bool, true, false, Bool-cases, inl, inr, Option-cases,
  none, some, List, [], ◌∷◌, arith,
}
use suite_connector.Prelude.Int.{ℤ, pos, ltb_ℤ}
use suite_connector.Prelude.Text.{Text}
use suite_connector.Prelude.Dict.{lookup}
use suite_connector.Prelude.Outcome.{ok, panic}
use suite_connector.Cache.Queue.{Element}
use suite_connector.Cache.Table.{Cache, new_ttl_cache, put, remove, close}
use suite_connector.Cache.Table.Valid.{IsValid}
use suite_connector.Cache.Table.Refines.{put_refines, remove_refines}
use suite_connector.Cache.Table.Cleaning.{clear_expired_spares}
use suite_connector.Cache.Control.{
  by_operation, by_late_signal, Event, puts, removes, closes, signals, shuts, receives, clears,
  Control, new_control, one_if, changed, cleared, signal, shut, step, run,
}

module _ {V : Type 0} where
  -- A call of Put with a negative time to live.
  abbrev pub is_negative : Event V → Bool
  is_negative (puts now key value ttl) = ltb_ℤ ttl (pos 0)
  is_negative _ = false

  -- There is one among the events, or there was one before.
  abbrev pub has_negative : Bool → List (Event V) → Bool
  has_negative before [] = before
  has_negative before (e ∷ es) = has_negative (before || is_negative e) es

  -- The channel is closed, or about to be closed by one call, exactly if the cache is closed; a late
  -- signal panics, and a Put with a negative time to live, and nothing else.
  pub record IsGuarded (negative : Bool) (s : Control V) : Type 0 where
    pub valid : IsValid s.cache
    pub once : s.closing + one_if s.channel_closed ≡ one_if s.cache.closed
    pub calm :
        ((s.panicked ≡ none) × (negative ≡ false))
        ⊎ (s.panicked ≡ some by_late_signal)
        ⊎ ((s.panicked ≡ some by_operation) × (negative ≡ true))

  pub put_closed :
      (now : ℕ) (key : Text) (value : V) (ttl : ℤ) (c : Cache V)
      → ltb_ℤ ttl (pos 0) ≡ false
      → c.closed ≡ true
      → put now key value ttl c ≡ ok (c, false)
  unfolding put
  put_closed now key value ttl c nonneg shut_down = ground arith

  put_negative :
      (now : ℕ) (key : Text) (value : V) (ttl : ℤ) (c : Cache V)
      → ltb_ℤ ttl (pos 0) ≡ true
      → put now key value ttl c ≡ panic
  unfolding put
  put_negative now key value ttl c negative = rw (put, negative) refl

  pub remove_closed : (key : Text) (c : Cache V) → c.closed ≡ true → remove key c ≡ ok (c, false)
  unfolding remove
  remove_closed key c shut_down = ground arith

  -- Put, with no negative time to live, and Remove end well on every valid cache.
  put_ends :
      (now : ℕ) (key : Text) (value : V) (ttl : ℤ) (c : Cache V)
      → ltb_ℤ ttl (pos 0) ≡ false
      → IsValid c
      → (c' : Cache V) × (fires : Bool) × (put now key value ttl c ≡ ok (c', fires))
        × IsValid c'
        × (c'.closed ≡ c.closed)
  put_ends now key value ttl c nonneg v = elim (Bool-cases c.closed) [
    | inl shut_down ↦ (c, false, put_closed now key value ttl c nonneg shut_down, v, refl)
    | inr is_open ↦
        let (c', done, h) = put_refines now key value ttl c v is_open (ground (arith, nonneg)) in
        (c', true, done, h.valid, h.as_open)
  ]

  remove_ends :
      (key : Text) (c : Cache V)
      → IsValid c
      → (c' : Cache V) × (fires : Bool) × (remove key c ≡ ok (c', fires))
        × IsValid c'
        × (c'.closed ≡ c.closed)
  remove_ends key c v = elim (Bool-cases c.closed) [
    | inl shut_down ↦ (c, false, remove_closed key c shut_down, v, refl)
    | inr is_open ↦
        let (c', done, h) = remove_refines key c v is_open in (c', _, done, h.valid, h.as_open)
  ]

  closed-IsValid : (c : Cache V) → IsValid c → IsValid (close c).0
  unfolding close
  closed-IsValid c v = record { map = v.map; linked = v.linked; heap = v.heap; used = v.used }

  changed-IsGuarded :
      (b : Bool) (s : Control V) (c : Cache V) (fires : Bool)
      → IsValid c
      → c.closed ≡ s.cache.closed
      → IsGuarded b s
      → IsGuarded b (changed (ok (c, fires)) s)
  unfolding changed
  changed-IsGuarded b s c fires v same g = record {
    valid = v;
    once = ground (arith, g.once, same);
    calm = g.calm;
  }

  cleared-IsGuarded :
      (b : Bool) (s : Control V) (c : Cache V)
      → IsValid c
      → c.closed ≡ s.cache.closed
      → IsGuarded b s
      → IsGuarded b (record s { cache = c })
  cleared-IsGuarded b s c v same g = record {
    valid = v;
    once = ground (arith, g.once, same);
    calm = g.calm;
  }

  panicked-IsGuarded :
      (b : Bool) (s : Control V)
      → IsGuarded b s
      → IsGuarded true (record s { panicked = some by_operation })
  panicked-IsGuarded b s g = record {
    valid = g.valid;
    once = g.once;
    calm = inr (inr (refl, refl));
  }

  put-IsGuarded :
      (now : ℕ) (key : Text) (value : V) (ttl : ℤ) (b : Bool) (s s' : Control V)
      → IsGuarded b s
      → step (puts now key value ttl) s ≡ some s'
      → IsGuarded (b || ltb_ℤ ttl (pos 0)) s'
  unfolding step changed
  put-IsGuarded now key value ttl b s s' g h = elim (Bool-cases (ltb_ℤ ttl (pos 0))) [
    | inl negative ↦
        let this : record s { panicked = some by_operation } ≡ s' =
          ground (arith, h, put_negative now key value ttl s.cache negative) in
        let same : true ≡ (b || ltb_ℤ ttl (pos 0)) = ground (arith, negative) in
        subst (λ x. IsGuarded x s') same (subst (IsGuarded true) this (panicked-IsGuarded b s g))
    | inr nonneg ↦
        let (c, fires, done, v, closed) = put_ends now key value ttl s.cache nonneg g.valid in
        let this : changed (ok (c, fires)) s ≡ s' = ground (arith, h, done) in
        let same : b ≡ (b || ltb_ℤ ttl (pos 0)) = ground (arith, nonneg) in
        subst (λ x. IsGuarded x s') same
          (subst (IsGuarded b) this (changed-IsGuarded b s c fires v closed g))
  ]

  -- A step that is no Put.
  other-IsGuarded :
      (e : Event V) (b : Bool) (s s' : Control V)
      → is_negative e ≡ false
      → IsGuarded b s
      → step e s ≡ some s'
      → IsGuarded b s'
  unfolding step changed cleared signal shut close
  other-IsGuarded (puts now key value ttl) b s s' n g h =
      let same : (b || ltb_ℤ ttl (pos 0)) ≡ b = ground (arith, n) in
      subst (λ x. IsGuarded x s') same (put-IsGuarded now key value ttl b s s' g h)
  other-IsGuarded (removes key) b s s' n g h =
      let (c, fires, done, v, same) = remove_ends key s.cache g.valid in
      let this : changed (ok (c, fires)) s ≡ s' = ground (arith, h, done) in
      rw this at (changed-IsGuarded b s c fires v same g)
  other-IsGuarded closes b s s' n g h = ground (arith, h)
  other-IsGuarded signals b s s' n g h = ground (arith, h)
  other-IsGuarded shuts b s s' n g h = ground (arith, h)
  other-IsGuarded receives b s s' n g h = ground (arith, h)
  other-IsGuarded (clears now) b s s' n g h =
      let (c, done, after) = clear_expired_spares now s.cache g.valid in
      let this : record s { cache = c } ≡ s' = ground (arith, h, done) in
      rw this at (cleared-IsGuarded b s c after.valid after.as_open g)

  kept : (b : Bool) (s : Control V) → IsGuarded b s → IsGuarded (b || false) s
  kept true s g = g
  kept false s g = g

  pub step-IsGuarded :
      (e : Event V) (b : Bool) (s s' : Control V)
      → IsGuarded b s
      → step e s ≡ some s'
      → IsGuarded (b || is_negative e) s'
  step-IsGuarded (puts now key value ttl) b s s' g h = put-IsGuarded now key value ttl b s s' g h
  step-IsGuarded (removes key) b s s' g h =
      kept b s' (other-IsGuarded (removes key) b s s' refl g h)
  step-IsGuarded closes b s s' g h = kept b s' (other-IsGuarded closes b s s' refl g h)
  step-IsGuarded signals b s s' g h = kept b s' (other-IsGuarded signals b s s' refl g h)
  step-IsGuarded shuts b s s' g h = kept b s' (other-IsGuarded shuts b s s' refl g h)
  step-IsGuarded receives b s s' g h = kept b s' (other-IsGuarded receives b s s' refl g h)
  step-IsGuarded (clears now) b s s' g h = kept b s' (other-IsGuarded (clears now) b s s' refl g h)

  run-IsGuarded :
      (es : List (Event V)) (b : Bool) (s s' : Control V)
      → IsGuarded b s
      → run es s ≡ some s'
      → IsGuarded (has_negative b es) s'
  unfolding run
  run-IsGuarded [] b s s' g h = let same : s ≡ s' = ground (arith, h) in rw same at g
  run-IsGuarded (e ∷ es) b s s' g h = elim (Option-cases (step e s)) [
    | inl stuck ↦ absurd (ground (arith, h, stuck))
    | inr (t, moved) ↦
        run-IsGuarded es (b || is_negative e) t s' (step-IsGuarded e b s t g moved)
          (ground (arith, h, moved))
  ]

  first-IsGuarded : (cell : ℕ → Element V) → IsGuarded false (new_control cell)
  unfolding new_control new_ttl_cache lookup
  first-IsGuarded cell = record {
    valid = record {
      map = tt;
      linked = record {
        indexed = λ i h. absurd (omega arith);
        listed = λ i h. absurd (omega arith);
        queued = λ k a e. absurd (ground (arith, e));
      };
      heap = λ c p h. absurd (omega arith);
      used = λ k a e. absurd (ground (arith, e));
    };
    once = refl;
    calm = inl (refl, refl);
  }

  -- In each interleaving of the operations of a new cache the cache stays valid, and the channel is
  -- closed at most once, by a call of Close, and only if the cache is closed. What can panic is a signal
  -- of a change, and a Put with a negative time to live: a run with such a Put panics, and in one
  -- without it no operation panics.
  pub control-IsGuarded :
      (cell : ℕ → Element V) (es : List (Event V)) (s : Control V)
      → run es (new_control cell) ≡ some s
      → IsGuarded (has_negative false es) s
  control-IsGuarded cell es s h =
      run-IsGuarded es false (new_control cell) s (first-IsGuarded cell) h

  -- A change of an open cache that Close overtakes before it is signalled ends in a panic, whatever
  -- has come before.
  pub overtaken_change_panics :
      (cell : ℕ → Element V) (es : List (Event V)) (s : Control V) (now : ℕ) (key : Text)
      (value : V) (ttl : ℕ)
      → run es (new_control cell) ≡ some s
      → s.cache.closed ≡ false
      → (s' : Control V) × (run (puts now key value (pos ttl) ∷ closes ∷ shuts ∷ signals ∷ []) s
          ≡ some s')
        × (s'.panicked ≡ some by_late_signal)
  unfolding run step changed shut signal close
  overtaken_change_panics cell es s now key value ttl h is_open =
      let g = control-IsGuarded cell es s h in
      let (c, done, held) =
        put_refines now key value (pos ttl) s.cache g.valid is_open (ground arith) in
      (
        record s {
          cache = (close c).0;
          pending = s.pending + 1 - 1;
          closing = s.closing + 1 - 1;
          channel_closed = true;
          panicked = some by_late_signal;
        },
        ground (arith, done, held.as_open, is_open, g.once),
        refl,
      )
