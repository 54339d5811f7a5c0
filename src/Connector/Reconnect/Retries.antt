-- ===== src/Connector/Reconnect/Retries.antt =====
-- Refused credentials are counted: the listeners hear of each, and the configured number of them ends
-- the loop. An attempt comes after a sleep.
use suite_connector.Prelude.{
  ℕ, zero, suc, ◌+◌, ◌-◌, ◌*◌, ◌≤◌, ◌<◌, ◌≡◌, ◌≢◌, ◌⊎◌, refl, Bool, true, Option-cases, inl, inr,
  none, some, List, [], ◌∷◌, arith, length, ◌==◌, if◌then◌else◌, All,
}
use Prim.Native.Nat.{max}
use suite_connector.Connector.Reconnect.{
  ConnectError, is_auth_error, Round, retries_exhausted, Trace, external_retry_sleep, spin_count,
  spin, next_auth, reconnect_round, external_reconnect,
}

-- The sleeps before an attempt take no longer than the back-off, rounded up to one sleep.
pub spin_count_bounds :
    (interval : ℕ)
    → (0 < spin_count interval)
      × (spin_count interval * external_retry_sleep ≤ max interval external_retry_sleep)
unfolding spin_count
spin_count_bounds interval = ground arith

spin_slept : (n i : ℕ) (running_after : ℕ → Bool) → 0 < n → 0 < (spin n i running_after).0
unfolding spin
spin_slept zero i running_after h = absurd (omega arith)
spin_slept (suc n) i running_after h = ground arith

-- What holds of every run with `auth` refusals before it: no more errors are told than are left, and
-- the loop ends for them exactly if as many are told.
pub record Counted (left : ℕ) (t : Trace) : Type 0 where
  pub bounded : length t.fired ≤ left
  pub exhausted :
      ((t.ending ≡ retries_exhausted) × (length t.fired ≡ left))
      ⊎ ((t.ending ≢ retries_exhausted) × (length t.fired < left))
  pub slept : t.attempts ≤ t.sleeps

reconnect_round-Counted :
    (retries auth : ℕ) (r : Round) (rest : Trace)
    → auth < retries
    → (next_auth auth r < retries → Counted (retries - next_auth auth r) rest)
    → Counted (retries - auth) (reconnect_round retries auth r rest)
unfolding reconnect_round next_auth
reconnect_round-Counted retries auth r rest h k = elim (Option-cases r.next_backoff) [
  | inl none_left ↦ rw (none_left, reconnect_round) (ground arith)
  | inr (interval, e) ↦ elim (Option-cases r.failure) [
    | inl made ↦
        rw (e, reconnect_round, made)
          (ground (
            arith,
            spin_slept (spin_count interval) 0 r.running_after (spin_count_bounds interval).0,
          ))
    | inr (x, f) ↦
        rw (e, reconnect_round, f)
          (ground (
            arith,
            f,
            k,
            spin_slept (spin_count interval) 0 r.running_after (spin_count_bounds interval).0,
          ))
  ]
]

-- From a count of refused credentials below the configured one, the listeners are told of no more
-- refusals than are left; of exactly as many if the loop ends for them, and of fewer if not; and no
-- attempt is made without a sleep.
pub external_reconnect_counts :
    (retries auth : ℕ) (rs : List Round)
    → auth < retries
    → Counted (retries - auth) (external_reconnect retries auth rs)
unfolding external_reconnect
external_reconnect_counts retries auth [] h = ground arith
external_reconnect_counts retries auth (r ∷ rs) h =
    reconnect_round-Counted retries auth r (external_reconnect retries (next_auth auth r) rs) h
      (λ below. external_reconnect_counts retries (next_auth auth r) rs below)

-- A round in which the credentials are refused: the connection runs, and the back-off goes on.
abbrev pub IsRefused : Round → Type 0
IsRefused r =
    (r.running ≡ true)
    × (r.next_backoff ≢ none)
    × ((i : ℕ) → r.running_after i ≡ true)
    × ((e : ConnectError) × (r.failure ≡ some e) × (is_auth_error e ≡ true))

spin_running :
    (n i : ℕ) (running_after : ℕ → Bool)
    → ((j : ℕ) → running_after j ≡ true)
    → (spin n i running_after).1 ≡ true
unfolding spin
spin_running zero i running_after h = refl
spin_running (suc n) i running_after h = ground (arith, h i, spin_running n (i + 1) running_after h)

refused_round :
    (retries auth : ℕ) (r : Round) (rest : Trace)
    → IsRefused r
    → (next_auth auth r ≡ auth + 1)
      × ((reconnect_round retries auth r rest).ending
          ≡ (if auth + 1 == retries then retries_exhausted else rest.ending))
unfolding reconnect_round next_auth
refused_round retries auth r rest (run, back, runs, (e, failed, refused)) =
    elim (Option-cases r.next_backoff) [
      | inl none_left ↦ absurd (back none_left)
      | inr (interval, b) ↦ (
        rw (failed, refused),
        rw (b, reconnect_round, failed)
            (ground
              (arith, run, refused, spin_running (spin_count interval) 0 r.running_after runs)),
      )
    ]

-- If the credentials are refused in every round, and there are at least as many rounds as refusals
-- are left, the loop ends for them.
pub external_reconnect_gives_up :
    (retries auth : ℕ) (rs : List Round)
    → auth < retries
    → retries ≤ auth + length rs
    → All IsRefused rs
    → (external_reconnect retries auth rs).ending ≡ retries_exhausted
unfolding external_reconnect
external_reconnect_gives_up retries auth [] h enough a = absurd (omega arith)
external_reconnect_gives_up retries auth (r ∷ rs) h enough a =
    let (next, ending) =
      refused_round retries auth r (external_reconnect retries (next_auth auth r) rs) a.0 in
    rw (ending, next)
      (ground
        (arith, λ (p : auth + 1 < retries). external_reconnect_gives_up retries (auth + 1) rs p))
