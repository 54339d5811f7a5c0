-- ===== src/Config/HonoConnect/Ends.antt =====
-- How HonoConnect ends, and what it reports on the way.
use suite_connector.Prelude.{
  ℕ, ◌+◌, ◌≡◌, ◌≢◌, ◌⊎◌, refl, sym, ap, ◌∙◌, Bool, true, false, if◌then◌else◌, ◌++◌, Option-cases,
  inl, inr, none, List, [], ◌∷◌, arith, length, All,
}
use suite_connector.Connector.Reconnect.{ConnectError, is_auth_error}
use suite_connector.Routing.Status.{status_cause}
use suite_connector.Config.HonoConnect.{
  Answer, signal, made, failed, HonoRound, pending, gave_up, HonoTrace, next_auth, hono_round,
  hono_connect,
}

-- An answer that is a refusal of the credentials, and how many there are.
abbrev pub is_refusal : Answer → Bool
is_refusal (failed e) = is_auth_error e
is_refusal signal = false
is_refusal made = false

abbrev pub refusals : List HonoRound → ℕ
refusals [] = 0
refusals (r ∷ rs) = if is_refusal r.answer then 1 + refusals rs else refusals rs

-- The error is no refusal, or as many rounds as are configured were refused.
abbrev pub EndsFor : ConnectError → ℕ → ℕ → List HonoRound → Type 0
EndsFor e retries auth rs = (is_auth_error e ≡ false) ⊎ (auth + refusals rs ≡ retries)

-- The rounds up to the one whose error ends the loop.
abbrev pub GivesUpAfter : ConnectError → ℕ → ℕ → List HonoRound → Type 0
GivesUpAfter e retries auth rs =
    (seen later : List HonoRound) × (r : HonoRound) × (rs ≡ seen ++ r ∷ later)
    × (r.answer ≡ failed e)
    × EndsFor e retries auth (seen ++ r ∷ [])

gives_up_round :
    (retries auth : ℕ) (r : HonoRound) (a : Answer) (rest : HonoTrace) (e : ConnectError)
    → (hono_round retries auth r a rest).ending ≡ gave_up e
    → ((a ≡ failed e)
        × ((status_cause e).1 ≡ false)
        × ((is_auth_error e ≡ false) ⊎ (auth + 1 ≡ retries)))
      ⊎ (rest.ending ≡ gave_up e)
unfolding hono_round
gives_up_round retries auth r signal rest e h = cc
gives_up_round retries auth r made rest e h = cc
gives_up_round retries auth r (failed x) rest e h = ground arith

refusals-next_auth :
    (auth : ℕ) (r : HonoRound) (rs : List HonoRound)
    → next_auth auth r.answer + refusals rs ≡ auth + refusals (r ∷ rs)
unfolding next_auth
refusals-next_auth auth r rs = ground arith

-- HonoConnect gives up only for the error of its last round, which is not to be tried again; if that
-- is a refusal of the credentials, then exactly as many rounds up to it were refused as are
-- configured, those before the loop included.
pub hono_connect-gave_up :
    (retries auth : ℕ) (rs : List HonoRound) (e : ConnectError)
    → (hono_connect retries auth rs).ending ≡ gave_up e
    → ((status_cause e).1 ≡ false) × GivesUpAfter e retries auth rs
unfolding hono_connect
hono_connect-gave_up retries auth [] e h = cc
hono_connect-gave_up retries auth (r ∷ rs) e h =
    let rest = hono_connect retries (next_auth auth r.answer) rs in
    elim (gives_up_round retries auth r r.answer rest e h) [
      | inl (last, final, cause) ↦ (final, ([], rs, r, refl, last, rw last (ground (arith, cause))))
      | inr h' ↦
          let (final, (seen, later, r', split, last, cause)) =
            hono_connect-gave_up retries (next_auth auth r.answer) rs e h' in
          let counted = refusals-next_auth auth r (seen ++ r' ∷ []) in
          (final, (r ∷ seen, later, r', ap (λ x. r ∷ x) split, last, counted_from counted cause))
    ]
  where
    counted_from : {n m : ℕ} {A : Type 0} → n ≡ m → A ⊎ (n ≡ retries) → A ⊎ (m ≡ retries)
    counted_from same (inl other) = inl other
    counted_from same (inr enough) = inr (sym same ∙ enough)

-- The failed attempts of a run, as long as it lasts, and their causes.
abbrev pub IsFailing : HonoRound → Type 0
IsFailing r =
    (e : ConnectError) × (r.answer ≡ failed e)
    × ((status_cause e).1 ≡ true)
    × (r.signal_in_wait ≡ false)
    × (r.next_backoff ≢ none)

-- While the attempts fail with errors that are to be tried again, and no signal comes, the loop goes
-- on and reports one cause for each.
pub hono_connect_goes_on :
    (retries auth : ℕ) (rs : List HonoRound)
    → All IsFailing rs
    → ((hono_connect retries auth rs).ending ≡ pending)
      × (length (hono_connect retries auth rs).causes ≡ length rs)
unfolding hono_connect hono_round
hono_connect_goes_on retries auth [] a = (refl, refl)
hono_connect_goes_on retries auth (r ∷ rs) ((e, answer, again, quiet, back), a) =
    elim (Option-cases r.next_backoff) [
      | inl none_left ↦ absurd (back none_left)
      | inr (interval, b) ↦
          let ih = hono_connect_goes_on retries (next_auth auth (failed e)) rs a in
          rw answer (ground (arith, ih, again, b, quiet))
    ]
