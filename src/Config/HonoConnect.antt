-- ===== src/Config/HonoConnect.antt =====
-- config/connections.go: HonoConnect, the loop that first connects to the hub. What happens in each
-- round is a list of rounds; a list that ends leaves the loop running.
pub mod Ends
use suite_connector.Prelude.{
  ℕ, ◌+◌, ◌≡◌, Bool, true, false, not, Option, none, some, List, [], ◌∷◌, ◌==◌, if◌then◌else◌,
}
use suite_connector.Connector.Reconnect.{ConnectError, is_auth_error}
use suite_connector.Routing.Status.{Cause, status_cause}

-- What the first select of a round sees: a signal, or the end of the attempt.
pub data Answer : Type 0 where
  signal made : Answer
  failed : ConnectError → Answer

pub record HonoRound : Type 0 where
  pub answer : Answer
  -- In nanoseconds; `none` is backoff.Stop.
  pub next_backoff : Option ℕ
  pub signal_in_wait : Bool

pub data HonoEnding : Type 0 where
  pending connected canceled : HonoEnding
  gave_up : ConnectError → HonoEnding

-- The causes that were sent, and how the loop ended.
pub record HonoTrace : Type 0 where
  pub causes : List Cause
  pub ending : HonoEnding

abbrev pub ends : HonoEnding → HonoTrace
ends e = record { causes = []; ending = e }

abbrev pub reported : Cause → HonoTrace → HonoTrace
reported c t = record t { causes = c ∷ t.causes }

-- The wait after a failure that does not end the loop.
unfoldable pub wait_round : HonoRound → HonoTrace → HonoTrace
wait_round r rest = elim r.next_backoff [
  | none ↦ ends canceled
  | some interval ↦ if r.signal_in_wait then ends canceled else rest
]

unfoldable pub next_auth : ℕ → Answer → ℕ
next_auth auth (failed e) = if is_auth_error e then auth + 1 else auth
next_auth auth _ = auth

unfoldable pub hono_round : ℕ → ℕ → HonoRound → Answer → HonoTrace → HonoTrace
unfolding wait_round
hono_round retries auth r signal rest = ends canceled
hono_round retries auth r made rest = ends connected
hono_round retries auth r (failed e) rest =
    let (cause, retry) = status_cause e in
    let waited = wait_round r rest in
    let fatal : HonoTrace =
      if is_auth_error e
      then (if auth + 1 == retries then ends (gave_up e) else waited)
      else ends (gave_up e) in
    reported cause (if not retry then fatal else waited)

unfoldable pub hono_connect : ℕ → ℕ → List HonoRound → HonoTrace
hono_connect retries auth [] = ends pending
hono_connect retries auth (r ∷ rs) =
    hono_round retries auth r r.answer (hono_connect retries (next_auth auth r.answer) rs)
