-- ===== src/Connector/RateLimiter.antt =====
-- connector/ratelimiter.go: a publisher that waits before each message. The limiter is a library's:
-- whether the wait for the message of each number ends well is given, and so is what the publisher
-- behind it answers.
pub mod Accounts
use suite_connector.Prelude.{
  ℕ, ◌+◌, ◌≡◌, refl, Bool, true, false, Option, none, some, List, [], ◌∷◌, ◌++◌, arith, length,
  if◌then◌else◌,
}
use suite_connector.Prelude.Text.{Text}
use suite_connector.Prelude.Outcome.{Error, canceled}
use suite_connector.Connector.Context.{Message}

-- The failure of one message, by its identifier.
pub record Failure : Type 0 where
  pub uuid : Text
  pub cause : Error

-- From message number `i` on: the messages that are handed on, and the failures that the joined error
-- holds.
unfoldable pub publish_from :
    (ℕ → Bool) → (ℕ → Option Error) → ℕ → List Message → List Message × List Failure
publish_from wait answer i [] = ([], [])
publish_from wait answer i (msg ∷ msgs) =
    let (sent, failures) = publish_from wait answer (i + 1) msgs in
    if wait i
    then elim (answer i) [
      | none ↦ (msg ∷ sent, failures)
      | some e ↦ (msg ∷ sent, record { uuid = msg.uuid; cause = e } ∷ failures)
    ]
    else (sent, record { uuid = msg.uuid; cause = canceled } ∷ failures)

unfoldable pub publish :
    (ℕ → Bool) → (ℕ → Option Error) → List Message → List Message × List Failure
unfolding publish_from
publish wait answer msgs = publish_from wait answer 0 msgs
