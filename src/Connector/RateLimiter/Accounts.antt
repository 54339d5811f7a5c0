-- ===== src/Connector/RateLimiter/Accounts.antt =====
-- No message is lost without a failure that names it.
use suite_connector.Prelude.{
  ℕ, ◌+◌, ◌≤◌, ◌≡◌, refl, Bool, true, Option, List, [], ◌∷◌, arith, length,
}
use suite_connector.Prelude.Outcome.{Error}
use suite_connector.Connector.Context.{Message}
use suite_connector.Connector.RateLimiter.{publish_from, publish}

accounts_from :
    (wait : ℕ → Bool) (answer : ℕ → Option Error) (i : ℕ) (msgs : List Message)
    → let (sent, failures) = publish_from wait answer i msgs in
      (length msgs ≤ length sent + length failures)
      × (length failures ≤ length msgs)
      × (length sent ≤ length msgs)
unfolding publish_from
accounts_from wait answer i [] = ground arith
accounts_from wait answer i (m ∷ ms) = ground (arith, accounts_from wait answer (i + 1) ms)

all_sent_from :
    (wait : ℕ → Bool) (answer : ℕ → Option Error) (i : ℕ) (msgs : List Message)
    → (publish_from wait answer i msgs).1 ≡ []
    → (publish_from wait answer i msgs).0 ≡ msgs
unfolding publish_from
all_sent_from wait answer i [] e = refl
all_sent_from wait answer i (m ∷ ms) e = ground (arith, all_sent_from wait answer (i + 1) ms)

-- Without an error every message has been handed on, in order.
pub publish-all_sent :
    (wait : ℕ → Bool) (answer : ℕ → Option Error) (msgs : List Message)
    → (publish wait answer msgs).1 ≡ []
    → (publish wait answer msgs).0 ≡ msgs
unfolding publish
publish-all_sent wait answer msgs e = all_sent_from wait answer 0 msgs e

sent_despite_from :
    (wait : ℕ → Bool) (answer : ℕ → Option Error) (i : ℕ) (msgs : List Message)
    → ((n : ℕ) → wait n ≡ true)
    → (publish_from wait answer i msgs).0 ≡ msgs
unfolding publish_from
sent_despite_from wait answer i [] w = refl
sent_despite_from wait answer i (m ∷ ms) w =
    ground (arith, w i, sent_despite_from wait answer (i + 1) ms w)

-- A message that the publisher behind refuses does not keep the later ones back: while no wait is
-- cancelled, every message is handed on, in order, and there are no more failures than messages.
pub publish_accounts :
    (wait : ℕ → Bool) (answer : ℕ → Option Error) (msgs : List Message)
    → ((n : ℕ) → wait n ≡ true)
    → let (sent, failures) = publish wait answer msgs in
      (sent ≡ msgs) × (length failures ≤ length msgs)
unfolding publish
publish_accounts wait answer msgs w =
    (sent_despite_from wait answer 0 msgs w, (accounts_from wait answer 0 msgs).1)
