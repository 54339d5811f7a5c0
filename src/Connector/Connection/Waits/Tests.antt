-- ===== src/Connector/Connection/Waits/Tests.antt =====
-- Three tokens: one is answered in time, one with an error, one never. The wait is over when the fourth
-- is looked at, and Go does not choose its answer.
use suite_connector.Prelude.{◌≤◌, ◌≡◌, refl, Bool, true, false, none, some, List, [], ◌∷◌, length}
use suite_connector.Prelude.Text.{codes}
use suite_connector.Connector.Connection.Waits.{
  SubscribeToken, processed, subscribed, problem, wait_limit, later, answer_report, await_token,
  await_tokens, wait_for_subscribe_tokens, wait_for_subscribe_tokens_ends,
}

abbrev tokens : List (Bool × SubscribeToken)
tokens =
    (true, record { answered = some 5; fault = none })
    ∷ (true, record { answered = some 3; fault = some (codes "refused") })
    ∷ (true, record { answered = none; fault = none })
    ∷ (false, record { answered = some 7; fault = none })
    ∷ []

waits_run :
    wait_for_subscribe_tokens tokens
    ≡ (wait_limit, subscribed ∷ problem (codes "refused") ∷ processed ∷ processed ∷ [])
unfolding await_tokens await_token later answer_report
waits_run = refl

waits_end :
    ((wait_for_subscribe_tokens tokens).0 ≤ wait_limit)
    × (length (wait_for_subscribe_tokens tokens).1 ≡ length tokens)
waits_end = wait_for_subscribe_tokens_ends tokens
