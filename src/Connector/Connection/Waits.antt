-- ===== src/Connector/Connection/Waits.antt =====
-- waitForSubscribeTokens of connector/connection.go: how long onConnected waits for the answers to its
-- subscribe packets before it notifies the listeners. Times are nanoseconds since the wait began.
mod Tests
use suite_connector.Prelude.{
  ℕ, ◌*◌, ◌≤◌, ◌<◌, ◌≡◌, refl, Bool, Option, none, some, List, [], ◌∷◌, length, leb, ltb, ◌==◌,
  arith, if◌then◌else◌,
}
use suite_connector.Prelude.Text.{Text}
use suite_connector.Util.Timeout.{second}

-- A token: when the broker answers, `none` for never, and the error that the answer then has.
pub record SubscribeToken : Type 0 where
  pub answered : Option ℕ
  pub fault : Option Text

-- "Subscribe packet processed", "Subscription problem" and "Subscription done".
pub data TokenReport : Type 0 where
  processed subscribed : TokenReport
  problem : Text → TokenReport

-- The time after which the context is done.
abbrev pub wait_limit : ℕ
wait_limit = 4 * second

unfoldable pub later : ℕ → ℕ → ℕ
later a b = if leb a b then b else a

unfoldable pub answer_report : SubscribeToken → TokenReport
answer_report t = elim t.fault [ none ↦ subscribed | some e ↦ problem e ]

-- The select for a token, from the time `now` on: the channel that is ready first, and `picks_token`
-- where both become ready at once, which Go decides at random.
unfoldable pub await_token : Bool → ℕ → SubscribeToken → ℕ × TokenReport
unfolding later answer_report
await_token picks_token now t = elim t.answered [
  | none ↦ (later now wait_limit, processed)
  | some at ↦
      let given_up = later now wait_limit in
      let answered = later now at in
      if ltb answered given_up
      then (answered, answer_report t)
      else if ltb given_up answered
      then (given_up, processed)
      else if picks_token
      then (answered, answer_report t)
      else (given_up, processed)
]

-- The loop, over the tokens with Go's choices: the time at its end, and what it has logged.
unfoldable pub await_tokens : ℕ → List (Bool × SubscribeToken) → ℕ × List TokenReport
unfolding await_token
await_tokens now [] = (now, [])
await_tokens now ((picks_token, t) ∷ ts) =
    let here = await_token picks_token now t in
    let rest = await_tokens here.0 ts in (rest.0, here.1 ∷ rest.1)

abbrev pub wait_for_subscribe_tokens : List (Bool × SubscribeToken) → ℕ × List TokenReport
wait_for_subscribe_tokens = await_tokens 0

await_token_bound :
    (p : Bool) (now : ℕ) (t : SubscribeToken)
    → now ≤ wait_limit
    → (await_token p now t).0 ≤ wait_limit
unfolding await_token later
await_token_bound p now t h = ground (arith, h)

await_tokens_bound :
    (now : ℕ) (ts : List (Bool × SubscribeToken))
    → now ≤ wait_limit
    → (await_tokens now ts).0 ≤ wait_limit
unfolding await_tokens
await_tokens_bound now [] h = h
await_tokens_bound now ((p, t) ∷ ts) h =
    await_tokens_bound (await_token p now t).0 ts (await_token_bound p now t h)

length-await_tokens :
    (now : ℕ) (ts : List (Bool × SubscribeToken)) → length (await_tokens now ts).1 ≡ length ts
unfolding await_tokens
length-await_tokens now [] = refl
length-await_tokens now ((p, t) ∷ ts) =
    let rest = length-await_tokens (await_token p now t).0 ts in omega (arith, rest)

-- However many subscriptions there are and whenever the broker answers, the wait is over after four
-- seconds, and each token has been logged once.
pub wait_for_subscribe_tokens_ends :
    (ts : List (Bool × SubscribeToken))
    → let waited = wait_for_subscribe_tokens ts in
      (waited.0 ≤ wait_limit) × (length waited.1 ≡ length ts)
wait_for_subscribe_tokens_ends ts =
    (await_tokens_bound 0 ts (omega arith), length-await_tokens 0 ts)

-- From a time within the limit on, a token that is answered before the limit is reported with its
-- answer, whatever Go chooses, and the wait is still within the limit.
pub await_token_answered :
    (p : Bool) (now at : ℕ) (fault : Option Text)
    → now < wait_limit
    → at < wait_limit
    → let t : SubscribeToken = record { answered = some at; fault = fault } in
      ((await_token p now t).1 ≡ answer_report t) × ((await_token p now t).0 < wait_limit)
unfolding await_token later
await_token_answered p now at fault h k = (ground (arith, h, k), ground (arith, h, k))
