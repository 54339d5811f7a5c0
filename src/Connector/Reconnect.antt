-- ===== src/Connector/Reconnect.antt =====
-- connector/connection.go: externalReconnect, the loop that reconnects a lost connection. What its
-- surroundings do in each round (the flag that Disconnect clears, the back-off, the broker's answer)
-- is a list of rounds; a list that ends leaves the loop running.
pub mod Retries
use suite_connector.Prelude.{
  ℕ, zero, suc, ◌+◌, ◌/◌, ◌≡◌, Bool, true, false, not, ◌&&◌, Option, none, some, List, [], ◌∷◌,
  ◌==◌, if◌then◌else◌,
}

-- The answers of a broker that refuses a connection, and any other failure.
pub data ConnectError : Type 0 where
  bad_protocol_version id_rejected bad_username_or_password not_authorised : ConnectError
  other_error : ℕ → ConnectError

abbrev pub is_auth_error : ConnectError → Bool
is_auth_error bad_username_or_password = true
is_auth_error not_authorised = true
is_auth_error _ = false

pub record Round : Type 0 where
  pub running : Bool
  -- In nanoseconds; `none` is backoff.Stop.
  pub next_backoff : Option ℕ
  -- Whether the connection still runs after the sleep of this number.
  pub running_after : ℕ → Bool
  -- `none` if the connection is made.
  pub failure : Option ConnectError

pub data Ending : Type 0 where
  pending stopped backoff_stopped connected retries_exhausted : Ending

-- How many times the loop slept and tried to connect, the errors that the listeners were told, and
-- how the loop ended.
pub record Trace : Type 0 where
  pub sleeps : ℕ
  pub attempts : ℕ
  pub fired : List ConnectError
  pub ending : Ending

abbrev pub external_retry_sleep : ℕ
external_retry_sleep = 5_000_000_000

unfoldable pub spin_count : ℕ → ℕ
spin_count interval = let n = interval / external_retry_sleep in if n == 0 then 1 else n

-- The sleeps from number `i` on: how many there were, and whether the connection still runs.
unfoldable pub spin : ℕ → ℕ → (ℕ → Bool) → ℕ × Bool
spin zero i running_after = (0, true)
spin (suc n) i running_after =
    let (slept, running) = spin n (i + 1) running_after in
    if running_after i then (slept + 1, running) else (1, false)

abbrev pub ends : ℕ → ℕ → Ending → Trace
ends sleeps attempts ending = record {
  sleeps = sleeps;
  attempts = attempts;
  fired = [];
  ending = ending;
}

-- A round before the rest of the loop.
abbrev pub round : ℕ → List ConnectError → Trace → Trace
round slept [] t = record t { sleeps = slept + t.sleeps; attempts = t.attempts + 1 }
round slept (e ∷ es) t = record t {
  sleeps = slept + t.sleeps;
  attempts = t.attempts + 1;
  fired = e ∷ t.fired;
}

-- What follows a failed attempt, `auth` being the count of refused credentials before it.
unfoldable pub after_failure : ℕ → ℕ → ℕ → ConnectError → Trace → Trace
after_failure retries slept auth e rest =
    if is_auth_error e
    then round slept (e ∷ []) (if auth + 1 == retries then ends 0 0 retries_exhausted else rest)
    else round slept [] rest

-- The count of refused credentials after a round.
unfoldable pub next_auth : ℕ → Round → ℕ
next_auth auth r = elim r.failure [
  | none ↦ auth
  | some e ↦ if is_auth_error e then auth + 1 else auth
]

-- One round, before the rounds that follow if it does not end the loop.
unfoldable pub reconnect_round : ℕ → ℕ → Round → Trace → Trace
unfolding after_failure
reconnect_round retries auth r rest =
    let attempt : ℕ → Trace = λ slept. elim r.failure [
      | none ↦ ends slept 1 connected
      | some e ↦ after_failure retries slept auth e rest
    ] in
    let spun : ℕ → Trace = λ interval.
      let (slept, running) = spin (spin_count interval) 0 r.running_after in
      if running then attempt slept else ends slept 0 stopped in
    let backed_off : Trace = elim r.next_backoff [
      | none ↦ ends 0 0 backoff_stopped
      | some interval ↦ spun interval
    ] in
    if r.running then backed_off else ends 0 0 stopped

unfoldable pub external_reconnect : ℕ → ℕ → List Round → Trace
external_reconnect retries auth [] = ends 0 0 pending
external_reconnect retries auth (r ∷ rs) =
    reconnect_round retries auth r (external_reconnect retries (next_auth auth r) rs)

-- onConnectionLost: what the listeners are told, and the loop if the configuration asks for it and none
-- is running.
unfoldable pub on_connection_lost :
    Bool → Bool → ℕ → ConnectError → List Round → ConnectError × Option Trace
unfolding external_reconnect
on_connection_lost external reconnecting retries error rs =
    (error, if external && not reconnecting then some (external_reconnect retries 0 rs) else none)
