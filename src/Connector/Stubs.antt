-- ===== src/Connector/Stubs.antt =====
-- connector/nop_store.go and connector/publisher_mock.go: the store that keeps nothing, and the
-- publishers that discard and that fail.
use suite_connector.Prelude.{
  ℕ, zero, suc, ◌≡◌, refl, Bool, true, false, Option, none, some, List, [], ◌∷◌, arith,
  if◌then◌else◌,
}
use suite_connector.Prelude.Text.{Text}
use suite_connector.Prelude.Outcome.{Error, closed}
use suite_connector.Connector.Context.{Message}

-- The calls of the MQTT client on its store, which has no state, and their answers.
pub data StoreCall : Type 0 where
  opens closes resets alls : StoreCall
  puts : Text → Text → StoreCall
  gets deletes : Text → StoreCall

pub data StoreAnswer : Type 0 where
  nothing : StoreAnswer
  found : Option Text → StoreAnswer
  all_keys : List Text → StoreAnswer

unfoldable pub store_call : StoreCall → StoreAnswer
store_call (gets key) = found none
store_call alls = all_keys []
store_call _ = nothing

-- nullpublisher
unfoldable pub null_publish : Text → List Message → Option Error
null_publish topic messages = none

unfoldable pub null_close : Option Error
null_close = none

-- errpublisher: its error and its flag
pub record ErrPublisher : Type 0 where
  pub error : Error
  pub is_closed : Bool

abbrev pub new_err_publisher : Error → ErrPublisher
new_err_publisher error = record { error = error; is_closed = false }

unfoldable pub err_publish : Text → List Message → ErrPublisher → Option Error
err_publish topic messages p = some (if p.is_closed then closed else p.error)

unfoldable pub err_close : ErrPublisher → ErrPublisher × Option Error
err_close p = if p.is_closed then (p, some closed) else (record p { is_closed = true }, none)

-- The errors of a number of calls of Close.
unfoldable pub err_close_times : ℕ → ErrPublisher → List (Option Error)
unfolding err_close
err_close_times zero p = []
err_close_times (suc n) p = let (p', e) = err_close p in e ∷ err_close_times n p'

abbrev pub refusals : ℕ → List (Option Error)
refusals zero = []
refusals (suc n) = some closed ∷ refusals n

closed_refuses : (n : ℕ) (p : ErrPublisher) → p.is_closed ≡ true → err_close_times n p ≡ refusals n
unfolding err_close_times err_close
closed_refuses zero p h = refl
closed_refuses (suc n) p h = ground (arith, h, closed_refuses n p h)

-- Of the calls of Close on a new publisher the first succeeds and each other is refused.
pub err_close_once :
    (n : ℕ) (e : Error) → err_close_times (suc n) (new_err_publisher e) ≡ none ∷ refusals n
unfolding err_close_times err_close
err_close_once n e = ground (arith, closed_refuses n (record { error = e; is_closed = true }) refl)
