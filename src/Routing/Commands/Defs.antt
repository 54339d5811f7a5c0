-- ===== src/Routing/Commands/Defs.antt =====
-- The two command handlers, cmdRequestHandler and cmdResponseHandler. Each answers the cache that it
-- leaves, also when it fails.
use suite_connector.Prelude.{
  ℕ, zero, ◌*◌, ◌≡◌, Bool, true, false, ◌&&◌, not, Option, none, some, List, [], ◌∷◌, ◌++◌,
  if◌then◌else◌,
}
use suite_connector.Prelude.Int.{ℤ, pos, ◌+ℤ◌, ◌≤ℤ◌}
use suite_connector.Prelude.Text.{Text, codes, is_empty, text_eq}
use suite_connector.Prelude.Outcome.{
  no_topic, invalid_cloud_command, Outcome, ok, err, panic, ◌>>=◌,
}
use suite_connector.Util.Timeout.{second, parse_timeout}
use suite_connector.Util.Topic.{parse_cmd_topic}
use suite_connector.Connector.Context.{Message, topic_from_ctx, with_topic}
use suite_connector.Routing.Gateway.{fix_command, strip_gateway_id}

-- What the handlers ask of the cache of pending requests.
pub record RequestCache : Type 1 where
  pub Store : Type 0
  pub put : ℕ → Text → ℤ → Store → Outcome Store
  pub remove : Text → Store → Outcome (Store × Bool)
  pub holds : Text → Store → Bool
  pub IsValid : Store → Type 0
  pub put_ok :
      (now : ℕ) (k : Text) (ttl : ℤ) (s : Store)
      → IsValid s
      → pos 0 ≤ℤ ttl
      → (s' : Store) × (put now k ttl s ≡ ok s')
        × IsValid s'
        × ((j : Text) → holds j s' ≡ (if text_eq k j then true else holds j s))
  pub remove_ok :
      (k : Text) (s : Store)
      → IsValid s
      → (s' : Store) × (remove k s ≡ ok (s', holds k s))
        × IsValid s'
        × ((j : Text) → holds j s' ≡ (if text_eq k j then false else holds j s))

-- The headers of an envelope that the handlers read.
pub record Headers : Type 0 where
  pub correlation_id : Text
  pub timeout : Text

pub record RequestHandler : Type 0 where
  pub tenant_id : Text
  pub device_id : Text
  pub generic : Bool

pub record ResponseHandler : Type 0 where
  pub prefix : Text
  pub tenant_id : Text
  pub device_id : Text
  pub generic : Bool

-- The message itself, and its copy under the short topic.
unfoldable pub request_messages : Message → Text → Outcome (List Message)
request_messages msg topic = do
  parsed ← parse_cmd_topic topic
  let short : Message = record { uuid = msg.uuid; payload = msg.payload; ctx = msg.ctx }
  ok (
      msg
      ∷ with_topic short (codes "c//" ++ (parsed.prefix ++ (codes "/q/" ++ parsed.suffix)))
      ∷ [])

-- What follows the registration of the request: the topic of a generic gateway is fixed first.
unfoldable pub forward_request : RequestHandler → Message → Text → Outcome (List Message)
forward_request h msg topic =
    if h.generic
    then (do fixed ← fix_command topic; request_messages (with_topic msg fixed) fixed)
    else request_messages msg topic

unfoldable pub response_topic : ResponseHandler → Text → Outcome Text
response_topic h topic = do
  parsed ← parse_cmd_topic topic
  let prefix = if h.generic && not (is_empty h.prefix) then h.prefix ++ codes "/" else []
  let gateway = h.tenant_id ++ (codes "/" ++ (h.device_id ++ codes "/"))
  let qualified =
      strip_gateway_id h.device_id parsed.prefix >>= λ stripped. ok (gateway ++ stripped)
  device ← if h.generic then qualified else ok (codes "/" ++ parsed.prefix)
  ok (prefix ++ (codes "command/" ++ (device ++ (codes "/res/" ++ parsed.suffix))))

-- `timeout == 0`
unfoldable pub is_zero : ℤ → Bool
is_zero (pos zero) = true
is_zero _ = false

-- The message with the response's topic at the hub, if the request was pending.
abbrev pub answer : ResponseHandler → Message → Text → Bool → Outcome (List Message)
answer h msg topic pending =
    if pending then (response_topic h topic >>= λ hub. ok (with_topic msg hub ∷ [])) else ok []

module _ (cache : RequestCache) where
  open cache use {Store, put}

  -- A request with a correlation id and a time-out other than zero is pending for five seconds more
  -- than its time-out.
  unfoldable pub register : ℕ → Headers → Store → Outcome Store
  register now headers s =
      if is_empty headers.correlation_id
      then ok s
      else parse_timeout headers.timeout >>= λ timeout.
          if is_zero timeout
          then ok s
          else put now headers.correlation_id (timeout +ℤ pos (5 * second)) s

module _ (cache : RequestCache) (decode : Text → Option Headers) where
  open cache use {Store, remove}

  unfoldable pub handle_request :
      RequestHandler → ℕ → Message → Store → Store × Outcome (List Message)
  handle_request h now msg s = elim (topic_from_ctx msg.ctx) [
    | none ↦ (s, err no_topic)
    | some topic ↦ elim (decode msg.payload) [
      | none ↦ (s, err invalid_cloud_command)
      | some headers ↦ elim (register cache now headers s) [
        | ok s' ↦ (s', forward_request h msg topic)
        | err e ↦ (s, err e)
        | panic ↦ (s, panic)
      ]
    ]
  ]

  unfoldable pub handle_response :
      ResponseHandler → Message → Store → Store × Outcome (List Message)
  handle_response h msg s = elim (topic_from_ctx msg.ctx) [
    | none ↦ (s, err no_topic)
    | some topic ↦ elim (decode msg.payload) [
      | none ↦ (s, err invalid_cloud_command)
      | some headers ↦ elim (remove headers.correlation_id s) [
        | ok (s', pending) ↦ (s', answer h msg topic pending)
        | err e ↦ (s, err e)
        | panic ↦ (s, panic)
      ]
    ]
  ]
