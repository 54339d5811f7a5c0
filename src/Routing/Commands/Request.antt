-- ===== src/Routing/Commands/Request.antt =====
-- Requests: the two messages for the local broker, and the pending entry.
use suite_connector.Prelude.{
  ℕ, ◌*◌, ◌≡◌, ◌≢◌, refl, ◌∙◌, true, false, some, [], ◌∷◌, ◌++◌, arith, if◌then◌else◌, Option,
}
use suite_connector.Prelude.Int.{ℤ, pos, ◌+ℤ◌, ◌≤ℤ◌, +ℤ_parts}
use suite_connector.Prelude.Text.{Text, codes, Lacks, Lacks-append, text_eq, is_empty}
use suite_connector.Prelude.Outcome.{ok}
use suite_connector.Util.Topic.Parse.{parse_cmd_topic-long}
use suite_connector.Util.Timeout.{second, parse_timeout}
use suite_connector.Util.Timeout.Bounds.{parse_timeout_bounds}
use suite_connector.Connector.Context.{Message, topic_from_ctx, with_topic}
use suite_connector.Routing.Gateway.Laws.{fix_command_qualifies}
use suite_connector.Routing.Commands.Defs.{
  RequestCache, Headers, RequestHandler, request_messages, forward_request, is_zero, register,
  handle_request,
}

-- The long and the short topic of a request to a device.
abbrev pub long_request : Text → Text → Text
long_request dev suffix = codes "command//" ++ (dev ++ (codes "/req/" ++ suffix))

abbrev pub short_request : Text → Text → Text
short_request dev suffix = codes "c//" ++ (dev ++ (codes "/q/" ++ suffix))

-- The topic of a request that the hub sends to a device behind a generic gateway.
abbrev pub hub_request : Text → Text → Text → Text → Text
hub_request tenant gateway dev suffix =
    codes "command"
    ++ (b'/' ∷ (tenant ++ (b'/' ∷ (gateway ++ (b'/' ∷ (dev ++ (codes "/req/" ++ suffix)))))))

-- Over a direct connection a request is handed on as it is, and once more under its short topic.
pub forward_request-direct :
    (h : RequestHandler) (msg : Message) (dev suffix : Text)
    → h.generic ≡ false
    → Lacks b'/' dev
    → forward_request h msg (long_request dev suffix)
      ≡ ok (msg ∷ with_topic msg (short_request dev suffix) ∷ [])
unfolding forward_request request_messages with_topic
forward_request-direct h msg dev suffix g hd =
    rw (forward_request, g, parse_cmd_topic-long dev (codes "req") suffix hd refl)

-- Over a generic gateway, for a tenant, a gateway and a non-empty device without a slash, a request
-- is handed on under the topic of the device behind the gateway's name, long and short, and the
-- tenant is dropped.
pub forward_request-generic :
    (h : RequestHandler) (msg : Message) (tenant gateway dev suffix : Text)
    → h.generic ≡ true
    → Lacks b'/' tenant
    → Lacks b'/' gateway
    → Lacks b'/' dev
    → dev ≢ []
    → let device = gateway ++ (codes ":" ++ dev) in
      let fixed = with_topic msg (long_request device suffix) in
      forward_request h msg (hub_request tenant gateway dev suffix)
      ≡ ok (fixed ∷ with_topic fixed (short_request device suffix) ∷ [])
unfolding forward_request request_messages
forward_request-generic h msg tenant gateway dev suffix g ht hg hd ne =
    let device = gateway ++ (codes ":" ++ dev) in
    rw (
      forward_request,
      g,
      fix_command_qualifies (codes "command") tenant gateway dev (codes "req/" ++ suffix)
          (ground arith) ht hg hd ne,
      parse_cmd_topic-long device (codes "req") suffix
          (Lacks-append b'/' gateway (codes ":" ++ dev) hg (omega arith, hd)) refl,
    )

is_empty-ne : (s : Text) → s ≢ [] → is_empty s ≡ false
is_empty-ne [] h = absurd (h refl)
is_empty-ne (c ∷ s) h = refl

module _ (cache : RequestCache) (decode : Text → Option Headers) where
  open cache use {Store, put, holds, IsValid, put_ok}

  pub register-pending :
      (now : ℕ) (headers : Headers) (s : Store) (t : ℤ)
      → headers.correlation_id ≢ []
      → parse_timeout headers.timeout ≡ ok t
      → is_zero t ≡ false
      → register cache now headers s ≡ put now headers.correlation_id (t +ℤ pos (5 * second)) s
  unfolding register
  register-pending now headers s t ne ep z =
      rw (register, is_empty-ne headers.correlation_id ne, ep, z)

  -- With a valid cache, a request with a topic, a readable envelope, a correlation id and a
  -- time-out other than zero is pending afterwards, whether it can be handed on or not, the same
  -- other requests are pending as before, and the cache stays valid; what the handler answers is what
  -- the topic gives.
  pub handle_request-pending :
      (h : RequestHandler) (now : ℕ) (msg : Message) (s : Store) (topic : Text) (headers : Headers)
      (t : ℤ)
      → IsValid s
      → topic_from_ctx msg.ctx ≡ some topic
      → decode msg.payload ≡ some headers
      → headers.correlation_id ≢ []
      → parse_timeout headers.timeout ≡ ok t
      → is_zero t ≡ false
      → let r = handle_request cache decode h now msg s in
        IsValid r.0
        × ((j : Text)
            → holds j r.0 ≡ (if text_eq headers.correlation_id j then true else holds j s))
        × (r.1 ≡ forward_request h msg topic)
  unfolding handle_request
  handle_request-pending h now msg s topic headers t v et ed ne ep z =
      let k = headers.correlation_id in
      let ttl = t +ℤ pos (5 * second) in
      let nonneg : pos 0 ≤ℤ ttl =
        omega
          (arith, (parse_timeout_bounds headers.timeout t ep).0, +ℤ_parts t (pos (5 * second))) in
      let (s', stored, valid, held) = put_ok now k ttl s v nonneg in
      let registered = register-pending now headers s t ne ep z ∙ stored in
      rw (handle_request, et, ed, registered) (valid, held, refl)
