-- ===== src/Routing/Commands/Tests.antt =====
-- The properties of the handlers and of the cache together, at concrete inputs.
use suite_connector.Prelude.{
  ℕ, ◌*◌, ◌≡◌, refl, Bool, true, false, Option, some, [], ◌∷◌, arith, if◌then◌else◌,
}
use suite_connector.Prelude.Int.{pos}
use suite_connector.Prelude.Text.{Text, codes, text_eq, text_eq_iff}
use suite_connector.Prelude.Dict.{lookup}
use suite_connector.Prelude.Outcome.{ok}
use suite_connector.Util.Timeout.{second, parse_timeout}
use suite_connector.Connector.Context.{Message, topic, topic_from_ctx}
use suite_connector.Cache.Queue.{Element}
use suite_connector.Cache.Table.{Cache, clear_expired}
use suite_connector.Routing.Commands.Defs.{
  Headers, is_zero, RequestHandler, ResponseHandler, forward_request, answer, handle_request,
  handle_response,
}
use suite_connector.Routing.Commands.Pending.{ttl_cache, is_pending, IsReady}
use suite_connector.Routing.Commands.Request.{handle_request-pending}
use suite_connector.Routing.Commands.Response.{handle_response_once}
use suite_connector.Routing.Commands.Lifetime.{request_outlives_cleaner}

abbrev requests : RequestHandler
requests = record { tenant_id = codes "tenant"; device_id = codes "ns:gw"; generic = true }

abbrev responses : ResponseHandler
responses = record {
  prefix = [];
  tenant_id = codes "tenant";
  device_id = codes "ns:gw";
  generic = true;
}

abbrev request_topic : Text
request_topic = codes "command/tenant/ns:gw/dev/req/17/on"

abbrev reply_topic : Text
reply_topic = codes "c//ns:gw:dev/s/17/200"

abbrev request : Message
request = record { uuid = codes "1"; payload = codes "{}"; ctx = topic request_topic ∷ [] }

abbrev reply : Message
reply = record { uuid = codes "2"; payload = codes "{}"; ctx = topic reply_topic ∷ [] }

abbrev id : Text
id = codes "c-1"

abbrev headers : Headers
headers = record { correlation_id = id; timeout = [] }

abbrev decode : Text → Option Headers
decode payload = some headers

-- One pending request.
abbrev cell : ℕ → Element Bool
cell a = record {
  index = some 0;
  key = id;
  value = true;
  ttl = pos (65 * second);
  exp_time = 65 * second;
}

abbrev one : Cache Bool
one = record {
  closed = false;
  queue = record { cell = cell; items = 0 ∷ [] };
  elements = (id, 0) ∷ [];
  next = 1;
}

one-IsReady : IsReady one
unfolding lookup text_eq
one-IsReady = (
  record {
    map = (refl, tt);
    linked = record {
      indexed = λ i h. ground arith;
      listed = λ i h. ground arith;
      queued = λ k a e. (ground (arith, e, text_eq_iff id k), (0, ground arith, ground (arith, e)));
    };
    heap = λ c p h. ground arith;
    used = λ k a e. ground (arith, e);
  },
  refl,
)

handle_request-pending_example :
    let r = handle_request ttl_cache decode requests 0 request one in
    IsReady r.0
    × ((j : Text) → is_pending j r.0 ≡ (if text_eq id j then true else is_pending j one))
    × (r.1 ≡ forward_request requests request request_topic)
unfolding topic_from_ctx parse_timeout is_zero
handle_request-pending_example =
    handle_request-pending ttl_cache decode requests 0 request one request_topic headers
      (pos (60 * second)) one-IsReady refl refl (ground arith) refl refl

handle_response_once_example :
    let r = handle_response ttl_cache decode responses reply one in
    (r.1 ≡ answer responses reply reply_topic (is_pending id one))
    × IsReady r.0
    × ((j : Text) → is_pending j r.0 ≡ (if text_eq id j then false else is_pending j one))
    × ((handle_response ttl_cache decode responses reply r.0).1 ≡ ok [])
unfolding topic_from_ctx
handle_response_once_example =
    handle_response_once ttl_cache decode responses reply one reply_topic headers one-IsReady refl
      refl

request_outlives_cleaner_example :
    (c' : Cache Bool) × (clear_expired
        (65 * second)
        (handle_request ttl_cache decode requests 0 request one).0
      ≡ ok c')
    × ((handle_response ttl_cache decode responses reply c').1
        ≡ answer responses reply reply_topic true)
unfolding topic_from_ctx parse_timeout is_zero
request_outlives_cleaner_example =
    request_outlives_cleaner decode requests responses 0 (65 * second) request reply one
      request_topic reply_topic headers headers (pos (60 * second)) one-IsReady refl refl
      (ground arith) refl refl (ground arith) refl refl refl
