-- ===== src/Routing/Commands/Response.antt =====
-- Responses: only a pending request's goes to the hub, once, under the topic that the hub expects.
use suite_connector.Prelude.{
  ◌≡◌, refl, Bool-cases, inl, inr, Bool, true, false, some, [], ◌++◌, arith, if◌then◌else◌, Option,
}
use suite_connector.Prelude.Text.{Text, codes, Lacks, Lacks-append, text_eq, text_eq_refl, is_empty}
use suite_connector.Prelude.Outcome.{ok}
use suite_connector.Util.Topic.{parse_cmd_topic}
use suite_connector.Util.Topic.Parse.{parse_cmd_topic-long, parse_cmd_topic-short}
use suite_connector.Connector.Context.{Message, topic_from_ctx}
use suite_connector.Routing.Gateway.Laws.{strip_gateway_id_qualified}
use suite_connector.Routing.Commands.Defs.{
  RequestCache, Headers, ResponseHandler, response_topic, answer, handle_response,
}

-- A local response topic, short or long.
abbrev pub local_response : Bool → Text → Text → Text
local_response true dev suffix = codes "c//" ++ (dev ++ (codes "/s/" ++ suffix))
local_response false dev suffix = codes "command//" ++ (dev ++ (codes "/res/" ++ suffix))

parse_response :
    (short : Bool) (dev suffix : Text)
    → Lacks b'/' dev
    → (ty : Text) × (parse_cmd_topic (local_response short dev suffix)
        ≡ ok (record { cmd_type = ty; prefix = dev; suffix = suffix }))
parse_response true dev suffix h = (codes "s", parse_cmd_topic-short dev (codes "s") suffix h refl)
parse_response false dev suffix h =
    (codes "res", parse_cmd_topic-long dev (codes "res") suffix h refl)

-- Over a direct connection both forms of the response topic give the long one.
pub response_topic-direct :
    (h : ResponseHandler) (short : Bool) (dev suffix : Text)
    → h.generic ≡ false
    → Lacks b'/' dev
    → response_topic h (local_response short dev suffix)
      ≡ ok (codes "command//" ++ (dev ++ (codes "/res/" ++ suffix)))
unfolding response_topic
response_topic-direct h short dev suffix g hd =
    let (ty, e) = parse_response short dev suffix hd in rw (response_topic, e, g)

-- Over a generic gateway, for a gateway and a device without a slash, the response of a device
-- behind the gateway's name, under a short or a long topic, goes to the tenant, the gateway and the
-- device, behind the prefix that the environment sets.
pub response_topic-generic :
    (h : ResponseHandler) (short : Bool) (dev suffix : Text)
    → h.generic ≡ true
    → Lacks b'/' h.device_id
    → Lacks b'/' dev
    → response_topic h (local_response short (h.device_id ++ (codes ":" ++ dev)) suffix)
      ≡ ok (
          (if is_empty h.prefix then [] else h.prefix ++ codes "/")
          ++ (codes "command/"
              ++ ((h.tenant_id ++ (codes "/" ++ (h.device_id ++ codes "/")))
                  ++ dev
                  ++ (codes "/res/" ++ suffix))))
unfolding response_topic
response_topic-generic h short dev suffix g hg hd =
    let device = h.device_id ++ (codes ":" ++ dev) in
    let (ty, e) =
      parse_response short device suffix
        (Lacks-append b'/' h.device_id (codes ":" ++ dev) hg (omega arith, hd)) in
    rw (response_topic, e, g, strip_gateway_id_qualified h.device_id dev)
      (elim (Bool-cases (is_empty h.prefix)) [ inl e ↦ rw e | inr e ↦ rw e ])

module _ (cache : RequestCache) (decode : Text → Option Headers) where
  open cache use {Store, holds, IsValid, remove_ok}

  handle_response_step :
      (h : ResponseHandler) (msg : Message) (s : Store) (topic : Text) (headers : Headers)
      → IsValid s
      → topic_from_ctx msg.ctx ≡ some topic
      → decode msg.payload ≡ some headers
      → let k = headers.correlation_id in
        let r = handle_response cache decode h msg s in
        (r.1 ≡ answer h msg topic (holds k s))
        × IsValid r.0
        × ((j : Text) → holds j r.0 ≡ (if text_eq k j then false else holds j s))
  unfolding handle_response
  handle_response_step h msg s topic headers v et ed =
      let (s', removed, valid, held) = remove_ok headers.correlation_id s v in
      rw (handle_response, et, ed, removed) (refl, valid, held)

  -- With a valid cache, a response with a topic and a readable envelope is handed on, if its topic
  -- can be made, exactly if its correlation id is pending; only that id is forgotten, the cache stays
  -- valid, and a second response to it gives no message.
  pub handle_response_once :
      (h : ResponseHandler) (msg : Message) (s : Store) (topic : Text) (headers : Headers)
      → IsValid s
      → topic_from_ctx msg.ctx ≡ some topic
      → decode msg.payload ≡ some headers
      → let k = headers.correlation_id in
        let r = handle_response cache decode h msg s in
        (r.1 ≡ answer h msg topic (holds k s))
        × IsValid r.0
        × ((j : Text) → holds j r.0 ≡ (if text_eq k j then false else holds j s))
        × ((handle_response cache decode h msg r.0).1 ≡ ok [])
  handle_response_once h msg s topic headers v et ed =
      let k = headers.correlation_id in
      let s' = (handle_response cache decode h msg s).0 in
      let (answered, valid, held) = handle_response_step h msg s topic headers v et ed in
      let (again, _, _) = handle_response_step h msg s' topic headers valid et ed in
      let gone : holds k s' ≡ false = rw (held k, text_eq_refl k) in
      (answered, valid, held, rw (again, gone))
