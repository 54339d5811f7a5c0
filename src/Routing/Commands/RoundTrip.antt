-- ===== src/Routing/Commands/RoundTrip.antt =====
-- A request of the hub and the status response to it: the response goes back to where the request came
-- from.
use suite_connector.Prelude.{◌≡◌, ◌≢◌, true, false, [], ◌∷◌, ◌++◌, if◌then◌else◌, arith}
use suite_connector.Prelude.Text.{Text, codes, is_empty, Lacks, Lacks-append}
use suite_connector.Prelude.Outcome.{ok, ◌>>=◌}
use suite_connector.Util.Topic.{response_status_topic}
use suite_connector.Util.Topic.Parse.{response_status_topic-long}
use suite_connector.Routing.Gateway.{fix_command}
use suite_connector.Routing.Gateway.Laws.{fix_command_qualifies}
use suite_connector.Routing.Commands.Defs.{ResponseHandler, response_topic}
use suite_connector.Routing.Commands.Request.{hub_request}
use suite_connector.Routing.Commands.Response.{response_topic-generic}

-- The topic of a request with an id and a name, and of the response with a status to it.
abbrev pub request_suffix : Text → Text → Text
request_suffix request_id name = request_id ++ (b'/' ∷ name)

-- Over a generic gateway, for a tenant, a gateway, a non-empty device and a request id without a slash,
-- the status response to a request of the hub goes to the device and the request id that the request
-- came with, under the tenant and the gateway of the response's handler.
pub status_response_returns :
    (h : ResponseHandler) (tenant dev request_id name status : Text)
    → h.generic ≡ true
    → Lacks b'/' tenant
    → Lacks b'/' h.device_id
    → Lacks b'/' dev
    → dev ≢ []
    → Lacks b'/' request_id
    → (fix_command (hub_request tenant h.device_id dev (request_suffix request_id name))
        >>= (λ local. response_status_topic local status)
        >>= response_topic h)
      ≡ ok (
          (if is_empty h.prefix then [] else h.prefix ++ codes "/")
          ++ (codes "command/"
              ++ ((h.tenant_id ++ (codes "/" ++ (h.device_id ++ codes "/")))
                  ++ dev
                  ++ (codes "/res/" ++ (request_id ++ (codes "/" ++ status))))))
status_response_returns h tenant dev request_id name status g ht hg hd ne hr =
    let device = h.device_id ++ (codes ":" ++ dev) in
    let suffix = request_suffix request_id name in
    let fixed =
      fix_command_qualifies (codes "command") tenant h.device_id dev (codes "req/" ++ suffix)
        (ground arith) ht hg hd ne in
    let answered =
      response_status_topic-long device request_id name status
        (Lacks-append b'/' h.device_id (codes ":" ++ dev) hg (omega arith, hd)) hr in
    rw (fixed, answered)
      (response_topic-generic h false dev (request_id ++ (codes "/" ++ status)) g hg hd)
