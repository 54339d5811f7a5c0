-- ===== src/Routing/Buses/Echo.antt =====
-- What the launcher's router sends to the local broker does not come back to it.
use suite_connector.Prelude.{
  ℕ, ◌≡◌, ◌≢◌, refl, Bool, true, false, ◌&&◌, ◌||◌, Option, some, List, [], ◌∷◌, ◌++◌, All, arith,
  subst, sym, if◌then◌else◌,
}
use suite_connector.Prelude.Text.{
  Text, codes, is_empty, text_eq, split, split-append, Lacks, Lacks-append,
}
use suite_connector.Prelude.Outcome.{Outcome, ok}
use suite_connector.Connector.Context.{Message, topic_from_ctx, with_topic, set_topic_to_ctx}
use suite_connector.Connector.Connection.{parse_subs}
use suite_connector.Connector.Publisher.{publish_topic}
use suite_connector.Routing.Commands.Defs.{RequestCache, Headers, handle_request, forward_request}
use suite_connector.Routing.Commands.Request.{
  long_request, short_request, hub_request, forward_request-direct, forward_request-generic,
}
use suite_connector.Routing.Buses.{
  Source, hono_sub, Bus, GwParams, Environment, commands_req_bus, launcher_buses, events_bus,
  telemetry_bus, commands_res_bus, params_bus, request_handler,
}

-- MQTT's rule for the segments of a filter and of a topic: `+` stands for one, `#` for all the rest.
unfoldable pub matches : List Text → List Text → Bool
unfolding text_eq
matches [] [] = true
matches [] (t ∷ ts) = false
matches (f ∷ fs) ts =
    let rest : Bool = elim ts [
      | [] ↦ false
      | t ∷ ts' ↦ (text_eq f (codes "+") || text_eq f t) && matches fs ts'
    ] in
    text_eq f (codes "#") || rest

unfoldable pub any_matches : List Text → List Text → Bool
any_matches [] topic = false
any_matches (f ∷ fs) topic = matches (split f b'/') topic || any_matches fs topic

-- The bus is subscribed to the topic of these segments, by one of its filters.
unfoldable pub takes : {S : Type 0} → Bus S → List Text → Bool
takes b topic = any_matches (parse_subs b.subscribe_topic) topic

abbrev is_local : Source → Bool
is_local hono_sub = false
is_local _ = true

-- Some bus takes the topic from the local broker.
unfoldable pub takes_locally : {S : Type 0} → List (Bus S) → List Text → Bool
takes_locally [] topic = false
takes_locally (b ∷ bs) topic = (is_local b.subscriber && takes b topic) || takes_locally bs topic

split-long :
    (dev suffix : Text)
    → Lacks b'/' dev
    → split (long_request dev suffix) b'/'
      ≡ codes "command" ∷ [] ∷ dev ∷ codes "req" ∷ split suffix b'/'
unfolding split
split-long dev suffix h =
    let kind =
      split-append (codes "command") (b'/' ∷ (dev ++ (codes "/req/" ++ suffix))) b'/'
        (ground arith) in
    rw
      (
        kind,
        split-append dev (codes "req/" ++ suffix) b'/' h,
        split-append (codes "req") suffix b'/' (ground arith),
      )
      refl

split-short :
    (dev suffix : Text)
    → Lacks b'/' dev
    → split (short_request dev suffix) b'/' ≡ codes "c" ∷ [] ∷ dev ∷ codes "q" ∷ split suffix b'/'
unfolding split
split-short dev suffix h =
    rw
      (
        split-append dev (codes "q/" ++ suffix) b'/' h,
        split-append (codes "q") suffix b'/' (ground arith),
      )
      refl

-- The topic of the context goes before the bus's own.
publish_topic-ctx :
    (topic : Text) (msg : Message) (t : Text)
    → topic_from_ctx msg.ctx ≡ some t
    → is_empty t ≡ false
    → publish_topic topic msg ≡ t
unfolding publish_topic
publish_topic-ctx topic msg t given ne = ground (arith, given, ne)

module _ (cache : RequestCache) (decode : Text → Option Headers) (tenant device : Text)
    (generic : Bool) where
  open cache use {Store}

  -- What the request bus answers is what the handler makes of the topic.
  request_answer :
      (now : ℕ) (msg : Message) (s : Store) (topic : Text) (out : List Message)
      → topic_from_ctx msg.ctx ≡ some topic
      → ((commands_req_bus cache decode tenant device generic).handle now msg s).1 ≡ ok out
      → forward_request (request_handler cache decode tenant device generic) msg topic ≡ ok out
  unfolding commands_req_bus handle_request
  request_answer now msg s topic out given e = ground (arith, given, e)

module _ (cache : RequestCache) (decode : Text → Option Headers) (encode : GwParams → Text)
    (uuid : Text) (set_timestamp : Text → ℕ → Outcome Text) (env : Environment) (params : GwParams)
    (generic : Bool) where
  open cache use {Store}

  abbrev buses : List (Bus Store)
  buses = launcher_buses cache decode encode uuid set_timestamp env params generic

  long_quiet :
      (dev : Text) (rest : List Text)
      → takes_locally buses (codes "command" ∷ [] ∷ dev ∷ codes "req" ∷ rest) ≡ false
  unfolding takes_locally takes launcher_buses params_bus events_bus telemetry_bus commands_res_bus
      commands_req_bus parse_subs split any_matches matches text_eq
  long_quiet dev rest = refl

  short_quiet :
      (dev : Text) (rest : List Text)
      → takes_locally buses (codes "c" ∷ [] ∷ dev ∷ codes "q" ∷ rest) ≡ false
  unfolding takes_locally takes launcher_buses params_bus events_bus telemetry_bus commands_res_bus
      commands_req_bus parse_subs split any_matches matches text_eq
  short_quiet dev rest = refl

  -- No bus of the router takes what the request bus publishes of the message.
  abbrev pub IsQuiet : Message → Type 0
  IsQuiet m =
      takes_locally buses (
        let bus = commands_req_bus cache decode params.tenant_id params.device_id generic in
        split (publish_topic bus.publish_topic m) b'/')
      ≡ false

  pair-IsQuiet :
      (msg : Message) (dev suffix : Text)
      → Lacks b'/' dev
      → topic_from_ctx msg.ctx ≡ some (long_request dev suffix)
      → All IsQuiet (msg ∷ with_topic msg (short_request dev suffix) ∷ [])
  unfolding with_topic set_topic_to_ctx topic_from_ctx
  pair-IsQuiet msg dev suffix h given =
      let quiet : List Text → Type 0 = λ segments. takes_locally buses segments ≡ false in
      let bus = commands_req_bus cache decode params.tenant_id params.device_id generic in
      let short = short_request dev suffix in
      (
        subst (λ t. quiet (split t b'/'))
            (sym (publish_topic-ctx bus.publish_topic msg (long_request dev suffix) given refl))
            (subst quiet (sym (split-long dev suffix h)) (long_quiet dev (split suffix b'/'))),
        (
          subst (λ t. quiet (split t b'/'))
              (sym (publish_topic-ctx bus.publish_topic (with_topic msg short) short refl refl))
              (subst quiet (sym (split-short dev suffix h)) (short_quiet dev (split suffix b'/'))),
          tt,
        ),
      )

-- The topic of a request of the hub to a device.
abbrev pub request_topic : Bool → Text → Text → Text → Text → Text
request_topic generic tenant device dev suffix =
    if generic then hub_request tenant device dev suffix else long_request dev suffix

module _ (cache : RequestCache) (decode : Text → Option Headers) (encode : GwParams → Text)
    (uuid : Text) (set_timestamp : Text → ℕ → Outcome Text) (env : Environment)
    (params : GwParams) where
  open cache use {Store}

  -- Over a tenant, a gateway and a non-empty device without a slash, what the request bus answers to a
  -- request of the hub is published on the local broker under topics that none of the launcher's buses
  -- takes from there, so that no message goes round.
  pub commands_req_bus-IsQuiet :
      (generic : Bool) (dev suffix : Text) (now : ℕ) (msg : Message) (s : Store)
      (out : List Message)
      → let tenant = params.tenant_id in
        let device = params.device_id in
        Lacks b'/' tenant
        → Lacks b'/' device
        → Lacks b'/' dev
        → dev ≢ []
        → topic_from_ctx msg.ctx ≡ some (request_topic generic tenant device dev suffix)
        → ((commands_req_bus cache decode tenant device generic).handle now msg s).1 ≡ ok out
        → All (IsQuiet cache decode encode uuid set_timestamp env params generic) out
  commands_req_bus-IsQuiet true dev suffix now msg s out ht hg hd ne given e =
      let tenant = params.tenant_id in
      let device = params.device_id in
      let qualified = device ++ (codes ":" ++ dev) in
      let fixed = with_topic msg (long_request qualified suffix) in
      let answer =
        request_answer cache decode tenant device true now msg s
          (hub_request tenant device dev suffix) out given e in
      let made =
        forward_request-generic (request_handler cache decode tenant device true) msg tenant device
          dev suffix refl ht hg hd ne in
      let same : fixed ∷ with_topic fixed (short_request qualified suffix) ∷ [] ≡ out =
        ground (arith, answer, made) in
      subst (All (IsQuiet cache decode encode uuid set_timestamp env params true)) same (
        pair-IsQuiet cache decode encode uuid set_timestamp env params true fixed qualified suffix
          (Lacks-append b'/' device (codes ":" ++ dev) hg (omega arith, hd))
          (unfold with_topic set_topic_to_ctx topic_from_ctx in refl))
  commands_req_bus-IsQuiet false dev suffix now msg s out ht hg hd ne given e =
      let tenant = params.tenant_id in
      let device = params.device_id in
      let answer =
        request_answer cache decode tenant device false now msg s (long_request dev suffix) out
          given e in
      let made =
        forward_request-direct (request_handler cache decode tenant device false) msg dev suffix
          refl hd in
      let same : msg ∷ with_topic msg (short_request dev suffix) ∷ [] ≡ out =
        ground (arith, answer, made) in
      subst (All (IsQuiet cache decode encode uuid set_timestamp env params false)) same (
        pair-IsQuiet cache decode encode uuid set_timestamp env params false msg dev suffix hd
          given)
