-- ===== src/Routing/Events/Laws.antt =====
-- The topic at the hub, for direct connections and for generic gateways.
use suite_connector.Prelude.{
  ℕ, ◌≡◌, refl, ap, ◌∙◌, Bool, true, false, Option-cases, inl, inr, not, ◌&&◌, some, List, [], ◌∷◌,
  ◌++◌, arith, if◌then◌else◌,
}
use suite_connector.Prelude.Text.{
  Text, codes, is_empty, split, split-append, Lacks, Lacks-append, text_eq,
}
use suite_connector.Prelude.Outcome.{ok, Outcome-cases}
use suite_connector.Connector.Context.{Message, topic_from_ctx, with_topic}
use suite_connector.Routing.Gateway.Laws.{join_tail-split, strip_gateway_id_qualified}
use suite_connector.Routing.Events.{
  EventsHandler, segment_or, message_type, hub_device, event_topic, handle_event,
}

-- The two kinds of message, with the names that local clients and the hub give them.
pub data Kind : Type 0 where
  event telemetry : Kind

abbrev pub hub_name : Kind → Text
hub_name event = codes "event"
hub_name telemetry = codes "telemetry"

-- The local name, short or long.
abbrev pub local_name : Kind → Bool → Text
local_name event true = codes "e"
local_name event false = codes "event"
local_name telemetry true = codes "t"
local_name telemetry false = codes "telemetry"

abbrev pub or_default : Text → Text → Text
or_default default [] = default
or_default default (c ∷ s) = c ∷ s

split-local_name :
    (k : Kind) (short : Bool) (s : Text)
    → split (local_name k short ++ (b'/' ∷ s)) b'/' ≡ local_name k short ∷ split s b'/'
split-local_name event true s = split-append (codes "e") s b'/' (ground arith)
split-local_name event false s = split-append (codes "event") s b'/' (ground arith)
split-local_name telemetry true s = split-append (codes "t") s b'/' (ground arith)
split-local_name telemetry false s = split-append (codes "telemetry") s b'/' (ground arith)

message_type-local_name :
    (k : Kind) (short : Bool) (ws : List Text) → message_type (local_name k short ∷ ws) ≡ hub_name k
unfolding message_type text_eq
message_type-local_name event true ws = refl
message_type-local_name event false ws = refl
message_type-local_name telemetry true ws = refl
message_type-local_name telemetry false ws = refl

or_default_middle : (d s : Text) (c : ℕ) (t : Text) → or_default d (s ++ c ∷ t) ≡ s ++ c ∷ t
or_default_middle d [] c t = refl
or_default_middle d (a ∷ s) c t = refl

abbrev pub local_topic : Kind → Bool → Text → Text → Text → Text
local_topic k short tenant dev rest =
    local_name k short ++ (b'/' ∷ (tenant ++ (b'/' ∷ (dev ++ (b'/' ∷ rest)))))

split-local_topic :
    (k : Kind) (short : Bool) (tenant dev rest : Text)
    → Lacks b'/' tenant
    → Lacks b'/' dev
    → split (local_topic k short tenant dev rest) b'/'
      ≡ local_name k short ∷ tenant ∷ dev ∷ split rest b'/'
split-local_topic k short tenant dev rest ht hd = rw (
  split-local_name k short (tenant ++ (b'/' ∷ (dev ++ (b'/' ∷ rest)))),
  split-append tenant (dev ++ (b'/' ∷ rest)) b'/' ht,
  split-append dev rest b'/' hd,
)

segment_or-tenant : (d a t : Text) (ws : List Text) → segment_or d (a ∷ t ∷ ws) 1 ≡ or_default d t
unfolding segment_or
segment_or-tenant d a [] ws = refl
segment_or-tenant d a (c ∷ t) ws = refl

segment_or-device :
    (d a t v : Text) (ws : List Text) → segment_or d (a ∷ t ∷ v ∷ ws) 2 ≡ or_default d v
unfolding segment_or
segment_or-device d a t [] ws = refl
segment_or-device d a t (c ∷ v) ws = refl

-- The prefix that the environment sets, which a generic gateway alone writes.
abbrev pub written_prefix : EventsHandler → Text
written_prefix h = if h.generic && not (is_empty h.prefix) then h.prefix ++ codes "/" else []

written_prefix-direct : (h : EventsHandler) → h.generic ≡ false → written_prefix h ≡ []
written_prefix-direct h g = ground arith

event_topic_hub :
    (h : EventsHandler) (k : Kind) (short : Bool) (tenant dev rest hub : Text)
    → Lacks b'/' tenant
    → Lacks b'/' dev
    → hub_device h (or_default h.device_id dev) ≡ ok hub
    → event_topic h (local_topic k short tenant dev rest)
      ≡ ok (
          written_prefix h
          ++ (hub_name k
              ++ (codes "/"
                  ++ (or_default h.tenant_id tenant ++ (codes "/" ++ (hub ++ (b'/' ∷ rest)))))))
unfolding event_topic
event_topic_hub h k short tenant dev rest hub ht hd e = rw (
  event_topic,
  split-local_topic k short tenant dev rest ht hd,
  segment_or-device h.device_id (local_name k short) tenant dev (split rest b'/'),
  e,
  message_type-local_name k short (tenant ∷ dev ∷ split rest b'/'),
  segment_or-tenant h.tenant_id (local_name k short) tenant (dev ∷ split rest b'/'),
  join_tail-split rest,
)

-- Over a direct connection, for a tenant and a device without a slash, the kind is written out, an
-- empty tenant or device is filled in, no prefix is written, and all that follows is kept.
pub event_topic-direct :
    (h : EventsHandler) (k : Kind) (short : Bool) (tenant dev rest : Text)
    → h.generic ≡ false
    → Lacks b'/' tenant
    → Lacks b'/' dev
    → event_topic h (local_topic k short tenant dev rest)
      ≡ ok (
          hub_name k
          ++ (codes "/"
              ++ (or_default h.tenant_id tenant
                  ++ (codes "/" ++ (or_default h.device_id dev ++ (b'/' ∷ rest))))))
event_topic-direct h k short tenant dev rest g ht hd =
    event_topic_hub h k short tenant dev rest (or_default h.device_id dev) ht hd
      (unfold hub_device in rw g)
    ∙ ap (λ (p : Text). ok (p ++ tail)) (written_prefix-direct h g)
  where
    tail : Text
    tail =
        hub_name k
        ++ (codes "/"
            ++ (or_default h.tenant_id tenant
                ++ (codes "/" ++ (or_default h.device_id dev ++ (b'/' ∷ rest)))))

-- Over a generic gateway, for a tenant, a gateway and a device without a slash, a device behind the
-- gateway's name is written as a segment of its own, behind the prefix that the environment sets.
pub event_topic-generic :
    (h : EventsHandler) (k : Kind) (short : Bool) (tenant device rest : Text)
    → h.generic ≡ true
    → Lacks b'/' tenant
    → Lacks b'/' h.device_id
    → Lacks b'/' device
    → event_topic h (local_topic k short tenant (h.device_id ++ (codes ":" ++ device)) rest)
      ≡ ok (
          written_prefix h
          ++ (hub_name k
              ++ (codes "/"
                  ++ (or_default h.tenant_id tenant
                      ++ (codes "/"
                          ++ ((h.device_id ++ (codes "/" ++ device)) ++ (b'/' ∷ rest)))))))
event_topic-generic h k short tenant device rest g ht hg hd =
    event_topic_hub h k short tenant (h.device_id ++ (codes ":" ++ device)) rest
      (h.device_id ++ (codes "/" ++ device)) ht
      (Lacks-append b'/' h.device_id (codes ":" ++ device) hg (omega arith, hd))
      (rw or_default-colon
        (unfold hub_device in rw (g, strip_gateway_id_qualified h.device_id device)))
  where
    or_default-colon :
        or_default h.device_id (h.device_id ++ (codes ":" ++ device))
        ≡ h.device_id ++ (codes ":" ++ device)
    or_default-colon = or_default_middle h.device_id h.device_id b':' device

-- HandleEvent republishes the one message under its topic at the hub, with its payload and its
-- identifier, or fails; a message with no topic fails.
pub handle_event-ok :
    (h : EventsHandler) (msg : Message) (out : List Message)
    → handle_event h msg ≡ ok out
    → (local hub : Text) × (topic_from_ctx msg.ctx ≡ some local)
      × (event_topic h local ≡ ok hub)
      × (out ≡ with_topic msg hub ∷ [])
unfolding handle_event
handle_event-ok h msg out e = elim (Option-cases (topic_from_ctx msg.ctx)) [
  | inl missing ↦ absurd (ground arith)
  | inr (local, found) ↦ elim (Outcome-cases (event_topic h local)) [
    | inl (hub, q) ↦ (local, hub, found, q, ground arith)
    | inr failed ↦ absurd (ground arith)
  ]
]
