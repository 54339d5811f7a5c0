-- ===== src/Config/Setup.antt =====
-- config/connections.go: what is set up beside the connections. The environment's variables are given,
-- and so are the parsers of addresses; the router is a library's.
mod Tests
use suite_connector.Prelude.{
  ℕ, ◌*◌, ◌⊎◌, inl, inr, Bool, true, false, Option, none, some, List, [], ◌∷◌, ◌++◌, if◌then◌else◌,
  ◌≡◌, ◌↔◌, arith, Option-cases, Bool-cases,
}
use suite_connector.Prelude.Int.{ℤ, pos, ltb_ℤ}
use suite_connector.Prelude.Text.{Text, codes, is_empty, has_suffix, split}
use suite_connector.Util.Timeout.{second}
use suite_connector.Connector.Subscriber.{Subscriber, new_buffered_subscriber}
use suite_connector.Connector.Publisher.{Publisher, new_sync_publisher}
use suite_connector.Config.Settings.{is_connection_secure}
use suite_connector.Config.Connections.{in_seconds}
use suite_connector.Config.Tls.{
  Surroundings, TlsFault, TlsConfig, new_ca_pool, new_fs_tls_config, new_local_tls_config,
}

-- AWS, over the host name of an address that can be parsed
unfoldable pub is_aws : Option Text → Bool
is_aws none = false
is_aws (some host) = has_suffix host (codes "amazonaws.com")

-- The middleware of a router, outermost first.
pub data Middleware : Type 0 where
  recoverer : Middleware
  trace : List Text → Middleware

-- SetupTracing, over TRACE_TOPIC_PREFIX
unfoldable pub setup_tracing : Text → List Middleware
setup_tracing prefixes =
    if is_empty prefixes then recoverer ∷ [] else recoverer ∷ trace (split prefixes b',') ∷ []

pub data LocalTlsFault : Type 0 where
  address_invalid : LocalTlsFault
  tls_fault : Option TlsFault → LocalTlsFault

-- SetupLocalTLS, over the scheme of an address that can be parsed: the TLS configuration, or none.
unfoldable pub setup_local_tls :
    Surroundings → Option Text → Text → Text → Text → LocalTlsFault ⊎ Option TlsConfig
setup_local_tls e none ca cert key = inl address_invalid
setup_local_tls e (some scheme) ca cert key =
    let r = new_local_tls_config e ca cert key in
    let secured : LocalTlsFault ⊎ Option TlsConfig = elim r.config [
      | none ↦ inl (tls_fault r.fault)
      | some c ↦ inr (some c)
    ] in
    if is_connection_secure scheme then secured else inr none

-- NewOnlineHonoPub: the time-out of the acknowledgement, over HUB_PUBLISH_ACK_TIMEOUT
unfoldable pub ack_timeout : Option ℤ → ℤ
ack_timeout none = pos (15 * second)
ack_timeout (some t) = if ltb_ℤ (pos 0) t then in_seconds t else pos (15 * second)

-- NewHonoSub
abbrev pub new_hono_sub : Subscriber
new_hono_sub = new_buffered_subscriber 256 false

-- A configuration exactly for a secure scheme, which verifies the broker against the CA.
abbrev pub IsVerifying : Text → Text → Option TlsConfig → Type 0
IsVerifying scheme ca none = is_connection_secure scheme ≡ false
IsVerifying scheme ca (some c) =
    (is_connection_secure scheme ≡ true) × (c.skips_verify ≡ false) × (c.root_ca ≡ ca)

-- Where the address of the local broker is secure, its connection is set up with a TLS configuration
-- that verifies the broker against the CA, or not at all; elsewhere it has none.
pub setup_local_tls_verifies :
    (e : Surroundings) (scheme ca cert key : Text) (o : Option TlsConfig)
    → setup_local_tls e (some scheme) ca cert key ≡ inr o
    → IsVerifying scheme ca o
unfolding setup_local_tls new_local_tls_config new_ca_pool new_fs_tls_config
setup_local_tls_verifies e scheme ca cert key o made = ground (arith, made)
