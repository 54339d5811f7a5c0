-- ===== src/Config/Connections/Cleaned.antt =====
-- What CreateHubConnection does with the clean-up function of its TLS set-up.
use suite_connector.Prelude.{
  ℕ, ◌≡◌, refl, Bool, true, Bool-cases, Option, Option-cases, inl, inr, List, [], ◌∷◌, false, arith,
}
use suite_connector.Prelude.Text.{Text, is_empty}
use suite_connector.Connector.Config.{Configuration}
use suite_connector.Config.Settings.{HubConnectionSettings, is_connection_secure}
use suite_connector.Config.Connections.{
  HubEnvironment, HubConnection, certificates, cleaned, handed_out, hub_base, with_client_id,
  finish_connection, finish_named, finish_certified, finish_secure, create_hub_connection,
}

-- The clean-up function is handed out with a connection, and is called where there is none.
abbrev pub IsCleaned : HubConnection → Type 0
IsCleaned h = h.cleaner ≡ (elim h.result [ inl fault ↦ cleaned | inr options ↦ handed_out ])

module _ {F : Type 0} (below_one : F → Bool) (parses : Text → Bool) (uuid : Text)
    (replace_pattern : Text → ℕ → Option Text) (is_namespaced : Text → Bool) where
  finish_connection-IsCleaned :
      (c : Configuration F) (s : HubConnectionSettings)
      → c.uses_tls ≡ true
      → IsCleaned (finish_connection below_one parses uuid replace_pattern is_namespaced c s)
  unfolding finish_connection
  finish_connection-IsCleaned c s tls = ground (arith, tls)

  finish_certified-IsCleaned :
      (c : Configuration F) (certificate : ℕ) (s : HubConnectionSettings)
      → c.uses_tls ≡ true
      → IsCleaned
          (finish_certified below_one parses uuid replace_pattern is_namespaced c certificate s)
  unfolding finish_certified
  finish_certified-IsCleaned c certificate s tls =
      elim (Bool-cases (is_empty s.device_id_pattern)) [
        | inl without ↦ rw without (finish_connection-IsCleaned c s tls)
        | inr pattern ↦ elim (Option-cases (replace_pattern s.device_id_pattern certificate)) [
          | inl missing ↦ rw (pattern, missing) refl
          | inr (device, found) ↦ elim (Bool-cases (is_namespaced device)) [
            | inl good ↦
                rw (pattern, found, good)
                  (finish_connection-IsCleaned c (record s { device_id = device }) tls)
            | inr bad ↦ rw (pattern, found, bad) refl
          ]
        ]
      ]

  -- Once the TLS of a secure connection is set up, its clean-up function is handed out if there is a
  -- connection, and is called on each path on which there is none.
  pub create_hub_connection-IsCleaned :
      (two : F) (url scheme fresh : Text) (env : HubEnvironment F) (nop_store : Bool)
      (certs : List ℕ) (given : HubConnectionSettings)
      → is_connection_secure scheme ≡ true
      → IsCleaned (
          create_hub_connection below_one parses uuid replace_pattern is_namespaced two url scheme
            fresh env nop_store
            (certificates certs)
            given)
  unfolding create_hub_connection finish_secure finish_named
  create_hub_connection-IsCleaned two url scheme fresh env nop_store [] given secure = rw secure (
      finish_connection-IsCleaned _
        (record (with_client_id fresh given) { use_certificate = false }) refl)
  create_hub_connection-IsCleaned two url scheme fresh env nop_store (c ∷ certs) given secure =
      rw secure (
        finish_certified-IsCleaned (record (hub_base two url env nop_store) { uses_tls = true }) c
          (with_client_id fresh given) refl)
