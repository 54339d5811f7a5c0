-- ===== src/Config/Tls/Cleans.antt =====
-- What is left of the TPM when a TLS configuration is made, and cleaned up.
use suite_connector.Prelude.{
  ℕ, ◌+◌, ◌≡◌, ◌⊎◌, true, false, Option-cases, inl, inr, none, some, List, [], ◌∷◌, ◌++◌, arith,
}
use suite_connector.Prelude.Text.{is_empty}
use suite_connector.Config.Tls.{
  TlsSettings, TlsConfig, TpmUse, opens, closes, Surroundings, new_ca_pool, new_fs_tls_config,
  new_tpm_tls_config, clean, new_hub_tls_config0, new_hub_tls_config,
}

unfoldable pub openings : List TpmUse → ℕ
openings [] = 0
openings (opens ∷ us) = openings us + 1
openings (_ ∷ us) = openings us

unfoldable pub closings : List TpmUse → ℕ
closings [] = 0
closings (closes ∷ us) = closings us + 1
closings (_ ∷ us) = closings us

-- Without a fault there is a configuration for the hub: it verifies the other side against the CA of
-- the settings, and its clean-up function closes the TPM as often as it was opened, whether the context
-- closes well or not.
pub new_hub_tls_config_cleans :
    (e : Surroundings) (s : TlsSettings)
    → (new_hub_tls_config e s).fault ≡ none
    → let r = new_hub_tls_config e s in
      (c : TlsConfig) × (r.config ≡ some c)
      × (c.skips_verify ≡ false)
      × (c.root_ca ≡ s.ca_cert)
      × (c.next_protos ≡ s.alpn)
      × (openings (r.uses ++ clean e r.cleaner) ≡ closings (r.uses ++ clean e r.cleaner))
unfolding new_hub_tls_config new_hub_tls_config0 new_ca_pool new_fs_tls_config new_tpm_tls_config
    clean openings closings
new_hub_tls_config_cleans e s no_fault = elim (Option-cases (new_hub_tls_config e s).config) [
  | inl missing ↦ absurd (ground (arith, no_fault, missing))
  | inr (c, found) ↦
      let facts : (c.skips_verify ≡ false)
          × (c.root_ca ≡ s.ca_cert)
          × (c.next_protos ≡ s.alpn)
          × (openings ((new_hub_tls_config e s).uses ++ clean e (new_hub_tls_config e s).cleaner)
              ≡ closings
                  ((new_hub_tls_config e s).uses ++ clean e (new_hub_tls_config e s).cleaner)) =
        ground (arith, found, no_fault) in
      (c, found, facts.0, facts.1, facts.2, facts.3)
]

-- A TPM that is opened, and whose reader and writer, context or configuration cannot be had, is left
-- open: NewHubTLSConfig fails and gives no clean-up function.
pub new_hub_tls_config_leaks :
    (e : Surroundings) (s : TlsSettings)
    → new_ca_pool e s.ca_cert ≡ none
    → is_empty s.tpm_device ≡ false
    → e.tpm_opened s.tpm_device ≡ true
    → (e.rw_taken ≡ false) ⊎ ((e.context_made ≡ false) ⊎ (e.tpm_config ≡ false))
    → let r = new_hub_tls_config e s in
      (r.config ≡ none)
      × (openings (r.uses ++ clean e r.cleaner) ≡ 1)
      × (closings (r.uses ++ clean e r.cleaner) ≡ 0)
unfolding new_hub_tls_config new_hub_tls_config0 new_tpm_tls_config clean openings closings
new_hub_tls_config_leaks e s ca dev op missing = ground arith
