-- ===== src/Config/Tls/Tests.antt =====
-- The properties at concrete inputs.
use suite_connector.Prelude.{◌≡◌, refl, true, false, inr, inl, none, some, [], ◌++◌}
use suite_connector.Prelude.Text.{codes}
use suite_connector.Config.Tls.{
  TlsSettings, TlsConfig, Surroundings, new_ca_pool, new_hub_tls_config0, new_tpm_tls_config, clean,
  new_hub_tls_config,
}
use suite_connector.Config.Tls.Cleans.{
  openings, closings, new_hub_tls_config_cleans, new_hub_tls_config_leaks,
}

-- A TPM that has no context.
abbrev surroundings : Surroundings
surroundings = record {
  ca_read = λ f. true;
  ca_parsed = λ f. true;
  pair_loaded = λ c k. true;
  tpm_opened = λ d. true;
  rw_taken = true;
  context_made = false;
  tpm_config = true;
  context_closed = true;
}

abbrev settings : TlsSettings
settings = record {
  ca_cert = codes "ca.pem";
  cert = [];
  key = [];
  alpn = [];
  tpm_device = codes "/dev/tpmrm0";
}

abbrev working : Surroundings
working = record surroundings { context_made = true }

new_hub_tls_config_cleans_example :
    let r = new_hub_tls_config working settings in
    (c : TlsConfig) × (r.config ≡ some c)
    × (c.skips_verify ≡ false)
    × (c.root_ca ≡ codes "ca.pem")
    × (c.next_protos ≡ [])
    × (openings (r.uses ++ clean working r.cleaner) ≡ closings (r.uses ++ clean working r.cleaner))
unfolding new_hub_tls_config new_hub_tls_config0 new_ca_pool new_tpm_tls_config
new_hub_tls_config_cleans_example = new_hub_tls_config_cleans working settings refl

new_hub_tls_config_leaks_example :
    let r = new_hub_tls_config surroundings settings in
    (r.config ≡ none)
    × (openings (r.uses ++ clean surroundings r.cleaner) ≡ 1)
    × (closings (r.uses ++ clean surroundings r.cleaner) ≡ 0)
unfolding new_ca_pool
new_hub_tls_config_leaks_example =
    new_hub_tls_config_leaks surroundings settings refl refl refl (inr (inl refl))
