-- ===== src/Config/Setup/Tests.antt =====
-- The set-up of the local TLS at a concrete input.
use suite_connector.Prelude.{refl, true, false, some}
use suite_connector.Prelude.Text.{codes, text_eq}
use suite_connector.Config.Settings.{is_connection_secure}
use suite_connector.Config.Tls.{
  Surroundings, TlsConfig, key_pair, config_of, new_ca_pool, new_fs_tls_config,
  new_local_tls_config,
}
use suite_connector.Config.Setup.{setup_local_tls, IsVerifying, setup_local_tls_verifies}

abbrev surroundings : Surroundings
surroundings = record {
  ca_read = λ ca. true;
  ca_parsed = λ ca. true;
  pair_loaded = λ cert key. true;
  tpm_opened = λ device. false;
  rw_taken = false;
  context_made = false;
  tpm_config = false;
  context_closed = false;
}

abbrev config : TlsConfig
config = config_of (codes "ca.crt") (key_pair (codes "a.crt") (codes "a.key"))

setup_local_tls_verifies_example : IsVerifying (codes "tls") (codes "ca.crt") (some config)
unfolding setup_local_tls new_local_tls_config new_ca_pool new_fs_tls_config is_connection_secure
    text_eq
setup_local_tls_verifies_example =
    setup_local_tls_verifies surroundings (codes "tls") (codes "ca.crt") (codes "a.crt")
      (codes "a.key") (some config) refl
