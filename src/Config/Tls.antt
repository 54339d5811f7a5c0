-- ===== src/Config/Tls.antt =====
-- config/tls_config.go: the TLS configurations of the hub and of the local broker. What the files, the
-- TPM and its context give is given; what is done with the TPM is a list of uses, in order.
pub mod Cleans
mod Tests
use suite_connector.Prelude.{
  ℕ, Bool, true, false, not, ◌&&◌, Option, none, some, List, [], ◌∷◌, if◌then◌else◌,
}
use suite_connector.Prelude.Text.{Text, is_empty}

pub record TlsSettings : Type 0 where
  pub ca_cert : Text
  pub cert : Text
  pub key : Text
  pub alpn : List Text
  pub tpm_device : Text

-- Where the client's certificate comes from.
pub data Identity : Type 0 where
  no_certificate : Identity
  key_pair : Text → Text → Identity
  from_tpm : Identity

pub record TlsConfig : Type 0 where
  pub root_ca : Text
  pub skips_verify : Bool
  pub identity : Identity
  pub next_protos : List Text

pub data TlsFault : Type 0 where
  no_ca bad_ca no_key_pair : TlsFault
  no_tpm no_rw no_context no_tpm_tls : TlsFault

-- The TPM is opened and closed, its reader and writer is taken and released, and its context made and
-- closed.
pub data TpmUse : Type 0 where
  opens closes takes_rw releases_rw makes_context closes_context : TpmUse

-- The clean-up functions: none, noClean, and the closer of the TPM.
pub data Cleaner : Type 0 where
  no_cleaner no_clean tpm_closer : Cleaner

pub record TlsResult : Type 0 where
  pub uses : List TpmUse
  pub cleaner : Cleaner
  pub fault : Option TlsFault
  pub config : Option TlsConfig

-- What the surroundings answer: the CA is read and parsed, the key pair loaded, the TPM opened, its
-- reader and writer taken, its context made, and whether that gives a configuration and closes well.
pub record Surroundings : Type 0 where
  pub ca_read : Text → Bool
  pub ca_parsed : Text → Bool
  pub pair_loaded : Text → Text → Bool
  pub tpm_opened : Text → Bool
  pub rw_taken : Bool
  pub context_made : Bool
  pub tpm_config : Bool
  pub context_closed : Bool

abbrev pub fails : List TpmUse → Cleaner → TlsFault → TlsResult
fails uses cleaner f = record { uses = uses; cleaner = cleaner; fault = some f; config = none }

abbrev pub gives : List TpmUse → Cleaner → TlsConfig → TlsResult
gives uses cleaner c = record { uses = uses; cleaner = cleaner; fault = none; config = some c }

abbrev pub config_of : Text → Identity → TlsConfig
config_of ca identity = record {
  root_ca = ca;
  skips_verify = false;
  identity = identity;
  next_protos = [];
}

module _ (e : Surroundings) where
  unfoldable pub new_ca_pool : Text → Option TlsFault
  new_ca_pool ca =
      if e.ca_read ca then (if e.ca_parsed ca then none else some bad_ca) else some no_ca

  unfoldable pub new_fs_tls_config : Text → Text → Text → Cleaner → TlsResult
  new_fs_tls_config ca cert key cleaner =
      if e.pair_loaded cert key
      then gives [] cleaner (config_of ca (key_pair cert key))
      else fails [] cleaner no_key_pair

  unfoldable pub new_tpm_tls_config : TlsSettings → TlsResult
  new_tpm_tls_config s =
      if not (e.tpm_opened s.tpm_device)
      then fails [] no_cleaner no_tpm
      else if not e.rw_taken
      then fails (opens ∷ []) no_cleaner no_rw
      else if not e.context_made
      then fails (opens ∷ takes_rw ∷ []) no_cleaner no_context
      else if not e.tpm_config
      then fails (opens ∷ takes_rw ∷ makes_context ∷ []) no_cleaner no_tpm_tls
      else gives (opens ∷ takes_rw ∷ makes_context ∷ []) tpm_closer (config_of s.ca_cert from_tpm)

  -- What a clean-up function does.
  unfoldable pub clean : Cleaner → List TpmUse
  clean no_cleaner = []
  clean no_clean = []
  clean tpm_closer =
      if e.context_closed
      then closes_context ∷ releases_rw ∷ closes ∷ []
      else closes_context ∷ closes ∷ []

  unfoldable pub new_hub_tls_config0 : TlsSettings → TlsResult
  unfolding new_ca_pool new_fs_tls_config new_tpm_tls_config
  new_hub_tls_config0 s = elim (new_ca_pool s.ca_cert) [
    | some f ↦ fails [] no_cleaner f
    | none ↦
        if not (is_empty s.tpm_device)
        then new_tpm_tls_config s
        else if is_empty s.cert && is_empty s.key
        then gives [] no_clean (config_of s.ca_cert no_certificate)
        else new_fs_tls_config s.ca_cert s.cert s.key no_clean
  ]

  unfoldable pub new_hub_tls_config : TlsSettings → TlsResult
  unfolding new_hub_tls_config0
  new_hub_tls_config s =
      let r = new_hub_tls_config0 s in
      elim r.config [
        | none ↦ r
        | some c ↦ record r {
          config = some (elim s.alpn [ [] ↦ c | _ ∷ _ ↦ record c { next_protos = s.alpn } ]);
        }
      ]

  -- NewLocalTLSConfig
  unfoldable pub new_local_tls_config : Text → Text → Text → TlsResult
  unfolding new_ca_pool new_fs_tls_config
  new_local_tls_config ca cert key = elim (new_ca_pool ca) [
    | some f ↦ fails [] no_cleaner f
    | none ↦
        if is_empty cert && is_empty key
        then gives [] no_cleaner (config_of ca no_certificate)
        else new_fs_tls_config ca cert key no_cleaner
  ]
