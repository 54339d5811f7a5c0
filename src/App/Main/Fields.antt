-- ===== src/App/Main/Fields.antt =====
-- config/settings.go: the fields of the settings that package mergo finds by their names, those of the
-- embedded structs among them.
use suite_connector.Prelude.{
  ◌≡◌, ◌≢◌, refl, Bool, true, false, ◌&&◌, Option, none, some, List, [], ◌∷◌, All, arith,
}
use suite_connector.Prelude.Text.{replace_from, Text, codes, text_eq, text_eq_iff}
use suite_connector.Prelude.Dict.{lookup}
use suite_connector.Logger.{upper}
use suite_connector.Flags.{
  Value, text, number, word, level, truth, texts, Flag, add, add_log, add_hub, add_tls,
  add_local_broker, copy_name,
}
use suite_connector.Flags.Names.{key, is_known, known, every, every-All}
use suite_connector.Config.Files.{Settings}

unfoldable pub fields_of : Settings → List (Text × Value)
fields_of s =
    (codes "LogFile", text s.log_file)
    ∷ (codes "LogLevel", level s.log_level)
    ∷ (codes "LogFileSize", number s.log.log_file_size)
    ∷ (codes "LogFileCount", number s.log.log_file_count)
    ∷ (codes "LogFileMaxAge", number s.log.log_file_max_age)
    ∷ (codes "DeviceID", text s.hub.device_id)
    ∷ (codes "DeviceIDPattern", text s.hub.device_id_pattern)
    ∷ (codes "TenantID", text s.hub.tenant_id)
    ∷ (codes "PolicyID", text s.hub.policy_id)
    ∷ (codes "Address", text s.hub.address)
    ∷ (codes "Password", text s.hub.password)
    ∷ (codes "Username", text s.hub.username)
    ∷ (codes "ClientID", text s.hub.client_id)
    ∷ (codes "AuthID", text s.hub.auth_id)
    ∷ (codes "Generic", truth s.hub.generic)
    ∷ (codes "UseCertificate", truth s.hub.use_certificate)
    ∷ (codes "AutoProvisioningEnabled", truth s.hub.auto_provisioning_enabled)
    ∷ (codes "CACert", text s.hub.ca_cert)
    ∷ (codes "Cert", text s.hub.cert)
    ∷ (codes "Key", text s.hub.key)
    ∷ (codes "Alpn", texts s.hub.alpn)
    ∷ (codes "TPMKey", text s.hub.tpm_key)
    ∷ (codes "TPMKeyPub", text s.hub.tpm_key_pub)
    ∷ (codes "TPMHandle", word s.hub.tpm_handle)
    ∷ (codes "TPMDevice", text s.hub.tpm_device)
    ∷ (codes "LocalAddress", text s.local.local_address)
    ∷ (codes "LocalUsername", text s.local.local_username)
    ∷ (codes "LocalPassword", text s.local.local_password)
    ∷ (codes "LocalCACert", text s.local.local_ca_cert)
    ∷ (codes "LocalCert", text s.local.local_cert)
    ∷ (codes "LocalKey", text s.local.local_key)
    ∷ (codes "ProvisioningFile", text s.provisioning_file)
    ∷ []

abbrev pub field : Settings → Text → Option Value
field s name = lookup name (fields_of s)

abbrev is_some {ℓ} : {A : Type ℓ} → Option A → Bool
is_some none = false
is_some (some a) = true

-- The flag is known, its key names its field, and the settings have that field.
abbrev pub IsReady : Settings → Flag → Type 0
IsReady s f = (is_known f.name ≡ true) × (key f.name ≡ f.field) × (field s f.field ≢ none)

abbrev ready : Settings → Flag → Bool
ready s f = is_known f.name && (text_eq (key f.name) f.field && is_some (field s f.field))

ready-IsReady : (s : Settings) (f : Flag) → ready s f ≡ true → IsReady s f
ready-IsReady s f h = (
  ground (arith, h),
  (text_eq_iff (key f.name) f.field).0 (ground (arith, h)),
  λ missing. ground (arith, h, missing),
)

ready_flags : (s : Settings) → every (ready s) add ≡ true
unfolding fields_of lookup add add_log add_hub add_tls add_local_broker copy_name replace_from upper
    known text_eq
ready_flags s = refl

pub add-IsReady : (s : Settings) → All (IsReady s) add
add-IsReady s = every-All (ready s) add (ready-IsReady s) (ready_flags s)
