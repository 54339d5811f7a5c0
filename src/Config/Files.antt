-- ===== src/Config/Files.antt =====
-- config/settings.go: the settings as a whole, their defaults and check, and the reading of the files.
-- The file system and the parsers of addresses and of JSON are arguments.
use suite_connector.Prelude.{
  ℕ, ◌⊎◌, inl, inr, Bool, true, false, not, Option, none, some, [], if◌then◌else◌,
}
use suite_connector.Prelude.Int.{pos}
use suite_connector.Prelude.Text.{Text, codes, is_empty}
use suite_connector.Logger.{LogSettings, LogFault, info_level}
use suite_connector.Logger as Logger
use suite_connector.Config.Settings.{HubConnectionSettings, SettingsFault, validate_static}
use suite_connector.Config.Settings as HubSettings
use suite_connector.Config.Connections.{LocalConnectionSettings}

pub record Settings : Type 0 where
  pub log_file : Text
  pub log_level : ℕ
  pub log : LogSettings
  pub hub : HubConnectionSettings
  pub local : LocalConnectionSettings
  pub provisioning_file : Text

-- The fields of the settings of the hub that are empty by default.
abbrev pub default_hub : HubConnectionSettings
default_hub = record {
  device_id = [];
  device_id_pattern = [];
  tenant_id = [];
  policy_id = [];
  address = codes "mqtts://mqtt.bosch-iot-hub.com:8883";
  password = [];
  username = [];
  client_id = [];
  auth_id = [];
  generic = false;
  use_certificate = false;
  auto_provisioning_enabled = true;
  ca_cert = codes "iothub.crt";
  cert = [];
  key = [];
  alpn = [];
  tpm_key = [];
  tpm_key_pub = [];
  tpm_handle = 0;
  tpm_device = [];
}

abbrev pub default_settings : Settings
default_settings = record {
  log_file = codes "log/suite-connector.log";
  log_level = info_level;
  log = record { log_file_size = pos 2; log_file_count = pos 5; log_file_max_age = pos 28 };
  hub = default_hub;
  local = record {
    local_address = codes "tcp://localhost:1883";
    local_username = [];
    local_password = [];
    local_ca_cert = [];
    local_cert = [];
    local_key = [];
  };
  provisioning_file = codes "provisioning.json";
}

pub data StaticFault : Type 0 where
  log_invalid : LogFault → StaticFault
  no_local_address : StaticFault
  hub_invalid : SettingsFault → StaticFault

-- LocalConnectionSettings.Validate
unfoldable pub validate_local : LocalConnectionSettings → Option StaticFault
validate_local s = if is_empty s.local_address then some no_local_address else none

-- ValidateStatic, over the scheme of an address that can be parsed.
unfoldable pub validate_static_settings :
    (Text → Bool) → (Text → Option Text) → Settings → Option StaticFault
unfolding validate_local
validate_static_settings file_exists scheme s = elim (Logger.validate s.log) [
  | some fault ↦ some (log_invalid fault)
  | none ↦ elim (validate_local s.local) [
    | some fault ↦ some fault
    | none ↦ elim (validate_static file_exists (scheme s.hub.address) s.hub) [
      | some fault ↦ some (hub_invalid fault)
      | none ↦ none
    ]
  ]
]

-- ValidateDynamic
unfoldable pub validate_dynamic : (Text → Bool) → Settings → Option SettingsFault
validate_dynamic is_namespaced s = HubSettings.validate is_namespaced s.hub

pub data FileFault : Type 0 where
  no_struct_pointer unreadable not_json : FileFault

module _ (file_exists : Text → Bool) (read_file : Text → Option Text) where
  -- ReadConfig into a struct, which `decode` fills; a file that is missing or empty leaves it.
  unfoldable pub read_config :
      (Text → Settings → Option Settings) → Bool → Text → Settings → FileFault ⊎ Settings
  read_config decode is_struct_pointer path s =
      let filled : FileFault ⊎ Settings = elim (read_file path) [
        | none ↦ inl unreadable
        | some content ↦
            if is_empty content
            then inr s
            else elim (decode content s) [ none ↦ inl not_json | some s' ↦ inr s' ]
      ] in
      if not is_struct_pointer
      then inl no_struct_pointer
      else if file_exists path
      then filled
      else inr s

  -- ReadProvisioning, over ParseProvisioningJSON.
  unfoldable pub read_provisioning :
      (Text → HubConnectionSettings → Option HubConnectionSettings)
      → Text
      → HubConnectionSettings
      → Option HubConnectionSettings
  read_provisioning parse path s =
      if file_exists path
      then elim (read_file path) [ none ↦ none | some content ↦ parse content s ]
      else some s
