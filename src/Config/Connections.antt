-- ===== src/Config/Connections.antt =====
-- config/connections.go: the configurations of the three connections. The environment's numbers are
-- optional arguments, in the unit in which they are written; the address is the text of the parsed
-- one. The TLS set-up and the reading of a certificate are arguments.
pub mod Valid
pub mod Cleaned
use suite_connector.Prelude.{
  ℕ, ◌*◌, ◌⊎◌, inl, inr, Bool, true, false, not, Option, none, some, List, [], ◌∷◌, ◌==◌,
  if◌then◌else◌,
}
use suite_connector.Prelude.Int.{ℤ, pos, ◌*ℤ◌, leb_ℤ}
use suite_connector.Prelude.Text.{Text, codes, is_empty}
use suite_connector.Util.Timeout.{second, minute, wrap64}
use suite_connector.Connector.Config.{
  Configuration, ConfigFault, ClientOptions, Credentials, new_mqtt_client_config,
  new_mqtt_connection,
}
use suite_connector.Config.Settings.{HubConnectionSettings, new_hub_username, is_connection_secure}

pub record LocalConnectionSettings : Type 0 where
  pub local_address : Text
  pub local_username : Text
  pub local_password : Text
  pub local_ca_cert : Text
  pub local_cert : Text
  pub local_key : Text

-- What the environment sets for the hub connection.
pub record HubEnvironment (F : Type 0) : Type 0 where
  pub connect_init : Option ℤ
  pub connect_max : Option ℤ
  pub auth_err_retries : Option ℤ
  pub multiplier : Option F

abbrev pub or_default {ℓ} : {A : Type ℓ} → A → Option A → A
or_default d none = d
or_default d (some a) = a

-- `time.Duration(n) * time.Second`
unfoldable pub in_seconds : ℤ → ℤ
in_seconds n = wrap64 (n *ℤ pos second)

abbrev pub seconds_or : ℤ → Option ℤ → ℤ
seconds_or d none = d
seconds_or d (some n) = in_seconds n

-- The part of CreateHubConnection before the credentials.
unfoldable pub hub_base : {F : Type 0} → F → Text → HubEnvironment F → Bool → Configuration F
hub_base two url env nop_store = record (new_mqtt_client_config two url) {
  external_reconnect = true;
  no_op_store = nop_store;
  connect_retry_interval = pos 0;
  auth_err_retries = or_default (pos 5) env.auth_err_retries;
  backoff_multiplier = or_default two env.multiplier;
  min_reconnect_interval = seconds_or (pos minute) env.connect_init;
  max_reconnect_interval = seconds_or (pos (4 * minute)) env.connect_max;
}

-- The settings with a name for the client, `fresh` if they have none.
unfoldable pub with_client_id : Text → HubConnectionSettings → HubConnectionSettings
with_client_id fresh given =
    if is_empty given.client_id then record given { client_id = fresh } else given

-- What NewHubTLSConfig gives: a failure, or the client's certificates.
pub data TlsSetup : Type 0 where
  tls_failed : TlsSetup
  certificates : List ℕ → TlsSetup

pub data ConnectionFault : Type 0 where
  no_tls pattern_unresolved device_invalid : ConnectionFault
  config_invalid : ConfigFault → ConnectionFault

-- What becomes of the clean-up function of the TLS set-up: there is none, it is called, or it is handed
-- out with the connection.
pub data CleanUp : Type 0 where
  no_cleaner cleaned handed_out : CleanUp

-- The settings, which are changed in place, the clean-up, and the client's options or the fault.
pub record HubConnection : Type 0 where
  pub cleaner : CleanUp
  pub settings : HubConnectionSettings
  pub result : ConnectionFault ⊎ ClientOptions

module _ {F : Type 0} (below_one : F → Bool) (parses : Text → Bool) (uuid : Text)
    (replace_pattern : Text → ℕ → Option Text) (is_namespaced : Text → Bool) where
  -- The connection, once the credentials are settled; there is a clean-up function exactly if there is
  -- a TLS configuration.
  unfoldable pub finish_connection : Configuration F → HubConnectionSettings → HubConnection
  finish_connection c settings = record {
    settings = settings;
    cleaner =
        let used : CleanUp = elim (new_mqtt_connection below_one parses uuid c settings.client_id) [
          | inl fault ↦ cleaned
          | inr options ↦ handed_out
        ] in
        if c.uses_tls then used else no_cleaner;
    result = elim (new_mqtt_connection below_one parses uuid c settings.client_id) [
      | inl fault ↦ inl (config_invalid fault)
      | inr options ↦ inr options
    ];
  }

  abbrev pub refuse : CleanUp → ConnectionFault → HubConnectionSettings → HubConnection
  refuse cleaner fault settings = record {
    settings = settings;
    cleaner = cleaner;
    result = inl fault;
  }

  -- A user name and a password go to the hub.
  unfoldable pub finish_named : Configuration F → HubConnectionSettings → HubConnection
  unfolding finish_connection
  finish_named c settings =
      let named : Credentials = record {
        user_name = new_hub_username settings;
        password = settings.password;
      } in
      finish_connection (record c { credentials = named })
        (record settings { use_certificate = false })

  -- The client's certificate goes to the hub, and may name the device.
  unfoldable pub finish_certified : Configuration F → ℕ → HubConnectionSettings → HubConnection
  unfolding finish_connection
  finish_certified c certificate settings =
      let resolved : HubConnection = elim (replace_pattern settings.device_id_pattern certificate) [
        | none ↦ refuse cleaned pattern_unresolved settings
        | some device ↦
            if is_namespaced device
            then finish_connection c (record settings { device_id = device })
            else refuse cleaned device_invalid settings
      ] in
      if is_empty settings.device_id_pattern then finish_connection c settings else resolved

  unfoldable pub finish_secure : Configuration F → TlsSetup → HubConnectionSettings → HubConnection
  unfolding finish_named finish_certified
  finish_secure c tls_failed settings = refuse no_cleaner no_tls settings
  finish_secure c (certificates []) settings = finish_named (record c { uses_tls = true }) settings
  finish_secure c (certificates (certificate ∷ _)) settings =
      finish_certified (record c { uses_tls = true }) certificate settings

  -- CreateHubConnection of an address that can be parsed, `url` and `scheme` being those of the parsed
  -- one; `fresh` is the name for a client without one.
  unfoldable pub create_hub_connection :
      F
      → Text
      → Text
      → Text
      → HubEnvironment F
      → Bool
      → TlsSetup
      → HubConnectionSettings
      → HubConnection
  unfolding hub_base finish_named finish_secure
  create_hub_connection two url scheme fresh env nop_store tls given =
      let base = hub_base two url env nop_store in
      let settings = with_client_id fresh given in
      if is_connection_secure scheme
      then finish_secure base tls settings
      else finish_named base settings

-- The credentials that both local connections take from the settings, if there is a user.
abbrev pub local_credentials : LocalConnectionSettings → Credentials
local_credentials s =
    if is_empty s.local_username
    then record { user_name = []; password = [] }
    else record { user_name = s.local_username; password = s.local_password }

-- The configuration of the local connection, with the status that the broker keeps for a lost one.
unfoldable pub local_config :
    {F : Type 0} → F → Text → Bool → Text → LocalConnectionSettings → Configuration F
local_config two url secure status s = record (new_mqtt_client_config two url) {
  clean_session = true;
  will_topic = codes "edge/connection/remote/status";
  will_qos = 1;
  will_retain = true;
  will_message = status;
  connect_retry_interval = pos 0;
  min_reconnect_interval = pos (5 * second);
  max_reconnect_interval = pos (5 * second);
  credentials = local_credentials s;
  uses_tls = secure;
}

unfoldable pub cloud_config :
    {F : Type 0} → F → Text → Bool → Bool → LocalConnectionSettings → Configuration F
cloud_config two url secure clean_session s = record (new_mqtt_client_config two url) {
  clean_session = clean_session;
  max_reconnect_interval = pos (5 * second);
  min_reconnect_interval = pos (5 * second);
  connect_retry_interval = pos (5 * second);
  credentials = local_credentials s;
  uses_tls = secure;
}

module _ {F : Type 0} (below_one : F → Bool) (parses : Text → Bool) (uuid : Text) (two : F)
    (url : Text) where
  -- The end that both functions share; `tls` is what SetupLocalTLS gives, `none` for a failure and
  -- else whether there is a TLS configuration.
  unfoldable pub connect_local :
      (Bool → Configuration F) → Text → Option Bool → ConnectionFault ⊎ ClientOptions
  connect_local config client_id none = inl no_tls
  connect_local config client_id (some secure) =
      elim (new_mqtt_connection below_one parses uuid (config secure) client_id) [
        | inl fault ↦ inl (config_invalid fault)
        | inr options ↦ inr options
      ]

  -- CreateLocalConnection, `client_id` being the local client's and `status` the text of the status for an unknown state.
  unfoldable pub create_local_connection :
      Text → Option Bool → Text → LocalConnectionSettings → ConnectionFault ⊎ ClientOptions
  unfolding local_config connect_local
  create_local_connection client_id tls status s =
      connect_local (λ secure. local_config two url secure status s) client_id tls

  -- CreateCloudConnection
  unfoldable pub create_cloud_connection :
      Text → Option Bool → Bool → LocalConnectionSettings → ConnectionFault ⊎ ClientOptions
  unfolding cloud_config connect_local
  create_cloud_connection client_id tls clean_session s =
      connect_local (λ secure. cloud_config two url secure clean_session s) client_id tls

-- How NewHonoPub limits the rate: `none` for no limit, else the messages a second.
unfoldable pub new_hono_pub : Option ℤ → Option ℤ
new_hono_pub none = none
new_hono_pub (some rate) = if leb_ℤ rate (pos 0) then none else some rate
