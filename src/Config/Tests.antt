-- ===== src/Config/Tests.antt =====
-- Runs of the functions of config/, and the properties at concrete inputs.
use suite_connector.Prelude.{
  ℕ, ◌≡◌, refl, Bool, true, false, none, some, [], ◌∷◌, ◌==◌, arith, length, if◌then◌else◌, inr,
}
use suite_connector.Prelude.Int.{pos, ◌*ℤ◌}
use suite_connector.Prelude.Text.{codes, text_eq}
use suite_connector.Util.Timeout.{wrap64}
use suite_connector.Connector.Reconnect.{other_error, not_authorised}
use suite_connector.Connector.Config.{
  ClientOptions, create_client_options, new_mqtt_client_config, new_mqtt_connection, validate,
}
use suite_connector.Routing.Status.{status_cause, provisioning_error, provisioning_missing}
use suite_connector.Config.HonoConnect.{
  connected, made, HonoRound, failed, pending, next_auth, hono_round, hono_connect,
}
use suite_connector.Config.HonoConnect.Ends.{
  GivesUpAfter, IsFailing, hono_connect-gave_up, hono_connect_goes_on,
}
use suite_connector.Config.LocalConnect.{IsRetried, local_connect, local_connect_goes_on}
use suite_connector.Config.Settings.{HubConnectionSettings, is_connection_secure, apply_settings}
use suite_connector.Config.Settings.Reports.{IsReported, apply_settings-IsReported}
use suite_connector.Config.Connections.{
  LocalConnectionSettings, HubEnvironment, certificates, finish_connection, finish_certified,
  finish_secure, with_client_id, hub_base, in_seconds, create_hub_connection,
  create_local_connection, create_cloud_connection,
}
use suite_connector.Config.Connections.Valid.{
  IsHubClient, status_will, hub_credentials, local_connections_made,
  create_hub_connection-IsHubClient,
}

abbrev unreachable : HonoRound
unreachable = record {
  answer = failed (other_error 1);
  next_backoff = some 60;
  signal_in_wait = false;
}

abbrev denied : HonoRound
denied = record { answer = failed not_authorised; next_backoff = some 60; signal_in_wait = false }

hono_connect-gave_up_example :
    ((status_cause not_authorised).1 ≡ false)
    × GivesUpAfter not_authorised 2 0 (denied ∷ unreachable ∷ denied ∷ [])
unfolding hono_connect hono_round next_auth status_cause
hono_connect-gave_up_example =
    hono_connect-gave_up 2 0 (denied ∷ unreachable ∷ denied ∷ []) not_authorised refl

unreachable-IsFailing : IsFailing unreachable
unfolding status_cause
unreachable-IsFailing = (other_error 1, refl, refl, refl, ground arith)

hono_connect_goes_on_run :
    ((hono_connect 5 0 (unreachable ∷ unreachable ∷ [])).ending ≡ pending)
    × (length (hono_connect 5 0 (unreachable ∷ unreachable ∷ [])).causes
        ≡ length (unreachable ∷ unreachable ∷ []))
hono_connect_goes_on_run =
    hono_connect_goes_on 5 0 (unreachable ∷ unreachable ∷ [])
      (unreachable-IsFailing, (unreachable-IsFailing, tt))

unreachable-IsRetried : IsRetried unreachable
unreachable-IsRetried = ((other_error 1, refl), ground arith, refl)

abbrev reached : HonoRound
reached = record { answer = made; next_backoff = some 5; signal_in_wait = false }

local_connect_goes_on_run :
    (local_connect (unreachable ∷ unreachable ∷ []) ≡ local_connect [])
    × (local_connect (unreachable ∷ unreachable ∷ reached ∷ []) ≡ connected)
local_connect_goes_on_run =
    local_connect_goes_on (unreachable ∷ unreachable ∷ []) [] reached
      (unreachable-IsRetried, (unreachable-IsRetried, tt)) refl

abbrev settings : HubConnectionSettings
settings = record {
  device_id = codes "org.eclipse:gw";
  device_id_pattern = [];
  tenant_id = codes "tenant";
  policy_id = [];
  address = codes "mqtts://hub:8883";
  password = codes "secret";
  username = [];
  client_id = [];
  auth_id = codes "auth";
  generic = false;
  use_certificate = false;
  auto_provisioning_enabled = false;
  ca_cert = codes "iothub.crt";
  cert = [];
  key = [];
  alpn = [];
  tpm_key = [];
  tpm_key_pub = [];
  tpm_handle = 0;
  tpm_device = [];
}

apply_settings-IsReported_run :
    IsReported
      (λ d. true)
      (if true then provisioning_error else provisioning_missing)
      true
      (apply_settings (λ d. true) some (λ c. none) true true settings)
apply_settings-IsReported_run =
    apply_settings-IsReported (λ d. true) some (λ c. none) true true settings

abbrev environment : HubEnvironment ℕ
environment = record {
  connect_init = none;
  connect_max = some (pos 300);
  auth_err_retries = none;
  multiplier = none;
}

abbrev below_one : ℕ → Bool
below_one n = n == 0

abbrev certified : HubConnectionSettings
certified = record settings {
  device_id = [];
  device_id_pattern = codes "org.eclipse:{{subject-cn}}";
}

abbrev hub_options : ClientOptions
hub_options =
    create_client_options
      (record (hub_base 2 (codes "mqtts://hub:8883") environment true) { uses_tls = true })
      (codes "fresh") false

-- A secure connection with a certificate that names the device.
create_hub_connection-IsHubClient_example :
    IsHubClient (is_connection_secure (codes "mqtts")) true (hub_credentials certified) hub_options
unfolding create_hub_connection finish_connection finish_certified finish_secure with_client_id
    hub_base new_mqtt_connection new_mqtt_client_config validate is_connection_secure text_eq
    in_seconds wrap64 ◌*ℤ◌
create_hub_connection-IsHubClient_example =
    create_hub_connection-IsHubClient below_one (λ u. true) (codes "uuid")
      (λ pattern certificate. some (codes "org.eclipse:gw")) (λ d. true) 2
      (codes "mqtts://hub:8883") (codes "mqtts") (codes "fresh") environment true
      (certificates (1 ∷ [])) certified hub_options refl

abbrev local_settings : LocalConnectionSettings
local_settings = record {
  local_address = codes "tcp://localhost:1883";
  local_username = codes "user";
  local_password = codes "secret";
  local_ca_cert = [];
  local_cert = [];
  local_key = [];
}

local_connections_made_run :
    ((o : ClientOptions) × (create_local_connection below_one
          (λ u. true)
          (codes "uuid")
          2
          (codes "tcp://localhost:1883")
          (codes "connector")
          (some false)
          (codes "{}")
          local_settings
        ≡ inr o)
      × (o.auto_reconnect ≡ true)
      × (o.client_id ≡ codes "connector")
      × (o.will ≡ status_will (codes "{}")))
    × ((o : ClientOptions) × (create_cloud_connection below_one
            (λ u. true)
            (codes "uuid")
            2
            (codes "tcp://localhost:1883")
            (codes "cloud")
            (some false)
            true
            local_settings
          ≡ inr o)
        × (o.auto_reconnect ≡ true)
        × (o.client_id ≡ codes "cloud")
        × (o.clean_session ≡ true))
local_connections_made_run =
    local_connections_made below_one (λ u. true) (codes "uuid") 2 (codes "tcp://localhost:1883")
      (codes "connector") (codes "cloud") false true (codes "{}") local_settings refl refl refl refl
      refl refl
