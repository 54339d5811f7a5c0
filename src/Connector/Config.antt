-- ===== src/Connector/Config.antt =====
-- connector/config.go and createClientOptions of connector/connection.go: the configuration of a
-- connection. A time.Duration is a number of nanoseconds; the back-off multiplier is a float, whose
-- type and test against 1 are arguments, as is the parsing of an address, which is a library's.
pub mod Valid
use suite_connector.Prelude.{
  ℕ, ◌*◌, ◌⊎◌, inl, inr, Bool, true, false, not, ◌&&◌, Option, none, some, List, [], ◌∷◌,
  if◌then◌else◌,
}
use suite_connector.Prelude.Int.{ℤ, pos, ltb_ℤ}
use suite_connector.Prelude.Text.{Text, is_empty}
use suite_connector.Util.Timeout.{second, minute}

pub record Credentials : Type 0 where
  pub user_name : Text
  pub password : Text

pub record Configuration (F : Type 0) : Type 0 where
  pub url : Text
  pub clean_session : Bool
  pub no_op_store : Bool
  pub connect_timeout : ℤ
  pub keep_alive_timeout : ℤ
  pub connect_retry_interval : ℤ
  pub external_reconnect : Bool
  pub auth_err_retries : ℤ
  pub backoff_multiplier : F
  pub max_reconnect_interval : ℤ
  pub min_reconnect_interval : ℤ
  pub credentials : Credentials
  pub will_topic : Text
  pub will_message : Text
  pub will_qos : ℕ
  pub will_retain : Bool
  pub uses_tls : Bool

pub data ConfigFault : Type 0 where
  url_missing url_invalid min_negative max_negative min_above_max : ConfigFault
  retries_below_one multiplier_below_one : ConfigFault

module _ {F : Type 0} (below_one : F → Bool) (parses : Text → Bool) where
  -- The first fault, `none` for a valid configuration.
  unfoldable pub validate : Configuration F → Option ConfigFault
  validate c =
      if is_empty c.url
      then some url_missing
      else if not (parses c.url)
      then some url_invalid
      else if ltb_ℤ c.min_reconnect_interval (pos 0)
      then some min_negative
      else if ltb_ℤ c.max_reconnect_interval (pos 0)
      then some max_negative
      else if ltb_ℤ c.max_reconnect_interval c.min_reconnect_interval
      then some min_above_max
      else if ltb_ℤ c.auth_err_retries (pos 1)
      then some retries_below_one
      else if below_one c.backoff_multiplier
      then some multiplier_below_one
      else none

-- NewMQTTClientConfig, over the text of the parsed broker address.
unfoldable pub new_mqtt_client_config : {F : Type 0} → F → Text → Configuration F
new_mqtt_client_config two url = record {
  url = url;
  clean_session = false;
  no_op_store = false;
  connect_timeout = pos (30 * second);
  keep_alive_timeout = pos (20 * second);
  connect_retry_interval = pos minute;
  external_reconnect = false;
  auth_err_retries = pos 1;
  backoff_multiplier = two;
  max_reconnect_interval = pos minute;
  min_reconnect_interval = pos minute;
  credentials = record { user_name = []; password = [] };
  will_topic = [];
  will_message = [];
  will_qos = 0;
  will_retain = false;
  uses_tls = false;
}

-- The options of the MQTT client that depend on the configuration; `none` for what is not set.
pub record ClientOptions : Type 0 where
  pub client_id : Text
  pub clean_session : Bool
  pub broker : Text
  pub keep_alive : ℤ
  pub connect_timeout : ℤ
  pub max_reconnect_interval : ℤ
  pub auto_reconnect : Bool
  pub connect_retry_interval : Option ℤ
  pub uses_tls : Bool
  pub will : Option (Text × Text × ℕ × Bool)
  pub credentials : Option Credentials
  pub no_op_store : Bool

unfoldable pub create_client_options : {F : Type 0} → Configuration F → Text → Bool → ClientOptions
create_client_options c client_id clean_session = record {
  client_id = client_id;
  clean_session = clean_session;
  broker = c.url;
  keep_alive = c.keep_alive_timeout;
  connect_timeout = c.connect_timeout;
  max_reconnect_interval = c.max_reconnect_interval;
  auto_reconnect = ltb_ℤ (pos 0) c.max_reconnect_interval && not c.external_reconnect;
  connect_retry_interval =
      if ltb_ℤ (pos 0) c.connect_retry_interval then some c.connect_retry_interval else none;
  uses_tls = c.uses_tls;
  will =
      if is_empty c.will_message
      then none
      else some (c.will_topic, c.will_message, c.will_qos, c.will_retain);
  credentials = if is_empty c.credentials.user_name then none else some c.credentials;
  no_op_store = c.no_op_store;
}

-- What the connection sets of an exponential back-off; the elapsed time is not limited.
pub record Backoff (F : Type 0) : Type 0 where
  pub max_elapsed_time : ℤ
  pub randomization_factor : F
  pub multiplier : F
  pub initial_interval : ℤ
  pub max_interval : ℤ

-- ConnectBackoff, over the quarter, and the intervals that the library has by itself
unfoldable pub connect_backoff : {F : Type 0} → F → ℤ → ℤ → Configuration F → Backoff F
connect_backoff quarter initial maximal c = record {
  max_elapsed_time = pos 0;
  randomization_factor = quarter;
  multiplier = c.backoff_multiplier;
  initial_interval =
      if ltb_ℤ (pos 0) c.min_reconnect_interval then c.min_reconnect_interval else initial;
  max_interval =
      if ltb_ℤ (pos 0) c.max_reconnect_interval then c.max_reconnect_interval else maximal;
}

-- NewMQTTConnectionCredentialsProvider: an invalid configuration is refused, and a client without a
-- name gets a fresh one and a clean session.
unfoldable pub new_mqtt_connection :
    {F : Type 0}
    → (F → Bool)
    → (Text → Bool)
    → Text
    → Configuration F
    → Text
    → ConfigFault ⊎ ClientOptions
unfolding validate create_client_options
new_mqtt_connection below_one parses uuid c client_id = elim (validate below_one parses c) [
  | some fault ↦ inl fault
  | none ↦ inr (
      if is_empty client_id
      then create_client_options c uuid true
      else create_client_options c client_id c.clean_session)
]
