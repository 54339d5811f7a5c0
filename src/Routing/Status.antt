-- ===== src/Routing/Status.antt =====
-- routing/service.go: the causes that are reported for the connection to the hub, and the listeners
-- that report them. A status message is its cause with the flag that is derived from it; the time
-- stamp and the JSON text of the message are not modelled.
pub mod Causes
use suite_connector.Prelude.{ℕ, Bool, true, false, Option, none, some, List, [], ◌∷◌, if◌then◌else◌}
use suite_connector.Connector.Reconnect.{
  ConnectError, bad_protocol_version, id_rejected, bad_username_or_password, not_authorised,
  other_error,
}

-- The causes; `no_cause` is the empty text.
pub data Cause : Type 0 where
  no_cause config_error provisioning_error provisioning_update provisioning_missing : Cause
  connection_closed connection_unknown connection_error connection_not_authenticated : Cause

pub record ConnectionStatus : Type 0 where
  pub connected : Bool
  pub cause : Cause

-- What SendStatus publishes, with the retain flag, on the status topic.
unfoldable pub send_status : Cause → ConnectionStatus
send_status no_cause = record { connected = true; cause = no_cause }
send_status cause = record { connected = false; cause = cause }

-- The cause of a failed connect, and whether to try again.
unfoldable pub status_cause : ConnectError → Cause × Bool
status_cause id_rejected = (connection_error, false)
status_cause bad_protocol_version = (connection_error, false)
status_cause not_authorised = (connection_error, false)
status_cause bad_username_or_password = (connection_not_authenticated, false)
status_cause (other_error n) = (connection_error, true)

-- ErrorsHandler.Connected
unfoldable pub errors_handler_connected : Bool → Option ConnectError → List ConnectionStatus
errors_handler_connected true error = []
errors_handler_connected false none = []
errors_handler_connected false (some bad_username_or_password) =
    send_status connection_not_authenticated ∷ []
errors_handler_connected false (some _) = send_status connection_error ∷ []

-- ConnectionStatusHandler.Connected
unfoldable pub status_handler_connected : Bool → Option ConnectError → List ConnectionStatus
status_handler_connected connected error = if connected then send_status no_cause ∷ [] else []

-- What a listener asks of the local client or of the publisher of the gateway's parameters.
pub data Request : Type 0 where
  connect disconnect send_gw_params : Request

-- CloudConnectionHandler.Connected: the local client follows the connection to the hub.
unfoldable pub cloud_handler_connected : Bool → Option ConnectError → List Request
cloud_handler_connected connected error = if connected then connect ∷ [] else disconnect ∷ []

-- ReconnectHandler.Connected
unfoldable pub reconnect_handler_connected : Bool → Option ConnectError → List Request
reconnect_handler_connected connected error = if connected then send_gw_params ∷ [] else []
