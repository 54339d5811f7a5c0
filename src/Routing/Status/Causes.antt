-- ===== src/Routing/Status/Causes.antt =====
-- The statuses that are sent say `connected` exactly when they have no cause, and the two places that
-- report a refused connection agree.
use suite_connector.Prelude.{◌≡◌, ◌&&◌, ◌↔◌, refl, true, false, some, [], ◌∷◌, arith}
use suite_connector.Connector.Reconnect.{
  ConnectError, is_auth_error, bad_protocol_version, id_rejected, bad_username_or_password,
  not_authorised, other_error,
}
use suite_connector.Routing.Status.{
  Cause, no_cause, ConnectionStatus, send_status, status_cause, errors_handler_connected,
}

-- A status says `connected` exactly if it has no cause.
abbrev pub IsHonest : ConnectionStatus → Type 0
IsHonest s = (s.connected ≡ true) ↔ (s.cause ≡ no_cause)

pub send_status-IsHonest : (c : Cause) → IsHonest (send_status c)
unfolding send_status
send_status-IsHonest no_cause = ground arith
send_status-IsHonest c = ground arith

-- The failure of a connection reports the same cause when it is first made (StatusCause) and when it is
-- lost later (ErrorsHandler), and StatusCause never has refused credentials tried again.
pub causes_agree :
    (e : ConnectError)
    → (errors_handler_connected false (some e) ≡ send_status (status_cause e).0 ∷ [])
      × ((is_auth_error e && (status_cause e).1) ≡ false)
unfolding errors_handler_connected status_cause
causes_agree bad_protocol_version = (refl, refl)
causes_agree id_rejected = (refl, refl)
causes_agree bad_username_or_password = (refl, refl)
causes_agree not_authorised = (refl, refl)
causes_agree (other_error n) = (refl, refl)
