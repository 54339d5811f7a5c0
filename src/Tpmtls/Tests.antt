-- ===== src/Tpmtls/Tests.antt =====
-- The property at a concrete input.
use suite_connector.Prelude.{none}
use suite_connector.Tpmtls.Connection.{TpmConnection}

abbrev tpm : TpmConnection
tpm = record { rwc = 3; rw = none }
