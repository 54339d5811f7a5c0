-- ===== src/Tpmtls.antt =====
-- tpmtls/: the connection to a TPM.
pub mod Connection
pub mod Context
mod Tests
