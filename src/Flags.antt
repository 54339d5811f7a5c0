-- ===== src/Flags.antt =====
-- flags/: the command line flags, the fields of the settings that they stand for, and the map of the
-- flags that are set. Package flag parses the command line; it is a library's.
pub mod Values
pub mod Names
pub mod Precedence
mod Tests
use suite_connector.Prelude.{
  ℕ, zero, suc, ◌-◌, Bool, true, false, Option, none, some, List, [], ◌∷◌, ◌++◌, if◌then◌else◌,
  length, drop,
}
use suite_connector.Prelude.Int.{ℤ}
use suite_connector.Prelude.Text.{Text, codes, text_eq, replace_from, replace_all}
use suite_connector.Prelude.Dict.{insert}

-- The value of a flag or of a field.
pub data Value : Type 0 where
  text : Text → Value
  number : ℤ → Value
  word level : ℕ → Value
  truth : Bool → Value
  texts : List Text → Value

-- A flag with its name, and the field of the settings that it sets; its default, which is that of the
-- field in DefaultSettings, is for its help text.
pub record Flag : Type 0 where
  pub name : Text
  pub field : Text

abbrev pub flag : Text → Text → Flag
flag name field = record { name = name; field = field }

unfoldable pub add_log : List Flag
add_log =
    flag (codes "logLevel") (codes "LogLevel")
    ∷ flag (codes "logFileSize") (codes "LogFileSize")
    ∷ flag (codes "logFileCount") (codes "LogFileCount")
    ∷ flag (codes "logFileMaxAge") (codes "LogFileMaxAge")
    ∷ flag (codes "logFile") (codes "LogFile")
    ∷ []

unfoldable pub add_tls : List Flag
add_tls =
    flag (codes "alpn") (codes "Alpn")
    ∷ flag (codes "caCert") (codes "CACert")
    ∷ flag (codes "cert") (codes "Cert")
    ∷ flag (codes "key") (codes "Key")
    ∷ flag (codes "tpmKey") (codes "TPMKey")
    ∷ flag (codes "tpmKeyPub") (codes "TPMKeyPub")
    ∷ flag (codes "tpmDevice") (codes "TPMDevice")
    ∷ flag (codes "tpmHandle") (codes "TPMHandle")
    ∷ []

unfoldable pub add_hub : List Flag
unfolding add_tls
add_hub =
    flag (codes "address") (codes "Address")
    ∷ flag (codes "deviceIdPattern") (codes "DeviceIDPattern")
    ∷ flag (codes "deviceId") (codes "DeviceID")
    ∷ flag (codes "tenantId") (codes "TenantID")
    ∷ flag (codes "policyId") (codes "PolicyID")
    ∷ flag (codes "authId") (codes "AuthID")
    ∷ flag (codes "password") (codes "Password")
    ∷ flag (codes "username") (codes "Username")
    ∷ flag (codes "clientId") (codes "ClientID")
    ∷ flag (codes "generic") (codes "Generic")
    ∷ add_tls

unfoldable pub add_local_broker : List Flag
add_local_broker =
    flag (codes "localAddress") (codes "LocalAddress")
    ∷ flag (codes "localUsername") (codes "LocalUsername")
    ∷ flag (codes "localPassword") (codes "LocalPassword")
    ∷ flag (codes "localCACert") (codes "LocalCACert")
    ∷ flag (codes "localCert") (codes "LocalCert")
    ∷ flag (codes "localKey") (codes "LocalKey")
    ∷ []

unfoldable pub add : List Flag
unfolding add_log add_hub add_local_broker
add =
    add_log
    ++ (add_hub
        ++ (add_local_broker ++ (flag (codes "provisioningFile") (codes "ProvisioningFile") ∷ [])))

-- The key of a flag in the map.
unfoldable pub copy_name : Text → Text
unfolding replace_from text_eq
copy_name name =
    if text_eq name (codes "caCert")
    then codes "CACert"
    else replace_all (replace_all name (codes "Id") (codes "ID")) (codes "tpm") (codes "TPM")

-- Copy, over the flags that are set, by name and value, in the order in which Visit walks them.
unfoldable pub copy_from : List (Text × Value) → List (Text × Value) → List (Text × Value)
unfolding copy_name insert
copy_from [] m = m
copy_from ((name, v) ∷ visited) m = copy_from visited (insert (copy_name name) v m)

abbrev pub copy : List (Text × Value) → List (Text × Value)
copy visited = copy_from visited []
