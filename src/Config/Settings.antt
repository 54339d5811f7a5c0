-- ===== src/Config/Settings.antt =====
-- config/settings.go and config/connections.go: the settings of the hub, their validation, and
-- ApplySettings. The file system, the JSON readers, the merge of the command line and the check of
-- namespaced ids are libraries' and are arguments.
pub mod Reports
use suite_connector.Prelude.{
  ℕ, ◌⊎◌, inl, inr, Bool, true, false, not, ◌&&◌, ◌||◌, Option, none, some, List, [], ◌∷◌, ◌++◌,
  if◌then◌else◌,
}
use suite_connector.Prelude.Text.{Text, codes, is_empty, text_eq, has_suffix}
use suite_connector.Routing.Status.{
  Cause, provisioning_error, provisioning_missing, provisioning_update,
}

-- The fields of the embedded TLSSettings, from `ca_cert` on, are its own.
pub record HubConnectionSettings : Type 0 where
  pub device_id : Text
  pub device_id_pattern : Text
  pub tenant_id : Text
  pub policy_id : Text
  pub address : Text
  pub password : Text
  pub username : Text
  pub client_id : Text
  pub auth_id : Text
  pub generic : Bool
  pub use_certificate : Bool
  pub auto_provisioning_enabled : Bool
  pub ca_cert : Text
  pub cert : Text
  pub key : Text
  pub alpn : List Text
  pub tpm_key : Text
  pub tpm_key_pub : Text
  pub tpm_handle : ℕ
  pub tpm_device : Text

pub data SettingsFault : Type 0 where
  device_missing device_invalid tenant_missing address_missing : SettingsFault
  address_invalid ca_unreadable ca_missing pattern_with_device pattern_without_cert : SettingsFault

-- HubConnectionSettings.Validate
unfoldable pub validate : (Text → Bool) → HubConnectionSettings → Option SettingsFault
validate is_namespaced c =
    if is_empty c.device_id && is_empty c.device_id_pattern
    then some device_missing
    else if not (is_empty c.device_id) && not (is_namespaced c.device_id)
    then some device_invalid
    else if is_empty c.tenant_id
    then some tenant_missing
    else if is_empty c.address
    then some address_missing
    else none

abbrev pub secure_schemes : List Text
secure_schemes =
    codes "wss" ∷ codes "ssl" ∷ codes "tls" ∷ codes "mqtts" ∷ codes "mqtt+ssl" ∷ codes "tcps" ∷ []

abbrev pub is_one_of : Text → List Text → Bool
is_one_of t [] = false
is_one_of t (u ∷ us) = text_eq t u || is_one_of t us

unfoldable pub is_connection_secure : Text → Bool
is_connection_secure scheme = is_one_of scheme secure_schemes

-- ValidateStatic, behind the checks of the log and local settings; `scheme` is that of the parsed
-- address.
unfoldable pub validate_static :
    (Text → Bool) → Option Text → HubConnectionSettings → Option SettingsFault
unfolding is_connection_secure
validate_static file_exists none c = some address_invalid
validate_static file_exists (some scheme) c =
    let pattern : Option SettingsFault =
      if is_empty c.device_id_pattern
      then none
      else if not (is_empty c.device_id)
      then some pattern_with_device
      else if is_empty c.cert
      then some pattern_without_cert
      else none in
    if is_connection_secure scheme
    then (if is_empty c.ca_cert
        then some ca_missing
        else if file_exists c.ca_cert
        then pattern
        else some ca_unreadable)
    else pattern

-- NewHubUsername
unfoldable pub new_hub_username : HubConnectionSettings → Text
new_hub_username c =
    if is_empty c.username then c.auth_id ++ (codes "@" ++ c.tenant_id) else c.username

-- Why the settings could not be applied.
pub data ApplyFault : Type 0 where
  invalid : SettingsFault → ApplyFault
  unreadable unmerged : ApplyFault

-- The causes that were sent, and the settings or the fault.
pub record Applied : Type 0 where
  pub causes : List Cause
  pub result : ApplyFault ⊎ HubConnectionSettings

abbrev pub refuse : Cause → ApplyFault → Applied
refuse cause fault = record { causes = cause ∷ []; result = inl fault }

-- A change of the file at run time, which asks for a clean session, is reported.
abbrev pub accept : Bool → HubConnectionSettings → Applied
accept clean_session c = record {
  causes = if clean_session then provisioning_update ∷ [] else [];
  result = inr c;
}

abbrev pub check_dynamic : (Text → Bool) → Cause → Bool → HubConnectionSettings → Applied
check_dynamic is_namespaced cause clean_session c = elim (validate is_namespaced c) [
  | some fault ↦ refuse cause (invalid fault)
  | none ↦ accept clean_session c
]

module _ (is_namespaced : Text → Bool)
    (read merge : HubConnectionSettings → Option HubConnectionSettings) where
  unfoldable pub apply_settings : Bool → Bool → HubConnectionSettings → Applied
  unfolding validate
  apply_settings file_exists clean_session c =
      let provisioned : Applied = elim (read c) [
        | none ↦ refuse provisioning_error unreadable
        | some c' ↦ elim (merge c') [
          | none ↦ refuse provisioning_error unmerged
          | some c'' ↦ check_dynamic is_namespaced provisioning_error clean_session c''
        ]
      ] in
      if file_exists
      then provisioned
      else check_dynamic is_namespaced provisioning_missing clean_session c
