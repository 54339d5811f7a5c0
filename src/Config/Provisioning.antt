-- ===== src/Config/Provisioning.antt =====
-- config/parse_provisioning.go: what is read from the provisioning file. The JSON library's containers,
-- the decoder of base64 and the printing of a number are arguments; a Go map is the list of its
-- entries, in the order in which the loop sees them.
pub mod Fills
pub mod Panics
mod Tests
use suite_connector.Prelude.{
  Bool, true, false, Option, none, some, List, [], ◌∷◌, ◌++◌, if◌then◌else◌,
}
use suite_connector.Prelude.Text.{Text, codes, text_eq, is_empty}
use suite_connector.Prelude.Outcome.{Outcome, ok, err, panic, invalid_configuration, ◌>>=◌}
use suite_connector.Config.Settings.{HubConnectionSettings}

-- What the code uses of the containers: the value at a path, or nothing there, the elements of an
-- array, the entries of an object, and the value as a text or as a printed number, if it is one.
pub record Json : Type 1 where
  pub Container : Type 0
  pub parse_json : Text → Option Container
  pub search : Container → Text → Container
  pub children : Container → List Container
  pub children_map : Container → List (Text × Container)
  pub text_of : Container → Option Text
  pub number_of : Container → Option Text
  pub decode_base64 : Text → Option Text

abbrev password_base64 : Text
password_base64 = codes "passwordBase64"

abbrev pub or_else {ℓ} : {A : Type ℓ} → Option A → A → A
or_else none a = a
or_else (some b) a = b

abbrev pub is_text : Option Text → Text → Bool
is_text none t = false
is_text (some s) t = text_eq s t

module _ (json : Json) where
  open json use {
    Container, parse_json, search, children, children_map, text_of, number_of, decode_base64,
  }

  unfoldable pub get_string : Container → Text → Text
  get_string c path = or_else (text_of (search c path)) []

  unfoldable pub read_value : Text → Container → Text → Text
  read_value field c path = or_else (text_of (search c path)) field

  unfoldable pub has_element : List Container → Text → Bool
  has_element [] element = false
  has_element (c ∷ cs) element =
      if is_text (text_of c) element then true else has_element cs element

  unfoldable pub mqtt_url : Container → Text
  unfolding get_string
  mqtt_url c =
      let uri = get_string c (codes "uri") in
      let with_port : Text = elim (number_of (search c (codes "port"))) [
        | some port ↦ uri ++ (codes ":" ++ port)
        | none ↦ uri
      ] in
      if is_empty uri then uri else with_port

  -- The inner loop of readAddress, over the entries of the adapter `c`.
  unfoldable pub read_adapter : Container → List (Text × Container) → Text → Text
  read_adapter c [] field = field
  read_adapter c ((key, value) ∷ es) field =
      let is_mqtt =
        if text_eq key (codes "type") then is_text (text_of value) (codes "mqtt") else false in
      read_adapter c es (if is_mqtt then mqtt_url c else field)

  unfoldable pub read_address : List Container → Text → Text
  unfolding read_adapter
  read_address [] field = field
  read_address (c ∷ cs) field = read_address cs (read_adapter c (children_map c) field)

  -- The inner loop of readPassword: the password, if the loop returns. A value under `passwordBase64`
  -- that is no text is a failed type assertion.
  unfoldable pub read_secret : List (Text × Container) → Outcome (Option Text)
  read_secret [] = ok none
  read_secret ((key, value) ∷ es) =
      let rest = read_secret es in
      let plain : Outcome (Option Text) =
        if text_eq key (codes "password")
        then (elim (text_of value) [ some p ↦ ok (some p) | none ↦ rest ])
        else rest in
      let decoded : Outcome (Option Text) = elim (text_of value) [
        | none ↦ panic
        | some t ↦ elim (decode_base64 t) [ some p ↦ ok (some p) | none ↦ plain ]
      ] in
      if text_eq key password_base64 then decoded else plain

  unfoldable pub read_password : List Container → Text → Outcome Text
  unfolding read_secret
  read_password [] field = ok field
  read_password (c ∷ cs) field = read_secret (children_map c) >>= λ found. elim found [
    | some p ↦ ok p
    | none ↦ read_password cs field
  ]

  unfoldable pub parse_provisioning_json :
      Text → HubConnectionSettings → Outcome HubConnectionSettings
  unfolding read_value read_address read_password has_element get_string
  parse_provisioning_json text c =
      let fill : Container → Outcome HubConnectionSettings = λ j.
        read_password (children (search j (codes "hub.credentials.secrets"))) c.password >>= λ p.
        ok (record c {
          device_id = read_value c.device_id j (codes "hub.credentials.deviceId");
          tenant_id = read_value c.tenant_id j (codes "hub.credentials.tenantId");
          policy_id = read_value c.policy_id j (codes "things.thing.policyId");
          auth_id = read_value c.auth_id j (codes "hub.credentials.authId");
          address = read_address (children (search j (codes "hub.credentials.adapters"))) c.address;
          password = p;
          use_certificate =
              text_eq (get_string j (codes "hub.credentials.type")) (codes "x509-cert");
          auto_provisioning_enabled =
              has_element (children (search j (codes "hub.device.authorities")))
                (codes "auto-provisioning-enabled");
        }) in
      elim (parse_json text) [ none ↦ err (invalid_configuration text) | some j ↦ fill j ]
