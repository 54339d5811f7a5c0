-- ===== src/Config/Provisioning/Fills.antt =====
-- Which of the values that the provisioning file offers are taken.
use suite_connector.Prelude.{
  ◌≡◌, ◌⊎◌, refl, Bool, true, false, Bool-cases, inl, inr, Option, none, some, List, [], ◌∷◌, ◌++◌,
  map, All, arith, if◌then◌else◌,
}
use suite_connector.Prelude.Text.{Text, codes, text_eq, text_eq_iff}
use suite_connector.Prelude.Outcome.{ok}
use suite_connector.Config.Settings.{HubConnectionSettings}
use suite_connector.Config.Provisioning.{
  Json, or_else, is_text, mqtt_url, read_adapter, read_address, read_secret, read_password,
  parse_provisioning_json, read_value, get_string, has_element,
}

-- The last, and the first, of the values that are there.
abbrev pub last_of : List (Option Text) → Text → Text
last_of [] field = field
last_of (o ∷ os) field = last_of os (or_else o field)

abbrev pub first_of : List (Option Text) → Option Text
first_of [] = none
first_of (none ∷ os) = first_of os
first_of (some t ∷ os) = some t

-- No text is not the kind of a certificate.
certificate_kind :
    (o : Option Text) → text_eq (or_else o []) (codes "x509-cert") ≡ is_text o (codes "x509-cert")
unfolding text_eq
certificate_kind none = refl
certificate_kind (some t) = refl

module _ (json : Json) where
  open json use {Container, parse_json, search, children, children_map, text_of, decode_base64}

  -- The entry says that the adapter speaks MQTT.
  abbrev pub is_mqtt_type : List (Text × Container) → Bool
  is_mqtt_type [] = false
  is_mqtt_type ((key, value) ∷ es) =
      if text_eq key (codes "type")
      then (if is_text (text_of value) (codes "mqtt") then true else is_mqtt_type es)
      else is_mqtt_type es

  -- The address that an adapter offers, if it speaks MQTT.
  abbrev pub adapter_address : Container → Option Text
  adapter_address c = if is_mqtt_type (children_map c) then some (mqtt_url json c) else none

  read_adapter-stays :
      (c : Container) (es : List (Text × Container))
      → read_adapter json c es (mqtt_url json c) ≡ mqtt_url json c
  unfolding read_adapter
  read_adapter-stays c [] = refl
  read_adapter-stays c ((key, value) ∷ es) = ground (arith, read_adapter-stays c es)

  read_adapter_offers :
      (c : Container) (es : List (Text × Container)) (field : Text)
      → read_adapter json c es field ≡ (if is_mqtt_type es then mqtt_url json c else field)
  unfolding read_adapter
  read_adapter_offers c [] field = refl
  read_adapter_offers c ((key, value) ∷ es) field =
      ground (arith, read_adapter-stays c es, read_adapter_offers c es field)

  read_address_last :
      (cs : List Container) (field : Text)
      → read_address json cs field ≡ last_of (map adapter_address cs) field
  unfolding read_address
  read_address_last [] field = refl
  read_address_last (c ∷ cs) field =
      rw
        (
          read_address,
          read_adapter_offers c (children_map c) field,
          read_address_last cs (if is_mqtt_type (children_map c) then mqtt_url json c else field),
        )
        (elim (Bool-cases (is_mqtt_type (children_map c))) [ inl e ↦ rw e | inr e ↦ rw e ])

  -- The password that an entry of a secret offers.
  abbrev pub offered : Text × Container → Option Text
  offered (key, value) =
      let decoded : Option Text = elim (text_of value) [ none ↦ none | some t ↦ decode_base64 t ] in
      if text_eq key (codes "passwordBase64")
      then decoded
      else if text_eq key (codes "password")
      then text_of value
      else none

  pub not_both :
      (key : Text)
      → (text_eq key (codes "passwordBase64") ≡ false) ⊎ (text_eq key (codes "password") ≡ false)
  not_both key = elim (Bool-cases (text_eq key (codes "passwordBase64"))) [
    | inr e ↦ inl e
    | inl e ↦ unfold text_eq in inr (rw ((text_eq_iff key (codes "passwordBase64")).0 e) refl)
  ]

  -- An entry under `passwordBase64` has a text.
  abbrev pub IsReadable : Text × Container → Type 0
  IsReadable (key, value) =
      (text_eq key (codes "passwordBase64") ≡ false) ⊎ ((t : Text) × (text_of value ≡ some t))

  read_secret_first :
      (es : List (Text × Container))
      → All IsReadable es
      → read_secret json es ≡ ok (first_of (map offered es))
  unfolding read_secret
  read_secret_first [] good = refl
  read_secret_first ((key, value) ∷ es) good =
      ground (arith, good.0, read_secret_first es good.1, not_both key)

  -- The passwords that the secrets offer, in order.
  abbrev pub all_offered : List Container → List (Option Text)
  all_offered [] = []
  all_offered (c ∷ cs) = map offered (children_map c) ++ all_offered cs

  first_of-append :
      (os ps : List (Option Text))
      → first_of (os ++ ps) ≡ (elim (first_of os) [ none ↦ first_of ps | some t ↦ some t ])
  first_of-append [] ps = refl
  first_of-append (none ∷ os) ps = first_of-append os ps
  first_of-append (some t ∷ os) ps = refl

  read_password_first :
      (cs : List Container) (field : Text)
      → All (λ c. All IsReadable (children_map c)) cs
      → read_password json cs field ≡ ok (or_else (first_of (all_offered cs)) field)
  unfolding read_password
  read_password_first [] field good = refl
  read_password_first (c ∷ cs) field good =
      let os = map offered (children_map c) in
      ground (
        arith,
        read_secret_first (children_map c) good.0,
        first_of-append os (all_offered cs),
        read_password_first cs field good.1,
      )

  -- What the file gives, in words of its own: each text value if it is there, the address of the last
  -- adapter for MQTT, the first password that a secret offers, and the two flags.
  pub record IsFilled (j : Container) (c c' : HubConnectionSettings) : Type 0 where
    pub device_id :
        c'.device_id ≡ or_else (text_of (search j (codes "hub.credentials.deviceId"))) c.device_id
    pub tenant_id :
        c'.tenant_id ≡ or_else (text_of (search j (codes "hub.credentials.tenantId"))) c.tenant_id
    pub policy_id :
        c'.policy_id ≡ or_else (text_of (search j (codes "things.thing.policyId"))) c.policy_id
    pub auth_id :
        c'.auth_id ≡ or_else (text_of (search j (codes "hub.credentials.authId"))) c.auth_id
    pub address :
        c'.address
        ≡ last_of
            (map adapter_address (children (search j (codes "hub.credentials.adapters"))))
            c.address
    pub password :
        c'.password
        ≡ or_else
            (first_of (all_offered (children (search j (codes "hub.credentials.secrets")))))
            c.password
    pub use_certificate :
        c'.use_certificate
        ≡ is_text (text_of (search j (codes "hub.credentials.type"))) (codes "x509-cert")
    pub auto_provisioning :
        c'.auto_provisioning_enabled
        ≡ has_element json
            (children (search j (codes "hub.device.authorities")))
            (codes "auto-provisioning-enabled")
    pub others :
        (c'.username ≡ c.username)
        × (c'.client_id ≡ c.client_id)
        × (c'.generic ≡ c.generic)
        × (c'.device_id_pattern ≡ c.device_id_pattern)
        × (c'.ca_cert ≡ c.ca_cert)
        × (c'.cert ≡ c.cert)
        × (c'.key ≡ c.key)
        × (c'.alpn ≡ c.alpn)
        × (c'.tpm_key ≡ c.tpm_key)
        × (c'.tpm_key_pub ≡ c.tpm_key_pub)
        × (c'.tpm_handle ≡ c.tpm_handle)
        × (c'.tpm_device ≡ c.tpm_device)

  -- From a readable file in which each value under `passwordBase64` of a secret is a text, the parser
  -- takes each identifier that is there, the address of the last adapter for MQTT, and the first
  -- password that a secret offers; what is not there, and all other settings, stay.
  pub parse_provisioning_fills :
      (text : Text) (c : HubConnectionSettings) (j : Container)
      → parse_json text ≡ some j
      → All
          (λ s. All IsReadable (children_map s))
          (children (search j (codes "hub.credentials.secrets")))
      → (c' : HubConnectionSettings) × (parse_provisioning_json json text c ≡ ok c')
        × IsFilled j c c'
  unfolding parse_provisioning_json read_value get_string
  parse_provisioning_fills text c j parsed good = (
    _,
    rw
        (
          parse_provisioning_json,
          parsed,
          read_password_first (children (search j (codes "hub.credentials.secrets"))) c.password
              good,
        )
        refl,
    record {
      device_id = refl;
      tenant_id = refl;
      policy_id = refl;
      auth_id = refl;
      address =
          read_address_last (children (search j (codes "hub.credentials.adapters"))) c.address;
      password = refl;
      use_certificate = certificate_kind (text_of (search j (codes "hub.credentials.type")));
      auto_provisioning = refl;
      others = (refl, refl, refl, refl, refl, refl, refl, refl, refl, refl, refl, refl);
    },
  )
