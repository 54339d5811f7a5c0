-- ===== src/Config/Connections/Valid.antt =====
-- The connections to the local broker always have a valid configuration; the one to the hub has, if
-- the environment's numbers are in order.
use suite_connector.Prelude.{
  ℕ, ◌≡◌, refl, sym, ◌∙◌, ◌++◌, inl, inr, Option-cases, Bool-cases, not, ◌&&◌, Bool, true, false,
  Option, none, some, [], ◌∷◌, arith, if◌then◌else◌,
}
use suite_connector.Prelude.Int.{pos, ltb_ℤ}
use suite_connector.Prelude.Text.{Text, codes, is_empty}
use suite_connector.Connector.Config.{
  validate, new_mqtt_connection, ClientOptions, Credentials, Configuration, new_mqtt_client_config,
  create_client_options,
}
use suite_connector.Config.Settings.{HubConnectionSettings, new_hub_username, is_connection_secure}
use suite_connector.Config.Connections.{
  LocalConnectionSettings, HubEnvironment, hub_base, TlsSetup, tls_failed, certificates,
  finish_connection, finish_named, finish_certified, finish_secure, with_client_id,
  create_hub_connection, create_local_connection, create_cloud_connection, local_config,
  cloud_config,
}

-- The will that the local connection leaves with the broker.
abbrev pub status_will : Text → Option (Text × Text × ℕ × Bool)
status_will status = some (codes "edge/connection/remote/status", status, 1, true)

module _ {F : Type 0} (below_one : F → Bool) (parses : Text → Bool) (uuid : Text) (two : F)
    (url : Text) where
  -- With an address that can be parsed, names and a status that are not empty, a default multiplier
  -- of at least one and a TLS set-up that works, both connections to the local broker are made,
  -- whatever the settings; both reconnect by themselves, under the names given, and the first
  -- leaves its status as a will that the broker keeps.
  pub local_connections_made :
      (local cloud : Text) (secure clean_session : Bool) (status : Text)
      (s : LocalConnectionSettings)
      → is_empty local ≡ false
      → is_empty cloud ≡ false
      → is_empty url ≡ false
      → parses url ≡ true
      → below_one two ≡ false
      → is_empty status ≡ false
      → ((o : ClientOptions) × (create_local_connection below_one parses uuid two url local
              (some secure)
              status
              s
            ≡ inr o)
          × (o.auto_reconnect ≡ true)
          × (o.client_id ≡ local)
          × (o.will ≡ status_will status))
        × ((o : ClientOptions) × (create_cloud_connection below_one parses uuid two url cloud
                (some secure)
                clean_session
                s
              ≡ inr o)
            × (o.auto_reconnect ≡ true)
            × (o.client_id ≡ cloud)
            × (o.clean_session ≡ clean_session))
  unfolding create_local_connection create_cloud_connection new_mqtt_connection
      new_mqtt_client_config create_client_options
  local_connections_made local cloud secure clean_session status s l k u p b w = (
    (
      create_client_options (local_config two url secure status s) local true,
      (rw (u, p, b, l) refl),
      refl,
      refl,
      (rw w refl),
    ),
    (
      create_client_options (cloud_config two url secure clean_session s) cloud clean_session,
      (rw (u, p, b, k) refl),
      refl,
      refl,
      refl,
    ),
  )

abbrev pub has_certificate : TlsSetup → Bool
has_certificate (certificates (_ ∷ _)) = true
has_certificate _ = false

abbrev pub hub_credentials : HubConnectionSettings → Credentials
hub_credentials s = record { user_name = new_hub_username s; password = s.password }

-- What the hub's client does: it leaves reconnecting to the external loop, and presents a user name
-- exactly if it has no certificate to present.
pub record IsHubClient (secure certified : Bool) (named : Credentials) (o : ClientOptions)
    : Type 0 where
  pub single_loop : o.auto_reconnect ≡ false
  pub secured : o.uses_tls ≡ secure
  pub signed : o.credentials ≡ (if secure && certified then none else some named)

hub_credentials-with_client_id :
    (fresh : Text) (s : HubConnectionSettings)
    → hub_credentials (with_client_id fresh s) ≡ hub_credentials s
unfolding with_client_id new_hub_username
hub_credentials-with_client_id fresh s = elim (Bool-cases (is_empty s.client_id)) [
  | inl unnamed ↦ rw (unnamed, with_client_id) refl
  | inr named ↦ rw (named, with_client_id) refl
]

hub_username_nonempty : (s : HubConnectionSettings) → is_empty (new_hub_username s) ≡ false
unfolding new_hub_username
hub_username_nonempty s = elim (Bool-cases (is_empty s.username)) [
  | inl unnamed ↦ rw (unnamed, new_hub_username) (is_empty-at s.auth_id s.tenant_id)
  | inr named ↦ rw (named, new_hub_username) named
]
  where
    is_empty-at : (a t : Text) → is_empty (a ++ (codes "@" ++ t)) ≡ false
    is_empty-at [] t = refl
    is_empty-at (_ ∷ _) t = refl

module _ {F : Type 0} (below_one : F → Bool) (parses : Text → Bool) (uuid : Text)
    (replace_pattern : Text → ℕ → Option Text) (is_namespaced : Text → Bool) where
  finish_connection-fields :
      (c : Configuration F) (s : HubConnectionSettings) (o : ClientOptions)
      → (finish_connection below_one parses uuid replace_pattern is_namespaced c s).result ≡ inr o
      → (o.auto_reconnect ≡ (ltb_ℤ (pos 0) c.max_reconnect_interval && not c.external_reconnect))
        × (o.uses_tls ≡ c.uses_tls)
        × (o.credentials ≡ (if is_empty c.credentials.user_name then none else some c.credentials))
  unfolding finish_connection new_mqtt_connection create_client_options
  finish_connection-fields c s o h = elim (Option-cases (validate below_one parses c)) [
    | inr (fault, e) ↦ absurd (ground (arith, h, e))
    | inl fine ↦ elim (Bool-cases (is_empty s.client_id)) [
      | inl unnamed ↦
          let made : create_client_options c uuid true ≡ o = ground (arith, h, fine, unnamed) in
          rw (sym made) (refl, refl, refl)
      | inr named ↦
          let made : create_client_options c s.client_id c.clean_session ≡ o =
            ground (arith, h, fine, named) in
          rw (sym made) (refl, refl, refl)
    ]
  ]

  finish_named-IsHubClient :
      (c : Configuration F) (certified secure : Bool) (s : HubConnectionSettings)
      (o : ClientOptions)
      → c.external_reconnect ≡ true
      → c.uses_tls ≡ secure
      → (secure && certified) ≡ false
      → (finish_named below_one parses uuid replace_pattern is_namespaced c s).result ≡ inr o
      → IsHubClient secure certified (hub_credentials s) o
  unfolding finish_named new_hub_username
  finish_named-IsHubClient c certified secure s o x u n h =
      let named = record c { credentials = hub_credentials s } in
      let (single, tls, cred) =
        finish_connection-fields named (record s { use_certificate = false }) o h in
      record {
        single_loop = ground (arith, single, x);
        secured = tls ∙ u;
        signed = cred ∙ (rw (n, hub_username_nonempty s) refl);
      }

  finish_certified-IsHubClient :
      (c : Configuration F) (certificate : ℕ) (s : HubConnectionSettings) (o : ClientOptions)
      → c.external_reconnect ≡ true
      → c.uses_tls ≡ true
      → c.credentials.user_name ≡ []
      → (finish_certified below_one parses uuid replace_pattern is_namespaced c certificate
          s).result
        ≡ inr o
      → (t : Credentials) → IsHubClient true true t o
  unfolding finish_certified
  finish_certified-IsHubClient c certificate s o x u n h t =
      elim (Bool-cases (is_empty s.device_id_pattern)) [
        | inl without ↦ from s (ground (arith, h, without))
        | inr pattern ↦ elim (Option-cases (replace_pattern s.device_id_pattern certificate)) [
          | inl missing ↦ absurd (ground (arith, h, pattern, missing))
          | inr (device, found) ↦ elim (Bool-cases (is_namespaced device)) [
            | inl good ↦
                from (record s { device_id = device }) (ground (arith, h, pattern, found, good))
            | inr bad ↦ absurd (ground (arith, h, pattern, found, bad))
          ]
        ]
      ]
    where
      from :
          (s' : HubConnectionSettings)
          → (finish_connection below_one parses uuid replace_pattern is_namespaced c s').result
            ≡ inr o
          → IsHubClient true true t o
      from s' h' =
          let (single, tls, cred) = finish_connection-fields c s' o h' in
          record {
            single_loop = ground (arith, single, x);
            secured = tls ∙ u;
            signed = cred ∙ (rw n refl);
          }

  finish_secure-IsHubClient :
      (c : Configuration F) (tls : TlsSetup) (s : HubConnectionSettings) (o : ClientOptions)
      → c.external_reconnect ≡ true
      → c.credentials.user_name ≡ []
      → (finish_secure below_one parses uuid replace_pattern is_namespaced c tls s).result ≡ inr o
      → IsHubClient true (has_certificate tls) (hub_credentials s) o
  unfolding finish_secure
  finish_secure-IsHubClient c tls_failed s o x n h = cc
  finish_secure-IsHubClient c (certificates []) s o x n h =
      finish_named-IsHubClient (record c { uses_tls = true }) false true s o x refl refl h
  finish_secure-IsHubClient c (certificates (certificate ∷ _)) s o x n h =
      finish_certified-IsHubClient (record c { uses_tls = true }) certificate s o x refl n h
        (hub_credentials s)

  finish_either-IsHubClient :
      (secure : Bool) (c : Configuration F) (tls : TlsSetup) (s : HubConnectionSettings)
      (o : ClientOptions)
      → c.external_reconnect ≡ true
      → c.uses_tls ≡ false
      → c.credentials.user_name ≡ []
      → (if secure
          then finish_secure below_one parses uuid replace_pattern is_namespaced c tls s
          else finish_named below_one parses uuid replace_pattern is_namespaced c s).result
        ≡ inr o
      → IsHubClient secure (has_certificate tls) (hub_credentials s) o
  finish_either-IsHubClient false c tls s o x u n h =
      finish_named-IsHubClient c (has_certificate tls) false s o x u refl h
  finish_either-IsHubClient true c tls s o x u n h = finish_secure-IsHubClient c tls s o x n h

  -- A hub connection that is set up leaves reconnecting to the external loop, uses TLS exactly for a
  -- secure scheme, and presents the hub's user name and password exactly if it is not secure or has no
  -- certificate.
  pub create_hub_connection-IsHubClient :
      (two : F) (url scheme fresh : Text) (env : HubEnvironment F) (nop_store : Bool)
      (tls : TlsSetup) (given : HubConnectionSettings) (o : ClientOptions)
      → (create_hub_connection below_one parses uuid replace_pattern is_namespaced two url scheme
          fresh env nop_store tls given).result
        ≡ inr o
      → IsHubClient (is_connection_secure scheme) (has_certificate tls) (hub_credentials given) o
  unfolding create_hub_connection new_mqtt_client_config
  create_hub_connection-IsHubClient two url scheme fresh env nop_store tls given o h =
      rw (sym (hub_credentials-with_client_id fresh given)) (
        finish_either-IsHubClient (is_connection_secure scheme) (hub_base two url env nop_store) tls
          (with_client_id fresh given) o refl refl refl h)
