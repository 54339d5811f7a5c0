-- ===== src/Connector/Config/Valid.antt =====
-- What Validate accepts, and that the client and the external loop never both reconnect.
use suite_connector.Prelude.{
  ◌≡◌, ◌↔◌, refl, Bool, true, false, not, ◌&&◌, ◌||◌, none, arith, inl, inr, Option-cases,
  Bool-cases,
}
use suite_connector.Prelude.Int.{ℤ, pos, ◌≤ℤ◌}
use suite_connector.Prelude.Text.{Text, is_empty}
use suite_connector.Connector.Config.{
  Configuration, ClientOptions, validate, create_client_options, connect_backoff,
  new_mqtt_connection,
}

-- What is asked of a configuration.
pub record IsValid {F : Type 0} (below_one : F → Bool) (parses : Text → Bool) (c : Configuration F)
    : Type 0 where
  pub has_url : is_empty c.url ≡ false
  pub is_url : parses c.url ≡ true
  pub nonneg : pos 0 ≤ℤ c.min_reconnect_interval
  pub ordered : c.min_reconnect_interval ≤ℤ c.max_reconnect_interval
  pub retries : pos 1 ≤ℤ c.auth_err_retries
  pub multiplier : below_one c.backoff_multiplier ≡ false

-- Validate finds no fault exactly in the configurations with an address that can be parsed, reconnect
-- intervals that are not negative and in order, at least one retry, and a multiplier of at least one.
pub validate-none :
    {F : Type 0} (below_one : F → Bool) (parses : Text → Bool) (c : Configuration F)
    → (validate below_one parses c ≡ none) ↔ IsValid below_one parses c
unfolding validate
validate-none below_one parses c = (λ h. ground arith, λ v. ground arith)

one_reconnects :
    {F : Type 0} (c : Configuration F) (id : Text) (clean : Bool)
    → (c.external_reconnect && (create_client_options c id clean).auto_reconnect) ≡ false
unfolding create_client_options
one_reconnects c id clean = ground arith

-- The client that a connection is made with never reconnects by itself when the external loop does;
-- and without a name it has a clean session.
pub new_mqtt_connection-options :
    {F : Type 0} (below_one : F → Bool) (parses : Text → Bool) (uuid : Text) (c : Configuration F)
    (client_id : Text) (o : ClientOptions)
    → new_mqtt_connection below_one parses uuid c client_id ≡ inr o
    → IsValid below_one parses c
      × ((c.external_reconnect && o.auto_reconnect) ≡ false)
      × ((not (is_empty client_id) || o.clean_session) ≡ true)
      × (o.broker ≡ c.url)
unfolding new_mqtt_connection
new_mqtt_connection-options below_one parses uuid c client_id o h =
    elim (Option-cases (validate below_one parses c)) [
      | inr (fault, e) ↦ absurd (ground (arith, h, e))
      | inl fine ↦ elim (Bool-cases (is_empty client_id)) [
        | inl unnamed ↦
            let made : o ≡ create_client_options c uuid true = ground (arith, h, fine, unnamed) in
            (
              (validate-none below_one parses c).0 fine,
              rw made (one_reconnects c uuid true),
              rw (unnamed, made) refl,
              rw made,
            )
        | inr named ↦
            let made : o ≡ create_client_options c client_id c.clean_session =
              ground (arith, h, fine, named) in
            (
              (validate-none below_one parses c).0 fine,
              rw made (one_reconnects c client_id c.clean_session),
              rw named,
              rw made,
            )
      ]
    ]

-- With a valid configuration whose shorter interval is not zero, the back-off of the connect begins
-- with that interval and goes no further than the longer one, which is not below it.
pub connect_backoff-ordered :
    {F : Type 0} (below_one : F → Bool) (parses : Text → Bool) (quarter : F) (initial maximal : ℤ)
    (c : Configuration F)
    → validate below_one parses c ≡ none
    → pos 1 ≤ℤ c.min_reconnect_interval
    → let b = connect_backoff quarter initial maximal c in
      (b.initial_interval ≡ c.min_reconnect_interval)
      × (b.max_interval ≡ c.max_reconnect_interval)
      × (b.initial_interval ≤ℤ b.max_interval)
unfolding connect_backoff
connect_backoff-ordered below_one parses quarter initial maximal c fine nonzero =
    let valid = (validate-none below_one parses c).0 fine in
    let ordered = valid.ordered in ground (arith, ordered, nonzero)
