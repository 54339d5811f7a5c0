-- ===== src/Connector/Dynamic/Tests.antt =====
-- A run of a dynamic subscriber, and the property at a concrete input.
use suite_connector.Prelude.{ℕ, ◌≡◌, refl, none, some, true, List, [], ◌∷◌}
use suite_connector.Prelude.Text.{codes}
use suite_connector.Prelude.Outcome.{external}
use suite_connector.Connector.Config.{new_mqtt_client_config}
use suite_connector.Connector.Dynamic.{
  Settings, Use, subscribing, loop_ends, uses, use_step, take_at, stop, subscribe,
  new_dynamic_subscriber,
}
use suite_connector.Connector.Dynamic.Balance.{IsBalanced, new_dynamic_subscriber-IsBalanced}

abbrev dynamic_settings : Settings ℕ
dynamic_settings = record {
  config = new_mqtt_client_config 2 (codes "tcp://local:1883");
  qos = 1;
  auto_delete = true;
  client_id_provider = none;
}

abbrev dynamic_uses : List Use
dynamic_uses =
    subscribing (codes "u") (codes "a") none
    ∷ subscribing (codes "v") (codes "b") (some (external 1))
    ∷ loop_ends 0
    ∷ []

-- One loop has come and gone, and one client could not connect.
dynamic_run : (uses dynamic_settings dynamic_uses new_dynamic_subscriber).wait_group ≡ 0
unfolding uses use_step take_at stop subscribe
dynamic_run = refl

new_dynamic_subscriber-IsBalanced_example :
    IsBalanced (uses dynamic_settings dynamic_uses new_dynamic_subscriber)
new_dynamic_subscriber-IsBalanced_example =
    new_dynamic_subscriber-IsBalanced dynamic_settings dynamic_uses
