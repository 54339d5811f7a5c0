-- ===== src/Connector/Subscriptions/Tests.antt =====
-- The manager as a bag, at a concrete input.
use suite_connector.Prelude.{◌≡◌, refl, ◌&&◌, ◌==◌, some, [], ◌∷◌}
use suite_connector.Prelude.Text.{Text, codes, text_eq}
use suite_connector.Connector.Subscriptions.{
  Manager, new_subscription_manager, lookup, insert, erase, add0, remove0, finish, add, remove,
}
use suite_connector.Connector.Subscriptions.Counts.{is_set}
use suite_connector.Connector.Subscriptions.Bag.{
  bag_of, add_topic, remove_topic, drop_first, times_in, view, adds, removes, use_manager, use_bag,
  use_manager_refines,
}

abbrev events : Text
events = codes "e/#"

abbrev commands : Text
commands = codes "c/#"

abbrev manager : Manager
manager = record new_subscription_manager { conn = some 7 }

-- Two references of the one topic, and one that came and went of the other.
abbrev used : Manager
used = record manager { topics = (events, 2) ∷ [] }

use_manager_run :
    use_manager (adds events ∷ adds commands ∷ adds events ∷ removes commands ∷ []) manager ≡ used
unfolding use_manager add remove add0 remove0 finish lookup insert erase text_eq
use_manager_run = refl

-- The order of the calls leaves no trace.
use_bag_run :
    use_bag (adds events ∷ adds commands ∷ adds events ∷ removes commands ∷ []) (view manager)
    ≡ bag_of (events ∷ events ∷ [])
unfolding use_bag add_topic remove_topic drop_first view text_eq
use_bag_run = refl

use_manager_refines_example :
    let us = adds events ∷ adds commands ∷ adds events ∷ removes commands ∷ [] in
    let m' = use_manager us manager in
    (view m' ≡ use_bag us (view manager))
    × ((add commands m').answer ≡ (times_in commands (view m') == 0 && is_set m'.conn))
    × ((remove commands m').answer ≡ (times_in commands (view m') == 1 && is_set m'.conn))
use_manager_refines_example =
    use_manager_refines (adds events ∷ adds commands ∷ adds events ∷ removes commands ∷ []) manager
      commands tt
