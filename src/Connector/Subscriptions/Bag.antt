-- ===== src/Connector/Subscriptions/Bag.antt =====
-- What the subscription manager stands for: a bag of topics, one for each reference, without an order.
use mathlib.Core.Quot
use mathlib.Core.Quot.{Quot, Quot-set}
use suite_connector.Prelude.{
  ℕ, zero, suc, ◌+◌, ◌-◌, ◌≡◌, refl, ap, ◌&&◌, List, [], ◌∷◌, ◌++◌, arith, ◌==◌, if◌then◌else◌, ◌∙◌,
}
use suite_connector.Prelude.Text.{Text, text_eq, text_eq_iff}
use suite_connector.Connector.Subscriptions.{Counts, lookup, Manager, add, remove}
use suite_connector.Connector.Subscriptions.Counts.{
  IsValid, references, is_set, add_counts, remove_counts,
}

abbrev pub times : Text → List Text → ℕ
times t [] = 0
times t (u ∷ us) = (if text_eq u t then 1 else 0) + times t us

abbrev pub SameTopics : List Text → List Text → Type 0
SameTopics ts us = (t : Text) → times t ts ≡ times t us

abbrev pub TopicBag : Type 0
TopicBag = Quot SameTopics

abbrev pub bag_of : List Text → TopicBag
bag_of = Quot.mk

-- The list without the first entry of the topic.
unfoldable pub drop_first : Text → List Text → List Text
drop_first t [] = []
drop_first t (u ∷ us) = if text_eq u t then us else u ∷ drop_first t us

times-drop_first :
    (t j : Text) (us : List Text)
    → times j (drop_first t us) ≡ (if text_eq t j then times j us - 1 else times j us)
unfolding drop_first
times-drop_first t j [] = ground arith
times-drop_first t j (u ∷ us) =
    ground (arith, times-drop_first t j us, text_eq_iff t j, text_eq_iff u t, text_eq_iff u j)

pub drop_first-SameTopics :
    (t : Text) (ts us : List Text)
    → SameTopics ts us
    → SameTopics (drop_first t ts) (drop_first t us)
drop_first-SameTopics t ts us same j =
    ground (arith, same j, times-drop_first t j ts, times-drop_first t j us)

unfoldable pub times_in : Text → TopicBag → ℕ
times_in t = Quot.lift (hlevel) (times t) (λ ts us same. same t)

unfoldable pub add_topic : Text → TopicBag → TopicBag
add_topic t =
    Quot.lift Quot-set (λ ts. bag_of (t ∷ ts))
      (λ ts us same. Quot.sound (λ j. omega (arith, same j)))

unfoldable pub remove_topic : Text → TopicBag → TopicBag
remove_topic t =
    Quot.lift Quot-set (λ ts. bag_of (drop_first t ts))
      (λ ts us same. Quot.sound (drop_first-SameTopics t ts us same))

abbrev pub repeat : ℕ → Text → List Text
repeat zero t = []
repeat (suc n) t = t ∷ repeat n t

-- Each topic as often as it is referred to.
abbrev pub expand : Counts → List Text
expand [] = []
expand ((k, c) ∷ m) = repeat c k ++ expand m

unfoldable pub view : Manager → TopicBag
view m = bag_of (expand m.topics)

times-repeat :
    (t k : Text) (c : ℕ) (us : List Text)
    → times t (repeat c k ++ us) ≡ (if text_eq k t then c else 0) + times t us
times-repeat t k zero us = ground arith
times-repeat t k (suc c) us = ground (arith, times-repeat t k c us)

times-expand : (t : Text) (m : Counts) → IsValid m → times t (expand m) ≡ references t m
unfolding references lookup
times-expand t [] v = refl
times-expand t ((k, c) ∷ m) v =
    ground (arith, times-expand t m v.2, times-repeat t k c (expand m), v.1, text_eq_iff k t)

-- Two bags with each topic as often are the same.
bag_ext : (ts us : List Text) → SameTopics ts us → bag_of ts ≡ bag_of us
bag_ext ts us same = Quot.sound same

view-add :
    (t : Text) (m : Manager) → IsValid m.topics → view (add t m).manager ≡ add_topic t (view m)
unfolding view add_topic
view-add t m v =
    let (valid, counted, _, _, _) = add_counts t m v in
    bag_ext (expand (add t m).manager.topics) (t ∷ expand m.topics) (λ j.
      ground (
        arith,
        times-expand j (add t m).manager.topics valid,
        times-expand j m.topics v,
        counted j,
      ))

view-remove :
    (t : Text) (m : Manager)
    → IsValid m.topics
    → view (remove t m).manager ≡ remove_topic t (view m)
unfolding view remove_topic
view-remove t m v =
    let (valid, counted, _, _, _) = remove_counts t m v in
    bag_ext (expand (remove t m).manager.topics) (drop_first t (expand m.topics)) (λ j. ground (
      arith,
      times-expand j (remove t m).manager.topics valid,
      times-expand j m.topics v,
      counted j,
      times-drop_first t j (expand m.topics),
    ))

times_in-view :
    (t : Text) (m : Manager) → IsValid m.topics → times_in t (view m) ≡ references t m.topics
unfolding times_in view
times_in-view t m v = times-expand t m.topics v

-- Calls of Add and Remove, in order.
pub data Use : Type 0 where
  adds removes : Text → Use

unfoldable pub use_manager : List Use → Manager → Manager
use_manager [] m = m
use_manager (adds t ∷ us) m = use_manager us (add t m).manager
use_manager (removes t ∷ us) m = use_manager us (remove t m).manager

unfoldable pub use_bag : List Use → TopicBag → TopicBag
use_bag [] b = b
use_bag (adds t ∷ us) b = use_bag us (add_topic t b)
use_bag (removes t ∷ us) b = use_bag us (remove_topic t b)

-- From a well-formed manager, any calls of Add and Remove leave one that stands for the bag that they
-- make of the one it stood for: Add puts its topic in once, Remove takes it out once, if it is there.
-- The next Add answers true exactly if the bag lacks its topic and a connection is set, and the next
-- Remove exactly if the bag has its topic once and a connection is set.
pub use_manager_refines :
    (us : List Use) (m : Manager) (t : Text)
    → IsValid m.topics
    → let m' = use_manager us m in
      (view m' ≡ use_bag us (view m))
      × ((add t m').answer ≡ (times_in t (view m') == 0 && is_set m'.conn))
      × ((remove t m').answer ≡ (times_in t (view m') == 1 && is_set m'.conn))
unfolding use_manager use_bag
use_manager_refines [] m t v =
    let (_, _, _, _, added) = add_counts t m v in
    let (_, _, _, _, removed) = remove_counts t m v in
    let counted = times_in-view t m v in (refl, rw counted added, rw counted removed)
use_manager_refines (adds u ∷ us) m t v =
    let (viewed, subscribed, unsubscribed) =
      use_manager_refines us (add u m).manager t (add_counts u m v).0 in
    (viewed ∙ ap (use_bag us) (view-add u m v), subscribed, unsubscribed)
use_manager_refines (removes u ∷ us) m t v =
    let (viewed, subscribed, unsubscribed) =
      use_manager_refines us (remove u m).manager t (remove_counts u m v).0 in
    (viewed ∙ ap (use_bag us) (view-remove u m v), subscribed, unsubscribed)
