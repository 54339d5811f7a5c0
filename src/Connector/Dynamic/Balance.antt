-- ===== src/Connector/Dynamic/Balance.antt =====
-- Every client that connects is disconnected, and the wait group counts the message loops.
use suite_connector.Prelude.{
  ℕ, zero, suc, ◌+◌, ◌≡◌, refl, true, false, Option-cases, some, inl, inr, List, [], ◌∷◌, ◌++◌,
  length, length-append, arith,
}
use suite_connector.Prelude.Text.{Text}
use suite_connector.Connector.Dynamic.{
  Call, connects, subscribes, unsubscribes, disconnects, Settings, Dynamic, subscribe_initialize,
  subscribe, stop, take_at, Use, initializes, subscribing, loop_ends, close_called, use_step, uses,
  new_dynamic_subscriber,
}

-- How many clients have connected, and how many have been disconnected.
unfoldable pub connections : List Call → ℕ
connections [] = 0
connections (connects o true ∷ cs) = connections cs + 1
connections (_ ∷ cs) = connections cs

unfoldable pub disconnections : List Call → ℕ
disconnections [] = 0
disconnections (disconnects ∷ cs) = disconnections cs + 1
disconnections (_ ∷ cs) = disconnections cs

connections-append : (cs ds : List Call) → connections (cs ++ ds) ≡ connections cs + connections ds
unfolding connections
connections-append [] ds = omega arith
connections-append (connects o true ∷ cs) ds = omega (arith, connections-append cs ds)
connections-append (connects o false ∷ cs) ds = connections-append cs ds
connections-append (subscribes f ∷ cs) ds = connections-append cs ds
connections-append (unsubscribes t ∷ cs) ds = connections-append cs ds
connections-append (disconnects ∷ cs) ds = connections-append cs ds

disconnections-append :
    (cs ds : List Call) → disconnections (cs ++ ds) ≡ disconnections cs + disconnections ds
unfolding disconnections
disconnections-append [] ds = omega arith
disconnections-append (connects o b ∷ cs) ds = disconnections-append cs ds
disconnections-append (subscribes f ∷ cs) ds = disconnections-append cs ds
disconnections-append (unsubscribes t ∷ cs) ds = disconnections-append cs ds
disconnections-append (disconnects ∷ cs) ds = omega (arith, disconnections-append cs ds)

-- The wait group, the running loops and the open clients agree.
abbrev pub IsBalanced : Dynamic → Type 0
IsBalanced d =
    (d.wait_group ≡ length d.running)
    × (connections d.calls ≡ disconnections d.calls + length d.running)

length-take_at :
    (i : ℕ) (xs : List (List Text)) (x : List Text) (ys : List (List Text))
    → take_at i xs ≡ some (x, ys)
    → length xs ≡ length ys + 1
unfolding take_at
length-take_at i [] x ys h = absurd (ground (arith, h))
length-take_at zero (y ∷ xs) x ys h = ground (arith, h)
length-take_at (suc i) (y ∷ xs) x ys h = elim (Option-cases (take_at i xs)) [
  | inl missing ↦ absurd (ground (arith, h, missing))
  | inr ((z, zs), found) ↦ ground (arith, h, found, length-take_at i xs z zs found)
]

module _ {F : Type 0} (settings : Settings F) where
  use_step-IsBalanced : (u : Use) (d : Dynamic) → IsBalanced d → IsBalanced (use_step settings u d)
  unfolding use_step subscribe_initialize subscribe stop connections disconnections
  use_step-IsBalanced (initializes uuid topic c s) d v =
      grind (arith, connections-append, disconnections-append)
  use_step-IsBalanced (subscribing uuid topic c) d v =
      grind (arith, connections-append, disconnections-append, length-append)
  use_step-IsBalanced (loop_ends i) d v = elim (Option-cases (take_at i d.running)) [
    | inl missing ↦ ground (arith, missing, v)
    | inr ((topics, rest), found) ↦ grind (
      arith,
      found,
      connections-append,
      disconnections-append,
      length-take_at i d.running topics rest found,
    )
  ]
  use_step-IsBalanced close_called d v = v

  uses-IsBalanced : (us : List Use) (d : Dynamic) → IsBalanced d → IsBalanced (uses settings us d)
  unfolding uses
  uses-IsBalanced [] d v = v
  uses-IsBalanced (u ∷ us) d v =
      uses-IsBalanced us (use_step settings u d) (use_step-IsBalanced u d v)

  -- However a new dynamic subscriber is used, whatever its tokens answer, its wait group counts the
  -- running message loops, and the clients that have connected are those that have been disconnected
  -- and one for each of these loops.
  pub new_dynamic_subscriber-IsBalanced :
      (us : List Use) → IsBalanced (uses settings us new_dynamic_subscriber)
  unfolding connections disconnections
  new_dynamic_subscriber-IsBalanced us = uses-IsBalanced us new_dynamic_subscriber (refl, refl)
