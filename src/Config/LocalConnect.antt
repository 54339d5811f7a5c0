-- ===== src/Config/LocalConnect.antt =====
-- config/connections.go: LocalConnect, the loop that connects to the local broker, and how it ends.
-- What happens in each round is a list of rounds, as for HonoConnect; a list that ends leaves the loop
-- running. The one line that it logs is left out.
use suite_connector.Prelude.{
  ◌≡◌, ◌≢◌, refl, false, none, some, List, [], ◌∷◌, ◌++◌, All, arith, if◌then◌else◌,
}
use suite_connector.Connector.Reconnect.{ConnectError}
use suite_connector.Config.HonoConnect.{
  Answer, signal, made, failed, HonoRound, HonoEnding, pending, connected, canceled,
}

-- The wait after a failed attempt, before the rounds that follow.
unfoldable pub wait_local : HonoRound → HonoEnding → HonoEnding
wait_local r rest = elim r.next_backoff [
  | none ↦ canceled
  | some interval ↦ if r.signal_in_wait then canceled else rest
]

unfoldable pub local_round : HonoRound → Answer → HonoEnding → HonoEnding
unfolding wait_local
local_round r signal rest = canceled
local_round r made rest = connected
local_round r (failed e) rest = wait_local r rest

unfoldable pub local_connect : List HonoRound → HonoEnding
local_connect [] = pending
local_connect (r ∷ rs) = local_round r r.answer (local_connect rs)

-- A failed attempt with a wait that nothing interrupts.
abbrev pub IsRetried : HonoRound → Type 0
IsRetried r =
    ((e : ConnectError) × (r.answer ≡ failed e))
    × (r.next_backoff ≢ none)
    × (r.signal_in_wait ≡ false)

retried_round :
    (r : HonoRound) (rest : HonoEnding) → IsRetried r → local_round r r.answer rest ≡ rest
unfolding local_round
retried_round r rest ((e, failure), goes_on, quiet) = ground (arith, failure, goes_on, quiet)

-- LocalConnect never gives up: after any number of failures, of whatever kind, whose waits nothing
-- interrupts, it goes on like a new one, and is connected once an attempt succeeds.
pub local_connect_goes_on :
    (fs rs : List HonoRound) (r : HonoRound)
    → All IsRetried fs
    → r.answer ≡ made
    → (local_connect (fs ++ rs) ≡ local_connect rs) × (local_connect (fs ++ r ∷ rs) ≡ connected)
unfolding local_connect local_round
local_connect_goes_on [] rs r a m = (refl, rw m refl)
local_connect_goes_on (f ∷ fs) rs r a m =
    let (same, ends) = local_connect_goes_on fs rs r a.1 m in
    (
      rw (retried_round f (local_connect (fs ++ rs)) a.0) same,
      rw (retried_round f (local_connect (fs ++ r ∷ rs)) a.0) ends,
    )
