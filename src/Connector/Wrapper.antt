-- ===== src/Connector/Wrapper.antt =====
-- connector/wrapper.go: the part that publishers and subscribers share, which is closed once.
use suite_connector.Prelude.{ℕ, zero, suc, ◌+◌, ◌≡◌, refl, Bool, true, false, arith}

-- The flag, and how often the channel of closing has been closed (a second time would panic).
pub record Wrapper : Type 0 where
  pub closed : Bool
  pub closings : ℕ

unfoldable pub is_closed : Wrapper → Bool
is_closed w = w.closed

-- CompareAndSwap: the answer is whether it was closed before.
unfoldable pub do_close : Wrapper → Wrapper × Bool
do_close w = (record w { closed = true }, w.closed)

unfoldable pub close : Wrapper → Wrapper
unfolding do_close
close w =
    let (w', was_closed) = do_close w in
    elim was_closed [ true ↦ w' | false ↦ record w' { closings = w'.closings + 1 } ]

abbrev pub new_wrapper : Wrapper
new_wrapper = record { closed = false; closings = 0 }

unfoldable pub close_times : ℕ → Wrapper → Wrapper
close_times zero w = w
close_times (suc n) w = close_times n (close w)

close_closed : (n : ℕ) (w : Wrapper) → w.closed ≡ true → close_times n w ≡ w
unfolding close_times close
close_closed zero w h = refl
close_closed (suc n) w h = ground (arith, close_closed n w h)

-- However often a new wrapper is closed, its channel is closed exactly once.
pub close_once :
    (n : ℕ)
    → ((close_times (suc n) new_wrapper).closings ≡ 1)
      × (is_closed (close_times (suc n) new_wrapper) ≡ true)
unfolding close_times close is_closed
close_once n = ground (arith, close_closed n (record { closed = true; closings = 1 }) refl)
