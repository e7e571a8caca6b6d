-- ===== src/App/Background.antt =====
-- internal/app/app.go: `runTransitRetry`, a tick of which moves the expired entries of the transit
-- cache to the dead-letter queue. A tick reads the clock twice, for `Drain` and for `Append`; the
-- calls of `Append` in one tick get one instant.
pub mod Expiry
use mrmi_gateway.Prelude.{ℤ, List, [], ◌∷◌}
use mrmi_gateway.Transit
use mrmi_gateway.Transit.{Cache, drain}
use mrmi_gateway.Delivery.Dlq
use mrmi_gateway.Delivery.Dlq.{entry_for, append}

-- What the loop shares with the forwarder.
pub record State : Type 0 where
  pub transit : Cache
  pub dlq : List Dlq.Entry

unfoldable pub move_all : List Transit.Entry → ℤ → List Dlq.Entry → List Dlq.Entry
move_all [] now_unix dlq = dlq
move_all (e ∷ es) now_unix dlq =
    move_all es now_unix (append (entry_for e.env e.peer_addr) now_unix dlq)

-- A tick.
unfoldable pub transit_tick : ℤ → ℤ → State → State
unfolding move_all
transit_tick now now_unix s =
    let (gone, c) = drain now s.transit in
    record { transit = c; dlq = move_all gone now_unix s.dlq }
