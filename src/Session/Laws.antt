-- ===== src/Session/Laws.antt =====
-- internal/session/tracker.go: how the counter of a sender moves.
use Prim.Native.Nat.{max}
use mrmi_gateway.Prelude.{ℕ, ◌+◌, ◌<◌, String, ◌≡◌, arith, ◌==◌, eq_iff, if◌then◌else◌}
use mrmi_gateway.Prelude.Map.{lookup-insert}
use mrmi_gateway.Session.{u64_mod, Tracker, last, set_last, validate}

last-set_last :
    (k j : String) (n : ℕ) (t : Tracker)
    → last j (set_last k n t) ≡ (if k == j then n else last j t)
unfolding last set_last
last-set_last k j n t = ground (arith, lookup-insert k j n t.next)

-- After a number below 2^64 arrived at a counter below 2^64 - 1, the counter of the sender is the
-- larger of the old counter and
-- the number; no other sender's counter changes.
last-validate :
    (k j : String) (seq : ℕ) (t : Tracker)
    → seq < u64_mod
    → last k t + 1 < u64_mod
    → last j (validate k seq t).1 ≡ (if k == j then max (last k t) seq else last j t)
unfolding validate
last-validate k j seq t h b = ground (arith, last-set_last k j seq t, eq_iff k j)
