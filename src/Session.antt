-- ===== src/Session.antt =====
-- internal/session/tracker.go: sequence numbers for each sender, uint64.
pub mod Laws
use mrmi_gateway.Prelude.{
  ℕ, zero, ◌+◌, ◌%◌, ◌^◌, ltb, nat_eq, String, Bool, Option, none, some, if◌then◌else◌,
}
use mrmi_gateway.Prelude.Map
use mrmi_gateway.Prelude.Map.{Map}

abbrev pub u64_mod : ℕ
u64_mod = 2 ^ 64

pub record Tracker : Type 0 where
  pub next : Map ℕ

pub or_zero : Option ℕ → ℕ
or_zero none = 0
or_zero (some n) = n

-- t.next[senderID], zero if it is missing
unfoldable pub last : String → Tracker → ℕ
unfolding or_zero
last sender t = or_zero (Map.lookup sender t.next)

set_last : String → ℕ → Tracker → Tracker
set_last sender n t = record { next = Map.insert sender n t.next }

-- Tracker.NextSeq
unfoldable pub next_seq : String → Tracker → ℕ × Tracker
unfolding last set_last
next_seq sender t = let seq = (last sender t + 1) % u64_mod in (seq, set_last sender seq t)

-- The warning names what came and what was expected.
pub record OutOfOrder : Type 0 where
  pub got : ℕ
  pub expected : ℕ

-- Tracker.Validate
unfoldable pub validate : String → ℕ → Tracker → Option OutOfOrder × Tracker
unfolding last set_last
validate sender seq t =
    let expected = (last sender t + 1) % u64_mod in
    if nat_eq seq expected then (none, set_last sender seq t) else (
      some (record { got = seq; expected = expected }),
      if ltb (last sender t) seq then set_last sender seq t else t,
    )
