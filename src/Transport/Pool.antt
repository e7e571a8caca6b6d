-- ===== src/Transport/Pool.antt =====
-- internal/transport/grpc/connpool.go: the pool of client connections. A connection is named by the
-- number of its dial; the heap holds all of them. A call of `Client` runs in two critical sections
-- with a dial in between, so calls interleave: the sections are functions, and `Step` is what any
-- goroutine or the network may do next.
pub mod Leaks
use mrmi_gateway.Prelude.{
  ℕ, zero, suc, String, Bool, true, false, Option, none, some, List, [], ◌∷◌, ◌++◌, ◌≡◌,
  if◌then◌else◌, length, get_elem?,
}
use mrmi_gateway.Prelude.Map
use mrmi_gateway.Prelude.Map.{Map}

-- Client: whether the pool owns it, and whether the connection is not shut down.
pub record Conn : Type 0 where
  pub addr : String
  pub pooled : Bool
  pub is_open : Bool

-- A call of `Client` between its critical sections, before and after the dial has succeeded.
pub data Call : Type 0 where
  dialing : String → Call
  dialed : String → ℕ → Call

-- ConnPool, the connections that were dialed, and the calls between their sections.
pub record State : Type 0 where
  pub conns : Map ℕ
  pub heap : List Conn
  pub calls : List Call

abbrev pub closed : Conn → Conn
closed c = record c { pooled = false; is_open = false }

-- c.pooled = false; c.conn.Close()
unfoldable pub shut : ℕ → List Conn → List Conn
shut id [] = []
shut zero (c ∷ heap) = closed c ∷ heap
shut (suc id) (c ∷ heap) = c ∷ shut id heap

unfoldable pub live : Option Conn → Bool
live none = false
live (some c) = c.is_open

-- The first section of `Client`: a live connection, or none if there is one to dial.
unfoldable pub enter : String → State → Option ℕ × State
unfolding live
enter addr s = elim (Map.lookup addr s.conns) [
  | none ↦ (none, s)
  | some id ↦
      if live (get_elem? s.heap id)
      then (some id, s)
      else (none, record s { conns = Map.delete addr s.conns; heap = shut id s.heap })
]

-- `Dial` has succeeded.
unfoldable pub dial : String → State → ℕ × State
dial addr s = (
  length s.heap,
  record s { heap = s.heap ++ (record { addr = addr; pooled = true; is_open = true }) ∷ [] },
)

-- The second section: the connection of a call that was faster, or the fresh one.
unfoldable pub settle : String → ℕ → State → ℕ × State
settle addr id s = elim (Map.lookup addr s.conns) [
  | some existing ↦ (existing, record s { heap = shut id s.heap })
  | none ↦ (id, record s { conns = Map.insert addr id s.conns })
]

unfoldable pub shut_all : Map ℕ → List Conn → List Conn
unfolding shut
shut_all [] heap = heap
shut_all ((_, id) ∷ conns) heap = shut_all conns (shut id heap)

-- ConnPool.Close
unfoldable pub close_all : State → State
unfolding shut_all
close_all s = record s { conns = []; heap = shut_all s.conns s.heap }

-- The state with other calls in flight.
abbrev pub with_calls : List Call → State → State
with_calls calls s = record s { calls = calls }

-- One step: a call that is answered at once, a call that goes on to dial, a dial that fails or
-- succeeds, a second section, a connection that the network shuts down, or `Close`.
pub data Step (s : State) : State → Type 0 where
  hit : (addr : String) (id : ℕ) (t : State) → enter addr s ≡ (some id, t) → Step s t
  miss :
      (addr : String) (t : State)
      → enter addr s ≡ (none, t)
      → Step s (with_calls (dialing addr ∷ s.calls) t)
  fail :
      (addr : String) (before after : List Call)
      → s.calls ≡ before ++ dialing addr ∷ after
      → Step s (with_calls (before ++ after) s)
  connect :
      (addr : String) (before after : List Call)
      → s.calls ≡ before ++ dialing addr ∷ after
      → Step s (with_calls (before ++ dialed addr (dial addr s).0 ∷ after) (dial addr s).1)
  finish :
      (addr : String) (id : ℕ) (before after : List Call)
      → s.calls ≡ before ++ dialed addr id ∷ after
      → Step s (with_calls (before ++ after) (settle addr id s).1)
  drop : (id : ℕ) → Step s (record s { heap = shut id s.heap })
  close : Step s (close_all s)

abbrev pub initial : State
initial = record { conns = []; heap = []; calls = [] }

pub data Reach : State → Type 0 where
  start : Reach initial
  later : {s t : State} → Reach s → Step s t → Reach t
