-- ===== src/Inbox.antt =====
-- internal/inbox/inbox.go: the fan-out of events to subscribers. A channel is its buffer of at most 64
-- events; what a subscriber takes out is `take_event`, a receive from the channel.
pub mod Delivery
mod Examples
use mrmi_gateway.Prelude.{
  ℕ, ◌+◌, ◌%◌, ◌^◌, ltb, nat_eq, ℤ, String, Bool, Option, none, some, List, [], ◌∷◌, ◌++◌,
  if◌then◌else◌, length,
}

pub record Event : Type 0 where
  pub idempotency_key : String
  pub sender_region : String
  pub recipient_region : String
  pub trust_tier : ℕ
  pub payload : List ℕ
  pub timestamp : ℤ

-- The subscribers' buffers by their identifiers (uint64), and the next identifier.
pub record Inbox : Type 0 where
  pub subs : List (ℕ × List Event)
  pub next : ℕ

-- subBufSize
abbrev pub sub_buf_size : ℕ
sub_buf_size = 64

abbrev pub new : Inbox
new = record { subs = []; next = 0 }

-- in.subs[id]
unfoldable pub buffer : ℕ → List (ℕ × List Event) → Option (List Event)
buffer id [] = none
buffer id ((k, b) ∷ subs) = let rest = buffer id subs in if nat_eq k id then some b else rest

-- in.subs[id] = b
unfoldable pub set_buffer : ℕ → List Event → List (ℕ × List Event) → List (ℕ × List Event)
set_buffer id b [] = (id, b) ∷ []
set_buffer id b ((k, old) ∷ subs) =
    let rest = set_buffer id b subs in if nat_eq k id then (id, b) ∷ subs else (k, old) ∷ rest

-- delete(in.subs, id)
unfoldable pub drop_buffer : ℕ → List (ℕ × List Event) → List (ℕ × List Event)
drop_buffer id [] = []
drop_buffer id ((k, b) ∷ subs) =
    let rest = drop_buffer id subs in if nat_eq k id then rest else (k, b) ∷ rest

-- Inbox.Subscribe
unfoldable pub subscribe : Inbox → ℕ × Inbox
subscribe i = (i.next, record { subs = set_buffer i.next [] i.subs; next = (i.next + 1) % 2 ^ 64 })

-- Inbox.Unsubscribe
unfoldable pub unsubscribe : ℕ → Inbox → Inbox
unsubscribe id i = record i { subs = drop_buffer id i.subs }

-- A send that does not block: a full buffer skips the event.
unfoldable pub offer : Event → List Event → List Event
offer e b = if ltb (length b) sub_buf_size then b ++ e ∷ [] else b

unfoldable pub offer_all : Event → List (ℕ × List Event) → List (ℕ × List Event)
unfolding offer
offer_all e [] = []
offer_all e ((k, b) ∷ subs) = (k, offer e b) ∷ offer_all e subs

-- Inbox.Publish
unfoldable pub publish : Event → Inbox → Inbox
unfolding offer_all
publish e i = record i { subs = offer_all e i.subs }

rest_of : List Event → List Event
rest_of [] = []
rest_of (_ ∷ b) = b

first_of : List Event → Option Event
first_of [] = none
first_of (e ∷ _) = some e

taken : ℕ → Inbox → Option (List Event) → Option Event × Inbox
unfolding first_of rest_of
taken id i none = (none, i)
taken id i (some b) = (first_of b, record i { subs = set_buffer id (rest_of b) i.subs })

-- ev := <-ch, if there is an event
unfoldable pub take_event : ℕ → Inbox → Option Event × Inbox
unfolding taken
take_event id i = taken id i (buffer id i.subs)
