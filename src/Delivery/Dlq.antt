-- ===== src/Delivery/Dlq.antt =====
-- internal/delivery/dlq.go: the dead-letter queue.
pub mod Laws
use mrmi_gateway.Prelude.{
  ℕ, suc, ℤ, pos, String, Bool, Option, none, List, [], ◌∷◌, ◌++◌, ltb_ℤ, leb_ℤ, ◌||◌,
  if◌then◌else◌, length, take, drop,
}
use mrmi_gateway.Prelude.Int.{pos_part, eqb_ℤ}
use mrmi_gateway.Envelope.{Envelope}

-- The error of the last attempt is a text, empty for nil.
pub record Entry : Type 0 where
  pub envelope : Envelope
  pub peer_addr : String
  pub attempts : ℕ
  pub last_err : String
  pub first_seen_unix : ℤ
  pub last_attempt_unix : ℤ
  pub reason : String
  pub next_open_unix : ℤ

-- An entry with every other field zero.
unfoldable pub entry_for : Envelope → String → Entry
entry_for env addr = record {
  envelope = env;
  peer_addr = addr;
  attempts = 0;
  last_err = "";
  first_seen_unix = pos 0;
  last_attempt_unix = pos 0;
  reason = "";
  next_open_unix = pos 0;
}

-- DLQ.Append; `now` is time.Now().Unix()
unfoldable pub append : Entry → ℤ → List Entry → List Entry
append e now entries =
    entries
    ++ (if eqb_ℤ e.first_seen_unix (pos 0) then record e { first_seen_unix = now } else e) ∷ []

-- DLQ.Remove
unfoldable pub remove : ℤ → List Entry → List Entry
remove index entries =
    if ltb_ℤ index (pos 0) || leb_ℤ (pos (length entries)) index
    then entries
    else take (pos_part index) entries ++ drop (suc (pos_part index)) entries

-- DLQ.Size
unfoldable pub size : List Entry → ℕ
size entries = length entries
