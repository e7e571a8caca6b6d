-- ===== src/Crl.antt =====
-- internal/crl/store.go: the certificate revocation list. A signature is a byte string, modelled
-- as a text; `now` is the instant that time.Now() returns in the call.
pub mod Laws
pub mod Merge
mod Examples
use mrmi_gateway.Prelude.{
  ℕ, ℤ, leb, String, Bool, false, Option, none, some, List, [], ◌∷◌, ◌++◌, if◌then◌else◌, length,
}
use mrmi_gateway.Prelude.Map
use mrmi_gateway.Prelude.Map.{Map}
use mrmi_gateway.Prelude.Text.{contains}

pub record Entry : Type 0 where
  pub node_id : String
  pub reason : String
  pub revoked_at : ℤ
  pub signatures : List String

pub record Store : Type 0 where
  pub entries : Map Entry

abbrev pub empty : Store
empty = record { entries = [] }

-- The entry that `Revoke` works on: the stored one, or a new one with no signature.
pub entry_or_new : String → String → ℤ → Option Entry → Entry
entry_or_new node_id reason now none = record {
  node_id = node_id;
  reason = reason;
  revoked_at = now;
  signatures = [];
}
entry_or_new node_id reason now (some e) = e

-- A signature that is there already is not added again.
unfoldable pub sign : String → Entry → Entry
unfolding contains
sign sig e =
    if contains e.signatures sig then e else record e { signatures = e.signatures ++ sig ∷ [] }

-- Store.Revoke
unfoldable pub revoke : String → String → String → ℤ → Store → Store
unfolding entry_or_new sign
revoke node_id reason sig now s = record {
  entries =
      Map.insert node_id (sign sig (entry_or_new node_id reason now (Map.lookup node_id s.entries)))
        s.entries;
}

pub corroborated : Option Entry → Bool
corroborated none = false
corroborated (some e) = leb 2 (length e.signatures)

-- Store.IsRevoked
unfoldable pub is_revoked : String → Store → Bool
unfolding corroborated
is_revoked node_id s = corroborated (Map.lookup node_id s.entries)

unfoldable pub revoke_all : String → String → List String → ℤ → Store → Store
unfolding revoke
revoke_all node_id reason [] now s = s
revoke_all node_id reason (sig ∷ sigs) now s =
    revoke_all node_id reason sigs now (revoke node_id reason sig now s)

-- Store.Merge
unfoldable pub merge : List Entry → ℤ → Store → Store
unfolding revoke_all
merge [] now s = s
merge (e ∷ es) now s = merge es now (revoke_all e.node_id e.reason e.signatures now s)

-- Store.Entries
unfoldable pub entries : Map Entry → List Entry
entries [] = []
entries ((_, e) ∷ m) = e ∷ entries m
