-- ===== src/Audit.antt =====
-- internal/audit/log.go: the hash-chained audit log. `sum` stands for the standard library's
-- json.Marshal, sha256.Sum256 and hex.EncodeToString on the hashed fields, with the "sha256:"
-- prefix; the persistent backend is an interface (internal/store/store.go); `now` is what
-- time.Now().UnixMilli() returns in the call.
pub mod Chain
pub mod Tamper
pub mod Recent
mod Examples
use mrmi_gateway.Prelude.{
  ℕ, zero, suc, ◌+◌, ◌-◌, ◌/◌, ◌%◌, ◌^◌, leb, ltb, ℤ, pos, negsuc, String, Bool, true, false, not,
  ◌||◌, Option, none, some, List, [], ◌∷◌, ◌++◌, map, ◌==◌, if◌then◌else◌, length, get_elem?,
}
use Prim.Native.String.{◌++◌ as append_text}
use mrmi_gateway.Config.{Config}
use mrmi_gateway.Schema.{iso20022}

-- audit.Decision
abbrev pub decision_allow : String
decision_allow = "ALLOW"

abbrev pub decision_deny : String
decision_deny = "DENY"

abbrev pub decision_duplicate : String
decision_duplicate = "DUPLICATE"

abbrev pub decision_dummy : String
decision_dummy = "ALLOW/DUMMY"

abbrev pub decision_settlement_final : String
decision_settlement_final = "SETTLEMENT/FINAL"

-- The fields that `hashEntry` hashes.
pub record Payload : Type 0 where
  pub seq : ℕ
  pub timestamp : ℤ
  pub decision : String
  pub reason : String
  pub trust_tier : ℕ
  pub sender_region : String
  pub recipient_region : String
  pub policy_version : String
  pub profile : String
  pub applicable_law : String
  pub dedup_ttl_hours : ℕ
  pub node_scope : String
  pub alliance_id : String
  pub node_region : String
  pub schema_type : String
  pub schema_version : String
  pub retain_long : Bool
  pub settlement_final : Bool
  pub previous_hash : String

-- audit.Entry: those fields and the hash of them.
pub record Entry : Type 0 where
  pub payload : Payload
  pub open payload use *
  pub entry_hash : String

-- store.AuditEntry
pub record StoreEntry : Type 0 where
  pub seq : ℕ
  pub timestamp_unix_ms : ℤ
  pub decision : String
  pub sender_region : String
  pub recipient_region : String
  pub policy_version : String
  pub profile : String
  pub applicable_law : String
  pub reason : String
  pub schema_type : String
  pub schema_version : String
  pub retain_long : Bool
  pub settlement_final : Bool

-- The two methods of store.NodeStore that the log calls; `none` is an error.
pub record AuditStore (B : Type 0) : Type 0 where
  pub audit_append : StoreEntry → B → B
  pub audit_latest : ℤ → B → Option (List StoreEntry)

-- audit.Log: the entries, oldest first, the root and the backend, if one is set.
pub record Log (B : Type 0) : Type 0 where
  pub entries : List Entry
  pub root : String
  pub backend : Option B

-- stringsOfZeros
unfoldable pub strings_of_zeros : ℕ → String
strings_of_zeros zero = ""
strings_of_zeros (suc n) = append_text "0" (strings_of_zeros n)

-- zeroHash
unfoldable pub zero_hash : String
unfolding strings_of_zeros
zero_hash = append_text "sha256:" (strings_of_zeros 64)

-- audit.New
unfoldable pub new : {B : Type 0} → Log B
new = record { entries = []; root = zero_hash; backend = none }

-- Log.SetStore
unfoldable pub set_store : {B : Type 0} → B → Log B → Log B
set_store b l = record l { backend = some b }

-- uint64(d / time.Hour): Go's division truncates towards zero.
unfoldable pub whole_hours : ℤ → ℕ
whole_hours (pos n) = n / 3_600_000_000_000
whole_hours (negsuc n) = (2 ^ 64 - (n + 1) / 3_600_000_000_000) % 2 ^ 64

-- What a caller of the log passes to `Append`.
pub record Draft : Type 0 where
  pub decision : String
  pub reason : String
  pub trust_tier : ℕ
  pub sender_region : String
  pub recipient_region : String
  pub schema_type : String
  pub schema_version : String

-- The fields of the new entry, before the hash.
unfoldable pub draft_payload : Config → Draft → Bool → Bool → ℤ → ℕ → String → Payload
unfolding whole_hours
draft_payload cfg d retain_long settlement_final now count prev_hash = record {
  seq = (count + 1) % 2 ^ 64;
  timestamp = now;
  decision = d.decision;
  reason = d.reason;
  trust_tier = d.trust_tier;
  sender_region = d.sender_region;
  recipient_region = d.recipient_region;
  policy_version = cfg.node.policy_version;
  profile = cfg.profile.name;
  applicable_law = cfg.node.applicable_law;
  dedup_ttl_hours = whole_hours cfg.profile.dedup_ttl;
  node_scope = cfg.node.node_scope;
  alliance_id = cfg.node.alliance_id;
  node_region = cfg.node.region;
  schema_type = d.schema_type;
  schema_version = d.schema_version;
  retain_long = retain_long;
  settlement_final = settlement_final;
  previous_hash = prev_hash;
}

-- toStoreEntry
unfoldable pub to_store_entry : Entry → StoreEntry
to_store_entry e = record {
  seq = e.seq;
  timestamp_unix_ms = e.timestamp;
  decision = e.decision;
  sender_region = e.sender_region;
  recipient_region = e.recipient_region;
  policy_version = e.policy_version;
  profile = e.profile;
  applicable_law = e.applicable_law;
  reason = e.reason;
  schema_type = e.schema_type;
  schema_version = e.schema_version;
  retain_long = e.retain_long;
  settlement_final = e.settlement_final;
}

-- fromStoreEntry: what the store does not hold is zero.
unfoldable pub from_store_entry : StoreEntry → Entry
from_store_entry e = record {
  payload = record {
    seq = e.seq;
    timestamp = e.timestamp_unix_ms;
    decision = e.decision;
    reason = e.reason;
    trust_tier = 0;
    sender_region = e.sender_region;
    recipient_region = e.recipient_region;
    policy_version = e.policy_version;
    profile = e.profile;
    applicable_law = e.applicable_law;
    dedup_ttl_hours = 0;
    node_scope = "";
    alliance_id = "";
    node_region = "";
    schema_type = e.schema_type;
    schema_version = e.schema_version;
    retain_long = e.retain_long;
    settlement_final = e.settlement_final;
    previous_hash = "";
  };
  entry_hash = "";
}

module _ {B : Type 0} (store : AuditStore B) where
  -- backend.AuditAppend, if a backend is set; its error is dropped.
  unfoldable pub persist : Entry → Option B → Option B
  persist e none = none
  persist e (some b) = some (store.audit_append (to_store_entry e) b)

  module _ (sum : Payload → String) where
    -- Log.appendEntry. The chain changes under the mutex, and the backend is told after it is released;
    -- this is one call to its end, with no other call between the two.
    unfoldable pub append_entry : Config → Draft → Bool → Bool → ℤ → Log B → Entry × Log B
    unfolding persist
    append_entry cfg d retain_long settlement_final now l =
        let p = draft_payload cfg d retain_long settlement_final now (length l.entries) l.root in
        let entry : Entry = record { payload = p; entry_hash = sum p } in
        (
          entry,
          record {
            entries = l.entries ++ entry ∷ [];
            root = entry.entry_hash;
            backend = persist entry l.backend;
          },
        )

    -- Log.Append
    unfoldable pub append : Config → Draft → ℤ → Log B → Entry × Log B
    append cfg d now l =
        append_entry cfg d (d.schema_type == iso20022 || cfg.schema_registry.iso20022.retain_long)
          false now l

    -- Log.AppendFinality
    unfoldable pub append_finality : Config → String → String → String → ℤ → Log B → Entry × Log B
    append_finality cfg sender_region recipient_region schema_version now l =
        append_entry cfg
          (record {
            decision = decision_settlement_final;
            reason = "ISO20022_SETTLEMENT_FINAL";
            trust_tier = 0;
            sender_region = sender_region;
            recipient_region = recipient_region;
            schema_type = iso20022;
            schema_version = schema_version;
          })
          true true now l

cons_some : Option Entry → List Entry → List Entry
cons_some none es = es
cons_some (some e) es = e ∷ es

or_empty : Option (List StoreEntry) → List StoreEntry
or_empty none = []
or_empty (some es) = es

-- The entries of the store, if it has any.
prefer : List Entry → List Entry → List Entry
prefer [] in_memory = in_memory
prefer (e ∷ es) in_memory = e ∷ es

-- The loop `out[i] = entries[total-1-i]` of `Recent`; the index stays below the total.
unfoldable pub newest : List Entry → ℕ → ℕ → List Entry
unfolding cons_some
newest entries zero i = []
newest entries (suc n) i =
    cons_some (get_elem? entries (length entries - 1 - i)) (newest entries n (suc i))

-- Entries of the in-memory chain, newest first.
unfoldable pub recent_in_memory : List Entry → ℤ → List Entry
recent_in_memory entries (negsuc _) = []
recent_in_memory entries (pos n) =
    newest entries (if ltb (length entries) n then length entries else n) 0

module _ {B : Type 0} (store : AuditStore B) where
  pub from_backend : ℤ → Option B → List StoreEntry
  unfolding or_empty
  from_backend n none = []
  from_backend n (some b) = or_empty (store.audit_latest n b)

  -- Log.Recent
  unfoldable pub recent : ℤ → Log B → List Entry
  unfolding prefer from_backend
  recent n l =
      prefer (map from_store_entry (from_backend n l.backend)) (recent_in_memory l.entries n)

pub data VerifyError : Type 0 where
  previous_hash_mismatch hash_mismatch : ℕ → VerifyError
  empty_log_root_mismatch root_hash_mismatch : VerifyError

pub data Verified : Type 0 where
  chain_to : String → Verified
  broken : VerifyError → Verified

module _ (sum : Payload → String) where
  -- The loop of `Verify` and of `VerifyFile`, entered with the expected hash and the next number.
  unfoldable pub verify_entries : String → ℕ → List Entry → Verified
  verify_entries prev i [] = chain_to prev
  verify_entries prev i (e ∷ es) =
      let rest = verify_entries e.entry_hash (i + 1) es in
      if not (e.previous_hash == prev)
      then broken (previous_hash_mismatch i)
      else if not (sum e.payload == e.entry_hash)
      then broken (hash_mismatch i)
      else rest

  -- The checks of `Verify` after the loop.
  check_root : List Entry → String → Verified → Option VerifyError
  check_root entries root (broken e) = some e
  check_root [] root (chain_to _) =
      if not (root == zero_hash) then some empty_log_root_mismatch else none
  check_root (e ∷ es) root (chain_to last) =
      if not (root == last) then some root_hash_mismatch else none

  -- Log.Verify
  unfoldable pub verify : {B : Type 0} → Log B → Option VerifyError
  unfolding check_root
  verify l = check_root l.entries l.root (verify_entries zero_hash 1 l.entries)

  -- VerifyFile, on the entries decoded from the file
  unfoldable pub verify_file : List Entry → Verified
  verify_file entries = verify_entries zero_hash 1 entries
