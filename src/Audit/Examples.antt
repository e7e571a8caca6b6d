-- ===== src/Audit/Examples.antt =====
-- The log's theorems at concrete calls.
use mrmi_gateway.Prelude.{pos, none, List, [], ◌∷◌, ◌≡◌, refl, ◌⊎◌, take}
use mrmi_gateway.Audit.{
  Draft, Log, StoreEntry, new, verify, verify_file, chain_to, recent, from_backend, append,
  append_entry, draft_payload,
}
use mrmi_gateway.Audit.Chain.{Call, add, finality, wire, run, NumberedFrom, run-new-IsSound}
use mrmi_gateway.Audit.Tamper.{Collision, root_determines_log}
use mrmi_gateway.Audit.Recent.{back, recent-eq-take}
use mrmi_gateway.Samples.{config, backend, digest}

abbrev draft : Draft
draft = record {
  decision = "DENY";
  reason = "TRUST_TIER_TOO_LOW";
  trust_tier = 1;
  sender_region = "RU";
  recipient_region = "BY";
  schema_type = "edifact";
  schema_version = "D96A";
}

abbrev calls : List (Call (List StoreEntry))
calls = add config draft (pos 7) ∷ wire [] ∷ finality config "RU" "BY" "2019" (pos 8) ∷ []

run-new-IsSound_example :
    (verify digest (run backend digest calls new) ≡ none)
    × (verify_file digest (run backend digest calls new).entries
        ≡ chain_to (run backend digest calls new).root)
    × NumberedFrom 0 (run backend digest calls new).entries
run-new-IsSound_example = run-new-IsSound backend digest calls

-- Two logs with the same call, one of them with a backend.
abbrev short : Log (List StoreEntry)
short = run backend digest (add config draft (pos 7) ∷ []) new

abbrev wired : Log (List StoreEntry)
wired = run backend digest (wire [] ∷ add config draft (pos 7) ∷ []) new

root_determines_log_example : (short.entries ≡ wired.entries) ⊎ Collision digest
unfolding run append append_entry draft_payload new
root_determines_log_example =
    root_determines_log digest short wired
      (run-new-IsSound backend digest (add config draft (pos 7) ∷ [])).0
      (run-new-IsSound backend digest (wire [] ∷ add config draft (pos 7) ∷ [])).0 refl

recent-eq-take_example : recent backend (pos 1) short ≡ take 1 (back short.entries)
unfolding run append append_entry new from_backend
recent-eq-take_example = recent-eq-take backend (pos 1) short refl
