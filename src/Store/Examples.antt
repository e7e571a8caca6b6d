-- ===== src/Store/Examples.antt =====
-- The backend's theorem for a bucket that is the list of its rows.
use mrmi_gateway.Prelude.{
  ℕ, pos, false, Option, none, some, List, [], ◌∷◌, ◌++◌, if◌then◌else◌, ◌≡◌, refl, arith, take,
}
use mrmi_gateway.Prelude.Text.{codes_eq}
use mrmi_gateway.Audit.{StoreEntry}
use mrmi_gateway.Store.{Bucket, Codec, found, audit_latest}
use mrmi_gateway.Store.Latest.{Works, insert_row, newest_first, append_all, audit_latest-append_all}

abbrev Rows : Type 0
Rows = List (List ℕ × StoreEntry)

value_at : List ℕ → Rows → Option StoreEntry
value_at k [] = none
value_at k ((j, e) ∷ rows) = let rest = value_at k rows in if codes_eq j k then some e else rest

without : List ℕ → Rows → Rows
without k [] = []
without k ((j, e) ∷ rows) =
    let rest = without k rows in if codes_eq j k then rest else (j, e) ∷ rest

forwards : Rows → Rows
forwards [] = []
forwards (r ∷ rows) = forwards rows ++ r ∷ []

abbrev rows_bucket : Bucket StoreEntry Rows
rows_bucket = record {
  get = value_at;
  put = insert_row;
  delete = without;
  backwards = λ d. d;
  for_each = forwards;
  fault = λ _. none;
}

abbrev plain : Codec StoreEntry StoreEntry
plain = record { encode = λ e. e; decode = λ e. some e }

rows-Works : Works rows_bucket plain
rows-Works = record { healthy = λ d. refl; sorted = λ k v d. refl; decoded = λ e. refl }

abbrev entry : ℕ → StoreEntry
entry n = record {
  seq = n;
  timestamp_unix_ms = pos 0;
  decision = "ALLOW";
  sender_region = "RU";
  recipient_region = "BY";
  policy_version = "0.1.0";
  profile = "balanced";
  applicable_law = "";
  reason = "";
  schema_type = "messaging";
  schema_version = "";
  retain_long = false;
  settlement_final = false;
}

audit_latest-append_all_example :
    audit_latest rows_bucket plain
      (pos 2)
      (append_all rows_bucket plain (entry 1 ∷ entry 2 ∷ entry 300 ∷ []) [])
    ≡ found (take 2 (newest_first (entry 1 ∷ entry 2 ∷ entry 300 ∷ []) []))
audit_latest-append_all_example =
    audit_latest-append_all rows_bucket plain (entry 1 ∷ entry 2 ∷ entry 300 ∷ []) 2 [] rows-Works
      (omega arith, omega arith, (omega arith, omega arith, (omega arith, omega arith, tt))) refl
