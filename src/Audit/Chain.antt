-- ===== src/Audit/Chain.antt =====
-- internal/audit/log.go: the hash chain, over any calls.
use mrmi_gateway.Prelude.{
  ℕ, ◌+◌, ◌%◌, ◌^◌, ℤ, String, Bool, true, false, ◌≡◌, refl, none, List, [], ◌∷◌, ◌++◌, arith,
  eq_iff, length, ◌↔◌,
}
use mrmi_gateway.Config.{Config}
use mrmi_gateway.Audit.{
  Payload, Entry, AuditStore, Log, new, set_store, Draft, draft_payload, append_entry, append,
  append_finality, zero_hash, Verified, chain_to, broken, verify_entries, check_root, verify,
  verify_file,
}

module _ (sum : Payload → String) where
  -- The log verifies and its root is the last hash of the chain.
  abbrev pub IsIntact : {B : Type 0} → Log B → Type 0
  IsIntact l = verify_entries sum zero_hash 1 l.entries ≡ chain_to l.root

  check_root_iff :
      (es : List Entry) (root : String) (v : Verified)
      → (es ≡ [] → v ≡ chain_to zero_hash)
      → (check_root sum es root v ≡ none) ↔ (v ≡ chain_to root)
  unfolding check_root
  check_root_iff [] root (broken e) h = absurd (cc (h refl))
  check_root_iff [] root (chain_to last) h = ground (arith, eq_iff root zero_hash, h refl)
  check_root_iff (x ∷ es) root (broken e) h = ground arith
  check_root_iff (x ∷ es) root (chain_to last) h = ground (arith, eq_iff root last)

  verify_entries-nil :
      (es : List Entry) → es ≡ [] → verify_entries sum zero_hash 1 es ≡ chain_to zero_hash
  unfolding verify_entries
  verify_entries-nil es h = rw h

  -- The log verifies exactly if it is intact.
  pub verify-eq-none_iff : {B : Type 0} (l : Log B) → (verify sum l ≡ none) ↔ IsIntact l
  unfolding verify
  verify-eq-none_iff l =
      check_root_iff l.entries l.root (verify_entries sum zero_hash 1 l.entries)
        (verify_entries-nil l.entries)

  verify_entries-snoc :
      (prev : String) (i : ℕ) (es : List Entry) (e : Entry) (last : String)
      → verify_entries sum prev i es ≡ chain_to last
      → e.previous_hash ≡ last
      → sum e.payload ≡ e.entry_hash
      → verify_entries sum prev i (es ++ e ∷ []) ≡ chain_to e.entry_hash
  unfolding verify_entries
  verify_entries-snoc prev i [] e last h p q =
      ground (arith, eq_iff e.previous_hash prev, eq_iff (sum e.payload) e.entry_hash)
  verify_entries-snoc prev i (x ∷ es) e last h p q =
      ground (arith, verify_entries-snoc x.entry_hash (i + 1) es e last)

  module _ {B : Type 0} (store : AuditStore B) where
    append_entry-IsIntact :
        (cfg : Config) (d : Draft) (retain final : Bool) (now : ℤ) (l : Log B)
        → IsIntact l
        → IsIntact (append_entry store sum cfg d retain final now l).1
    unfolding append_entry draft_payload
    append_entry-IsIntact cfg d retain final now l h =
        verify_entries-snoc zero_hash 1 l.entries _ l.root h refl refl

-- The entries are numbered from `count` + 1, in uint64.
abbrev pub NumberedFrom : ℕ → List Entry → Type 0
NumberedFrom count [] = Unit
NumberedFrom count (e ∷ es) = (e.seq ≡ (count + 1) % 2 ^ 64) × NumberedFrom (count + 1) es

NumberedFrom-snoc :
    (count : ℕ) (es : List Entry) (e : Entry)
    → NumberedFrom count es
    → e.seq ≡ (count + length es + 1) % 2 ^ 64
    → NumberedFrom count (es ++ e ∷ [])
NumberedFrom-snoc count [] e h p = (omega arith, tt)
NumberedFrom-snoc count (x ∷ es) e h p = (h.0, NumberedFrom-snoc (count + 1) es e h.1 (omega arith))

-- The calls that change a log.
pub data Call (B : Type 0) : Type 0 where
  add : Config → Draft → ℤ → Call B
  finality : Config → String → String → String → ℤ → Call B
  wire : B → Call B

module _ {B : Type 0} (store : AuditStore B) (sum : Payload → String) where
  unfoldable pub run : List (Call B) → Log B → Log B
  run [] l = l
  run (add cfg d now ∷ cs) l = run cs (append store sum cfg d now l).1
  run (finality cfg sender recipient version now ∷ cs) l =
      run cs (append_finality store sum cfg sender recipient version now l).1
  run (wire b ∷ cs) l = run cs (set_store b l)

  -- The log verifies and its entries are numbered from 1.
  abbrev pub IsSound : Log B → Type 0
  IsSound l = IsIntact sum l × NumberedFrom 0 l.entries

  pub append_entry-IsSound :
      (cfg : Config) (d : Draft) (retain final : Bool) (now : ℤ) (l : Log B)
      → IsSound l
      → IsSound (append_entry store sum cfg d retain final now l).1
  unfolding append_entry draft_payload
  append_entry-IsSound cfg d retain final now l h = (
    append_entry-IsIntact sum store cfg d retain final now l h.0,
    NumberedFrom-snoc 0 l.entries _ h.1 (omega arith),
  )

  run-IsSound : (cs : List (Call B)) (l : Log B) → IsSound l → IsSound (run cs l)
  unfolding run append append_finality set_store
  run-IsSound [] l h = h
  run-IsSound (add cfg d now ∷ cs) l h =
      run-IsSound cs _ (append_entry-IsSound cfg d _ false now l h)
  run-IsSound (finality cfg sender recipient version now ∷ cs) l h =
      run-IsSound cs _ (append_entry-IsSound cfg _ true true now l h)
  run-IsSound (wire b ∷ cs) l h = run-IsSound cs _ h

  -- After any calls on a new log, `Verify` finds nothing, `VerifyFile` on the written entries
  -- returns the root, and the entries are numbered from 1.
  pub run-new-IsSound :
      (cs : List (Call B))
      → (verify sum (run cs new) ≡ none)
        × (verify_file sum (run cs new).entries ≡ chain_to (run cs new).root)
        × NumberedFrom 0 (run cs new).entries
  unfolding verify_file
  run-new-IsSound cs =
      let (intact, numbered) = run-IsSound cs new (unfold new verify_entries in (refl, tt)) in
      ((verify-eq-none_iff sum (run cs new)).1 intact, intact, numbered)
