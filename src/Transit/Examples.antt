-- ===== src/Transit/Examples.antt =====
-- The buffer's theorems at concrete buffers, a full one among them.
use Prim.Native.String.{String}
use mrmi_gateway.Prelude.{
  ℕ, zero, suc, ◌<◌, pos, ◌+ℤ◌, Bool-cases, none, some, [], ◌∷◌, ◌≡◌, ◌≢◌, refl, ap, ◌∙◌, sym, inl,
  inr, ◌==◌, eq_iff, arith, length, if◌then◌else◌, All,
}
use mrmi_gateway.Prelude.Int.{◌≤ℤ◌}
use mrmi_gateway.Prelude.Map
use mrmi_gateway.Prelude.Map.{Map, Distinct}
use mrmi_gateway.Config.{seconds}
use mrmi_gateway.Transit.{Entry, Cache, new, put}
use mrmi_gateway.Transit.Laws.{IsValid, NoEmptyKey, new-IsValid, put-IsValid, put_full}
use mrmi_gateway.Samples.{envelope}

abbrev entry : ℕ → Entry
entry n = record { env = envelope "a1" "BY"; peer_addr = "peer:7777"; expires = pos n }

put-IsValid_example :
    IsValid (put (envelope "a1" "BY") "peer:7777" (pos 5) (new (seconds 30)))
    × (Map.lookup "a1" (put (envelope "a1" "BY") "peer:7777" (pos 5) (new (seconds 30))).entries
        ≡ some (record {
          env = envelope "a1" "BY";
          peer_addr = "peer:7777";
          expires = pos 5 +ℤ (new (seconds 30)).ttl;
        }))
put-IsValid_example =
    put-IsValid (envelope "a1" "BY") "peer:7777" (pos 5) (new (seconds 30))
      (new-IsValid (seconds 30))

abbrev two : Cache
two = record { entries = ("a1", entry 10) ∷ ("b2", entry 20) ∷ []; ttl = seconds 30 }

-- n entries under the keys "x", "xx", …, the later ones expiring later.
abbrev xs : ℕ → String
xs zero = String.[]
xs (suc n) = String.◌∷◌ "x" (xs n)

abbrev filled : ℕ → Map Entry
filled zero = []
filled (suc n) = (xs (suc n), entry n) ∷ filled n

abbrev size : String → ℕ
size String.[] = zero
size (String.◌∷◌ c s) = suc (size s)

size-xs : (n : ℕ) → size (xs n) ≡ n
size-xs zero = refl
size-xs (suc n) = ap suc (size-xs n)

length-filled : (n : ℕ) → length (filled n) ≡ n
length-filled zero = refl
length-filled (suc n) = ap suc (length-filled n)

filled-fresh : (m n : ℕ) → n < m → Map.lookup (xs m) (filled n) ≡ none
unfolding Map.lookup
filled-fresh m zero h = refl
filled-fresh m (suc n) h = elim (Bool-cases (xs (suc n) == xs m)) [
  | inl same ↦
      let e : suc n ≡ m =
        sym (size-xs (suc n)) ∙ ap size ((eq_iff (xs (suc n)) (xs m)).0 same) ∙ size-xs m in
      absurd (omega arith)
  | inr other ↦ rw other (filled-fresh m n (omega arith))
]

filled-Distinct : (n : ℕ) → Distinct (filled n)
filled-Distinct zero = tt
filled-Distinct (suc n) = (filled-fresh (suc n) n (omega arith), filled-Distinct n)

filled-NoEmptyKey : (n : ℕ) → NoEmptyKey (filled n)
filled-NoEmptyKey zero = tt
filled-NoEmptyKey (suc n) = (
  λ e. let no : suc n ≡ 0 = sym (size-xs (suc n)) ∙ ap size e in absurd (omega arith),
  filled-NoEmptyKey n,
)

abbrev full : Cache
full = record { entries = filled 1000; ttl = seconds 30 }

full-IsValid : IsValid full
full-IsValid = record {
  distinct = filled-Distinct 1000;
  bounded = rw (length-filled 1000) (omega arith);
  ttl_pos = omega arith;
  ttl_max = omega arith;
}

put_full_example :
    (k : String) × (e : Entry) × (Map.lookup k (filled 1000) ≡ some e)
    × All (λ p. e.expires ≤ℤ p.1.expires) (filled 1000)
    × ((j : String)
        → j ≢ "a1"
        → Map.lookup j (put (envelope "a1" "BY") "peer:7777" (pos 5) full).entries
          ≡ (if k == j then none else Map.lookup j (filled 1000)))
put_full_example =
    put_full (envelope "a1" "BY") "peer:7777" (pos 5) full full-IsValid (filled-NoEmptyKey 1000)
      (length-filled 1000)
