-- ===== src/Audit/Tamper.antt =====
-- internal/audit/log.go: what a root hash says of the entries under it.
use mrmi_gateway.Prelude.{
  ℕ, ◌+◌, ℤ, String, ◌≡◌, ◌≢◌, refl, ◌∙◌, sym, ap, ◌⊎◌, inl, inr, none, List, [], ◌∷◌, ◌++◌, arith,
  eq_iff, ◌==◌, Bool-cases,
}
use mathlib.Core.Path.{subst}
use native.Mathlib.Decide.{ℕ_discrete}
use mrmi_gateway.Audit.{Payload, Entry, Log, zero_hash, chain_to, verify_entries, verify}
use mrmi_gateway.Audit.Chain.{verify-eq-none_iff}

String-discrete : Discrete String
String-discrete s t = elim (Bool-cases (s == t)) [
  | inl h ↦ yes ((eq_iff s t).0 h)
  | inr h ↦ no (λ e. ground (arith, eq_iff s t))
]

ℤ-discrete : Discrete ℤ
ℤ-discrete = hlevel ℕ_discrete

Payload-discrete : Discrete Payload
Payload-discrete = hlevel (ℕ_discrete, String-discrete, ℤ-discrete)

reverse_onto : List Entry → List Entry → List Entry
reverse_onto [] acc = acc
reverse_onto (x ∷ xs) acc = reverse_onto xs (x ∷ acc)

reverse_twice :
    (xs ys zs : List Entry) → reverse_onto (reverse_onto xs ys) zs ≡ reverse_onto ys (xs ++ zs)
unfolding reverse_onto
reverse_twice [] ys zs = refl
reverse_twice (x ∷ xs) ys zs = reverse_twice xs (x ∷ ys) zs

append_nil : (xs : List Entry) → xs ++ [] ≡ xs
append_nil [] = refl
append_nil (x ∷ xs) = ap (◌∷◌ x) (append_nil xs)

reverse_injective : (xs ys : List Entry) → reverse_onto xs [] ≡ reverse_onto ys [] → xs ≡ ys
unfolding reverse_onto
reverse_injective xs ys h =
    sym (append_nil xs)
    ∙ sym (reverse_twice xs [] [])
    ∙ ap (λ l. reverse_onto l []) h
    ∙ reverse_twice ys [] []
    ∙ append_nil ys

chain_to_injective : (r s : String) → chain_to r ≡ chain_to s → r ≡ s
chain_to_injective r s h = cc

module _ (sum : Payload → String) where
  -- Two payloads with one hash, or a payload whose hash is 64 zeros.
  abbrev pub Collision : Type 0
  Collision =
      ((p : Payload) × (q : Payload) × (p ≢ q) × (sum p ≡ sum q))
      ⊎ ((p : Payload) × (sum p ≡ zero_hash))

  -- The chain read from its end.
  abbrev Chained : List Entry → String → Type 0
  Chained [] root = root ≡ zero_hash
  Chained (e ∷ es) root =
      (e.entry_hash ≡ root) × (sum e.payload ≡ e.entry_hash) × Chained es e.previous_hash

  -- What an accepted entry satisfies.
  verify_entries-link :
      (prev : String) (i : ℕ) (e : Entry) (es : List Entry) (root : String)
      → verify_entries sum prev i (e ∷ es) ≡ chain_to root
      → (e.previous_hash ≡ prev)
        × (sum e.payload ≡ e.entry_hash)
        × (verify_entries sum e.entry_hash (i + 1) es ≡ chain_to root)
  unfolding verify_entries
  verify_entries-link prev i e es root h =
      ground (arith, eq_iff e.previous_hash prev, eq_iff (sum e.payload) e.entry_hash)

  verify_entries-Chained :
      (prev : String) (i : ℕ) (es acc : List Entry) (root : String)
      → Chained acc prev
      → verify_entries sum prev i es ≡ chain_to root
      → Chained (reverse_onto es acc) root
  unfolding verify_entries reverse_onto
  verify_entries-Chained prev i [] acc root c h =
      subst (Chained acc) (chain_to_injective prev root h) c
  verify_entries-Chained prev i (e ∷ es) acc root c h =
      let (p, q, r) = verify_entries-link prev i e es root h in
      verify_entries-Chained e.entry_hash (i + 1) es (e ∷ acc) root
        (refl, q, subst (Chained acc) (sym p) c) r

  cons_unique :
      (e f : Entry) (xs ys : List Entry)
      → e.payload ≡ f.payload
      → e.entry_hash ≡ f.entry_hash
      → (xs ≡ ys) ⊎ Collision
      → (◌≡◌ {A = List Entry} (e ∷ xs) (f ∷ ys)) ⊎ Collision
  cons_unique e f xs ys p q (inl r) = inl (λ i. (record { payload = p i; entry_hash = q i }) ∷ r i)
  cons_unique e f xs ys p q (inr k) = inr k

  Chained-unique :
      (xs ys : List Entry) (root : String)
      → Chained xs root
      → Chained ys root
      → (xs ≡ ys) ⊎ Collision
  Chained-unique [] [] root c d = inl refl
  Chained-unique [] (e ∷ ys) root c d = inr (inr (e.payload, d.1 ∙ d.0 ∙ c))
  Chained-unique (e ∷ xs) [] root c d = inr (inr (e.payload, c.1 ∙ c.0 ∙ d))
  Chained-unique (e ∷ xs) (f ∷ ys) root c d = elim (Payload-discrete e.payload f.payload) [
    | no ne ↦ inr (inl (e.payload, f.payload, ne, c.1 ∙ c.0 ∙ sym d.0 ∙ sym d.1))
    | yes same ↦ cons_unique e f xs ys same (c.0 ∙ sym d.0) (
        Chained-unique xs ys e.previous_hash c.2
          (subst (Chained ys) (ap (λ (p : Payload). p.previous_hash) (sym same)) d.2))
  ]

  equal_reversed :
      (xs ys : List Entry)
      → (reverse_onto xs [] ≡ reverse_onto ys []) ⊎ Collision
      → (xs ≡ ys) ⊎ Collision
  equal_reversed xs ys (inl h) = inl (reverse_injective xs ys h)
  equal_reversed xs ys (inr k) = inr k

  -- Two logs that verify and have one root have the same entries, or the hash is broken: the proof
  -- gives two different payloads with one hash, or a payload with the hash of the empty log.
  pub root_determines_log :
      {A B : Type 0} (l : Log A) (m : Log B)
      → verify sum l ≡ none
      → verify sum m ≡ none
      → l.root ≡ m.root
      → (l.entries ≡ m.entries) ⊎ Collision
  unfolding reverse_onto
  root_determines_log l m h k same =
      let reversed =
        λ (es : List Entry) (r : String) (p : verify_entries sum zero_hash 1 es ≡ chain_to r).
          verify_entries-Chained zero_hash 1 es [] r refl p in
      equal_reversed l.entries m.entries (
        Chained-unique (reverse_onto l.entries []) (reverse_onto m.entries []) l.root
          (reversed l.entries l.root ((verify-eq-none_iff sum l).0 h))
          (subst (Chained (reverse_onto m.entries [])) (sym same)
            (reversed m.entries m.root ((verify-eq-none_iff sum m).0 k))))
