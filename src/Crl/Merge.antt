-- ===== src/Crl/Merge.antt =====
-- internal/crl/store.go: `Merge`.
use mrmi_gateway.Prelude.{
  ℤ, String, ◌≡◌, refl, ◌∙◌, ap, inl, inr, List, [], ◌∷◌, arith, eq_iff, Option-cases,
}
use mrmi_gateway.Prelude.Map
use mrmi_gateway.Prelude.Text.{contains}
use mrmi_gateway.Crl.{Entry, Store, revoke, revoke_all, merge}
use mrmi_gateway.Crl.Laws.{Has, held, signatures_of, held-revoke, contains-add_new, revoke_again}

revoke_known :
    (k why sig : String) (now : ℤ) (s : Store) → Has (held k s) sig → revoke k why sig now s ≡ s
unfolding held signatures_of contains
revoke_known k why sig now s h = elim (Option-cases (Map.lookup k s.entries)) [
  | inl missing ↦ absurd (ground arith)
  | inr (e, found) ↦ revoke_again k why sig now s e found (ground arith)
]

revoke_keeps :
    (k why sig : String) (now : ℤ) (s : Store) (j y : String)
    → Has (held j s) y
    → Has (held j (revoke k why sig now s)) y
revoke_keeps k why sig now s j y h =
    ground (arith, held-revoke k j why sig now s, contains-add_new (held j s) sig y)

revoke_adds : (k why sig : String) (now : ℤ) (s : Store) → Has (held k (revoke k why sig now s)) sig
revoke_adds k why sig now s = ground (
  arith,
  held-revoke k k why sig now s,
  contains-add_new (held k s) sig sig,
  eq_iff k k,
  eq_iff sig sig,
)

revoke_all_keeps :
    (k why : String) (sigs : List String) (now : ℤ) (s : Store) (j y : String)
    → Has (held j s) y
    → Has (held j (revoke_all k why sigs now s)) y
unfolding revoke_all
revoke_all_keeps k why [] now s j y h = h
revoke_all_keeps k why (x ∷ sigs) now s j y h =
    revoke_all_keeps k why sigs now (revoke k why x now s) j y (revoke_keeps k why x now s j y h)

-- All these signatures are held against `k`.
abbrev pub Holds : String → Store → List String → Type 0
Holds k s [] = Unit
Holds k s (x ∷ l) = Has (held k s) x × Holds k s l

abbrev pub KnowsAll : Store → List Entry → Type 0
KnowsAll s [] = Unit
KnowsAll s (e ∷ es) = Holds e.node_id s e.signatures × KnowsAll s es

revoke_all_adds :
    (k why : String) (sigs : List String) (now : ℤ) (s : Store)
    → Holds k (revoke_all k why sigs now s) sigs
unfolding revoke_all
revoke_all_adds k why [] now s = tt
revoke_all_adds k why (x ∷ sigs) now s =
    let s' = revoke k why x now s in
    (
      revoke_all_keeps k why sigs now s' k x (revoke_adds k why x now s),
      revoke_all_adds k why sigs now s',
    )

revoke_all_known :
    (k why : String) (sigs : List String) (now : ℤ) (s : Store)
    → Holds k s sigs
    → revoke_all k why sigs now s ≡ s
unfolding revoke_all
revoke_all_known k why [] now s h = refl
revoke_all_known k why (x ∷ sigs) now s h =
    ap (revoke_all k why sigs now) (revoke_known k why x now s h.0)
    ∙ revoke_all_known k why sigs now s h.1

merge_keeps :
    (es : List Entry) (now : ℤ) (s : Store) (j y : String)
    → Has (held j s) y
    → Has (held j (merge es now s)) y
unfolding merge
merge_keeps [] now s j y h = h
merge_keeps (e ∷ es) now s j y h =
    merge_keeps es now (revoke_all e.node_id e.reason e.signatures now s) j y
      (revoke_all_keeps e.node_id e.reason e.signatures now s j y h)

merge_keeps_all :
    (es : List Entry) (now : ℤ) (s : Store) (k : String) (sigs : List String)
    → Holds k s sigs
    → Holds k (merge es now s) sigs
merge_keeps_all es now s k [] h = tt
merge_keeps_all es now s k (x ∷ sigs) h =
    (merge_keeps es now s k x h.0, merge_keeps_all es now s k sigs h.1)

merge-KnowsAll : (es : List Entry) (now : ℤ) (s : Store) → KnowsAll (merge es now s) es
unfolding merge
merge-KnowsAll [] now s = tt
merge-KnowsAll (e ∷ es) now s =
    let s' = revoke_all e.node_id e.reason e.signatures now s in
    (
      merge_keeps_all es now s' e.node_id e.signatures
          (revoke_all_adds e.node_id e.reason e.signatures now s),
      merge-KnowsAll es now s',
    )

merge_known : (es : List Entry) (now : ℤ) (s : Store) → KnowsAll s es → merge es now s ≡ s
unfolding merge
merge_known [] now s h = refl
merge_known (e ∷ es) now s h =
    ap (merge es now) (revoke_all_known e.node_id e.reason e.signatures now s h.0)
    ∙ merge_known es now s h.1

-- Merging the entries of a peer a second time, at any later time, changes nothing; every signature
-- held against any node before a merge is held after it; and so is every signature of the entries,
-- against the node that its entry names.
pub merge_idem :
    (es : List Entry) (now later : ℤ) (s : Store)
    → (merge es later (merge es now s) ≡ merge es now s)
      × ((k sig : String) → Has (held k s) sig → Has (held k (merge es now s)) sig)
      × KnowsAll (merge es now s) es
merge_idem es now later s =
    let all = merge-KnowsAll es now s in
    (merge_known es later (merge es now s) all, merge_keeps es now s, all)
