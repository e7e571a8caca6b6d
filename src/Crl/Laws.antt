-- ===== src/Crl/Laws.antt =====
-- internal/crl/store.go: `Revoke` and `IsRevoked`, over any reports.
use mrmi_gateway.Prelude.{
  ℤ, String, ◌≡◌, ◌≢◌, refl, ◌↔◌, ◌∙◌, true, false, ◌||◌, Option, none, some, List, [], ◌∷◌, ◌++◌,
  ◌⊎◌, inl, inr, ap, sym, leb, arith, ◌==◌, eq_iff, if◌then◌else◌, length, Bool-cases, Option-cases,
}
use mrmi_gateway.Prelude.Map
use mrmi_gateway.Prelude.Map.{lookup-insert, lookup-nil}
use mrmi_gateway.Prelude.Text.{contains}
use mrmi_gateway.Crl.{Entry, Store, empty, entry_or_new, sign, revoke, is_revoked}

-- A call of `Revoke`: the node, the reason, the signature and the time.
pub record Report : Type 0 where
  pub node_id : String
  pub reason : String
  pub sig : String
  pub at : ℤ

unfoldable pub receive : List Report → Store → Store
receive [] s = s
receive (r ∷ rs) s = receive rs (revoke r.node_id r.reason r.sig r.at s)

unfoldable pub signatures_of : Option Entry → List String
signatures_of none = []
signatures_of (some e) = e.signatures

-- The signatures held against a node.
unfoldable pub held : String → Store → List String
unfolding signatures_of
held k s = signatures_of (Map.lookup k s.entries)

-- The signatures reported against a node, each counted once.
unfoldable pub add_new : List String → String → List String
add_new l x = if contains l x then l else l ++ x ∷ []

unfoldable pub collect : String → List Report → List String → List String
collect k [] l = l
collect k (r ∷ rs) l = collect k rs (if r.node_id == k then add_new l r.sig else l)

pub held-revoke :
    (k j why sig : String) (now : ℤ) (s : Store)
    → held j (revoke k why sig now s) ≡ (if k == j then add_new (held j s) sig else held j s)
unfolding held revoke entry_or_new sign add_new signatures_of
held-revoke k j why sig now s = elim (Bool-cases (k == j)) [
  | inl same ↦
      rw (lookup-insert, same)
        (rw ((eq_iff k j).0 same) (elim (Option-cases (Map.lookup j s.entries)) [
          | inl new ↦ rw new
          | inr (e, old) ↦ rw old (ground arith)
        ]))
  | inr other ↦ rw (lookup-insert, other)
]

-- After any reports the store holds, for every node, the distinct signatures reported against it
-- in the order of their first arrival, whatever the reasons and the times.
pub held-receive :
    (k : String) (rs : List Report) (s : Store) → held k (receive rs s) ≡ collect k rs (held k s)
unfolding receive collect
held-receive k [] s = refl
held-receive k (r ∷ rs) s =
    held-receive k rs (revoke r.node_id r.reason r.sig r.at s)
    ∙ ap (collect k rs) (held-revoke r.node_id k r.reason r.sig r.at s)

-- A node is revoked exactly if two signatures are held against it.
is_revoked-held : (k : String) (s : Store) → is_revoked k s ≡ leb 2 (length (held k s))
unfolding is_revoked held signatures_of
is_revoked-held k s = elim (Option-cases (Map.lookup k s.entries)) [
  | inl missing ↦ rw missing
  | inr (e, found) ↦ rw found
]

abbrev pub Has : List String → String → Type 0
Has l x = contains l x ≡ true

contains-append :
    (l : List String) (x y : String) → contains (l ++ x ∷ []) y ≡ (contains l y || x == y)
unfolding contains
contains-append [] x y = ground arith
contains-append (z ∷ l) x y = ground (arith, contains-append l x y)

pub contains-add_new :
    (l : List String) (x y : String) → contains (add_new l x) y ≡ (contains l y || x == y)
unfolding add_new
contains-add_new l x y = ground (arith, contains-append l x y, eq_iff x y)

-- `sig` was reported against `k`.
abbrev pub Reported : String → String → List Report → Type 0
Reported k sig [] = ⊥
Reported k sig (r ∷ rs) = ((r.node_id ≡ k) × (r.sig ≡ sig)) ⊎ Reported k sig rs

collect-Reported :
    (k y : String) (rs : List Report) (l : List String)
    → Has (collect k rs l) y ↔ (Has l y ⊎ Reported k y rs)
unfolding collect
collect-Reported k y [] l = ground arith
collect-Reported k y (r ∷ rs) l = ground (
  arith,
  eq_iff r.node_id k,
  eq_iff r.sig y,
  contains-add_new l r.sig y,
  collect-Reported k y rs (if r.node_id == k then add_new l r.sig else l),
)

-- No signature twice.
abbrev pub NoRepeat : List String → Type 0
NoRepeat [] = Unit
NoRepeat (x ∷ l) = (contains l x ≡ false) × NoRepeat l

append-NoRepeat :
    (l : List String) (x : String) → contains l x ≡ false → NoRepeat l → NoRepeat (l ++ x ∷ [])
unfolding contains
append-NoRepeat [] x h n = (refl, tt)
append-NoRepeat (y ∷ l) x h n =
    ground (arith, eq_iff x y, eq_iff y x, contains-append l x y, append-NoRepeat l x)

collect-NoRepeat :
    (k : String) (rs : List Report) (l : List String) → NoRepeat l → NoRepeat (collect k rs l)
unfolding collect add_new
collect-NoRepeat k [] l n = n
collect-NoRepeat k (r ∷ rs) l n = collect-NoRepeat k rs _ (ground (arith, append-NoRepeat l r.sig))

-- Two entries without repetition are two different members, and the other way round.
two_members :
    (l : List String)
    → NoRepeat l
    → leb 2 (length l) ≡ true
    → (x y : String) × (x ≢ y) × Has l x × Has l y
unfolding contains
two_members [] n h = cc
two_members (x ∷ []) n h = cc
two_members (x ∷ y ∷ l) n h =
    (x, y, ground (arith, eq_iff y x), ground (arith, eq_iff x x), ground (arith, eq_iff y y))

members_two : (l : List String) (x y : String) → x ≢ y → Has l x → Has l y → leb 2 (length l) ≡ true
unfolding contains
members_two [] x y d h k = cc
members_two (z ∷ []) x y d h k = ground (arith, eq_iff z x, eq_iff z y)
members_two (z ∷ w ∷ l) x y d h k = ground arith

held_reports :
    (k : String) (rs : List Report)
    → is_revoked k (receive rs empty) ≡ leb 2 (length (collect k rs []))
held_reports k rs =
    is_revoked-held k (receive rs empty)
    ∙ ap (λ (l : List String). leb 2 (length l))
        (held-receive k rs empty ∙ (unfold held signatures_of Map.lookup in refl))

collected-Reported : (k x : String) (rs : List Report) → Has (collect k rs []) x ↔ Reported k x rs
unfolding contains
collected-Reported k x rs = ground (arith, collect-Reported k x rs [])

-- From an empty list, a node is revoked exactly if two different signatures were reported against
-- it, in whatever order, with whatever reasons and repetitions.
pub is_revoked-receive_iff :
    (k : String) (rs : List Report)
    → (is_revoked k (receive rs empty) ≡ true)
      ↔ ((x : String) × (y : String) × (x ≢ y) × Reported k x rs × Reported k y rs)
is_revoked-receive_iff k rs = (
  λ h.
      let l = collect k rs [] in
      let (x, y, d, a, b) =
        two_members l (collect-NoRepeat k rs [] tt) (sym (held_reports k rs) ∙ h) in
      (x, y, d, (collected-Reported k x rs).0 a, (collected-Reported k y rs).0 b),
  λ (x, y, d, a, b).
      held_reports k rs
      ∙ members_two (collect k rs []) x y d ((collected-Reported k x rs).1 a)
          ((collected-Reported k y rs).1 b),
)

-- The entry of a node that has one keeps its reason and its time; a known signature changes nothing.
pub revoke_again :
    (k why sig : String) (now : ℤ) (s : Store) (e : Entry)
    → Map.lookup k s.entries ≡ some e
    → Has e.signatures sig
    → revoke k why sig now s ≡ s
unfolding revoke entry_or_new sign
revoke_again k why sig now s e found known =
    rw (found, known) (λ i. record { entries = Map.insert_same k e s.entries found i })
