-- ===== src/Transport/Exchange/Laws.antt =====
-- internal/transport/grpc/adapter.go: what `ExchangePeers` leaves in the registry.
use mrmi_gateway.Prelude.{
  ℤ, String, Bool, Bool-cases, true, false, not, ◌&&◌, ◌≡◌, refl, ◌∙◌, inl, inr, Option, none, some,
  List, [], ◌∷◌, ◌==◌, eq_iff, arith, if◌then◌else◌,
}
use mrmi_gateway.Prelude.Map
use mrmi_gateway.Prelude.Map.{lookup-insert}
use mrmi_gateway.Peers.{PeerInfo, Registry, announce}
use mrmi_gateway.Transport.Exchange.{Entry, peer_info, merge, record_sender, receive}

abbrev pub find : String → Registry → Option PeerInfo
find j r = Map.lookup j r.peers

-- The last entry with a given identifier.
abbrev pub or_else : Option Entry → Option Entry → Option Entry
or_else none o = o
or_else (some e) o = some e

abbrev pub last_of : String → List Entry → Option Entry
last_of j [] = none
last_of j (e ∷ es) = or_else (last_of j es) (if e.node_id == j then some e else none)

-- What an announcement puts in place of what was known.
abbrev pub told : ℤ → Option Entry → Option PeerInfo → Option PeerInfo
told now none old = old
told now (some e) old = some (record (peer_info e) { last_seen = now })

announce-find :
    (e : Entry) (now : ℤ) (r : Registry) (j : String)
    → find j (announce (peer_info e) now r)
      ≡ told now (if e.node_id == j then some e else none) (find j r)
unfolding announce
announce-find e now r j = elim (Bool-cases (e.node_id == j)) [
  | inl same ↦ rw (lookup-insert, same) refl
  | inr other ↦ rw (lookup-insert, other) refl
]

told-told :
    (now : ℤ) (a b : Option Entry) (old : Option PeerInfo)
    → told now a (told now b old) ≡ told now (or_else a b) old
told-told now none b old = refl
told-told now (some e) b old = refl

merge-find :
    (es : List Entry) (now : ℤ) (r : Registry) (j : String)
    → find j (merge es now r) ≡ told now (last_of j es) (find j r)
unfolding merge
merge-find [] now r j = refl
merge-find (e ∷ es) now r j =
    merge-find es now (announce (peer_info e) now r) j
    ∙ rw announce-find
        (told-told now (last_of j es) (if e.node_id == j then some e else none) (find j r))

-- The second loop says nothing that the first one has not said.
only : Bool → Option Entry → Option Entry
only b o = if b then o else none

one_told :
    (now : ℤ) (e : Entry) (old : Option PeerInfo) (a b c : Bool) (later : Option Entry)
    → (a ≡ true → b ≡ c)
    → (a ≡ false → c ≡ true → b ≡ false)
    → told now (only c later) (told now (only a (if b then some e else none)) old)
      ≡ told now (only c (or_else later (if b then some e else none))) old
unfolding only
one_told now e old true true true none h k = refl
one_told now e old true true true (some x) h k = refl
one_told now e old true true false later h k = absurd (cc (h refl))
one_told now e old true false true later h k = absurd (cc (h refl))
one_told now e old true false false later h k = refl
one_told now e old false true true later h k = absurd (cc (k refl refl))
one_told now e old false true false later h k = refl
one_told now e old false false true none h k = refl
one_told now e old false false true (some x) h k = refl
one_told now e old false false false later h k = refl

announce_if-find :
    (sender : String) (e : Entry) (now : ℤ) (r : Registry) (j : String)
    → find j (if e.node_id == sender then announce (peer_info e) now r else r)
      ≡ told now (only (e.node_id == sender) (if e.node_id == j then some e else none)) (find j r)
unfolding only
announce_if-find sender e now r j = elim (Bool-cases (e.node_id == sender)) [
  | inl same ↦ rw same (announce-find e now r j)
  | inr other ↦ rw other refl
]

record_sender-find :
    (sender : String) (es : List Entry) (now : ℤ) (r : Registry) (j : String)
    → find j (record_sender sender es now r)
      ≡ told now (only (sender == j) (last_of j es)) (find j r)
unfolding record_sender only
record_sender-find sender [] now r j = elim (Bool-cases (sender == j)) [
  | inl same ↦ rw same refl
  | inr other ↦ rw other refl
]
record_sender-find sender (e ∷ es) now r j =
    record_sender-find sender es now
      (if e.node_id == sender then announce (peer_info e) now r else r) j
    ∙ rw (announce_if-find sender e now r j) (
        one_told now e (find j r) (e.node_id == sender) (e.node_id == j) (sender == j)
          (last_of j es) (λ h. rw ((eq_iff e.node_id sender).0 h))
          (λ h k. ground (arith, eq_iff e.node_id sender, eq_iff sender j, eq_iff e.node_id j)))

told-only :
    (now : ℤ) (b : Bool) (o : Option Entry) (old : Option PeerInfo)
    → told now (only b o) (told now o old) ≡ told now o old
unfolding only
told-only now false o old = refl
told-only now true none old = refl
told-only now true (some e) old = refl

-- After an exchange the registry has, for every node, the last entry that the sender's list has for
-- it, seen at the time of the exchange; a node that the list does not name keeps what was known. The
-- second loop, which records the sender, makes no difference.
pub receive-find :
    (own_id sender : String) (es : List Entry) (now : ℤ) (r : Registry) (j : String)
    → find j (receive own_id sender es now r) ≡ told now (last_of j es) (find j r)
unfolding receive
receive-find own_id sender es now r j =
    elim (Bool-cases (not (sender == "") && not (sender == own_id))) [
      | inr skipped ↦ rw skipped (merge-find es now r j)
      | inl again ↦
          rw (again, record_sender-find sender es now (merge es now r) j, merge-find es now r j)
            (told-only now (sender == j) (last_of j es) (find j r))
    ]
