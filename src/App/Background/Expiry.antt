-- ===== src/App/Background/Expiry.antt =====
-- internal/app/app.go: where a buffered envelope is, tick after tick.
use mrmi_gateway.Prelude.{
  ℤ, ltb_ℤ, String, Bool, Bool-cases, true, not, ◌≡◌, refl, ◌⊎◌, inl, inr, some, List, [], ◌∷◌,
  ◌==◌, arith, if◌then◌else◌, if_true, if_false,
}
use mrmi_gateway.Prelude.Int.{◌<ℤ◌, ◌≤ℤ◌}
use mrmi_gateway.Prelude.Map
use mrmi_gateway.Prelude.Map.{Map, Distinct, retain-Distinct, lookup-retain-some}
use mrmi_gateway.Transit
use mrmi_gateway.Transit.{drain, expired}
use mrmi_gateway.Delivery.Dlq
use mrmi_gateway.Delivery.Dlq.{entry_for, append}
use mrmi_gateway.App.Background.{State, move_all, transit_tick}

-- The queue has an entry for this envelope and this peer.
abbrev pub Queued : Transit.Entry → List Dlq.Entry → Type 0
Queued e [] = ⊥
Queued e (d ∷ dlq) = ((d.envelope ≡ e.env) × (d.peer_addr ≡ e.peer_addr)) ⊎ Queued e dlq

Queued-append :
    (e : Transit.Entry) (d : Dlq.Entry) (now : ℤ) (dlq : List Dlq.Entry)
    → Queued e dlq
    → Queued e (append d now dlq)
unfolding append
Queued-append e d now [] h = elim h [ ]
Queued-append e d now (x ∷ dlq) (inl h) = inl h
Queued-append e d now (x ∷ dlq) (inr h) = inr (Queued-append e d now dlq h)

append-Queued :
    (e : Transit.Entry) (now : ℤ) (dlq : List Dlq.Entry)
    → Queued e (append (entry_for e.env e.peer_addr) now dlq)
unfolding append entry_for
append-Queued e now [] = inl (refl, refl)
append-Queued e now (x ∷ dlq) = inr (append-Queued e now dlq)

Queued-move_all :
    (e : Transit.Entry) (es : List Transit.Entry) (now : ℤ) (dlq : List Dlq.Entry)
    → Queued e dlq
    → Queued e (move_all es now dlq)
unfolding move_all
Queued-move_all e [] now dlq h = h
Queued-move_all e (x ∷ es) now dlq h =
    Queued-move_all e es now _ (Queued-append e (entry_for x.env x.peer_addr) now dlq h)

first-Queued :
    (e x : Transit.Entry) (now now_unix : ℤ) (rest : List Transit.Entry) (dlq : List Dlq.Entry)
    → x ≡ e
    → ltb_ℤ e.expires now ≡ true
    → Queued e (move_all (if ltb_ℤ x.expires now then x ∷ rest else rest) now_unix dlq)
unfolding move_all
first-Queued e x now now_unix rest dlq same late =
    rw (same, if_true (ltb_ℤ e.expires now) _ _ late)
      (Queued-move_all e rest now_unix _ (append-Queued e now_unix dlq))

rest-Queued :
    (e x : Transit.Entry) (now now_unix : ℤ) (rest : List Transit.Entry) (dlq : List Dlq.Entry)
    → ((q : List Dlq.Entry) → Queued e (move_all rest now_unix q))
    → Queued e (move_all (if ltb_ℤ x.expires now then x ∷ rest else rest) now_unix dlq)
unfolding move_all
rest-Queued e x now now_unix rest dlq h = elim (Bool-cases (ltb_ℤ x.expires now)) [
  | inl late ↦ rw (if_true (ltb_ℤ x.expires now) _ _ late) (h _)
  | inr early ↦ rw (if_false (ltb_ℤ x.expires now) _ _ early) (h dlq)
]

expired-Queued :
    (key : String) (e : Transit.Entry) (now now_unix : ℤ) (m : Map Transit.Entry)
    (dlq : List Dlq.Entry)
    → Map.lookup key m ≡ some e
    → ltb_ℤ e.expires now ≡ true
    → Queued e (move_all (expired now m) now_unix dlq)
unfolding expired move_all Map.lookup
expired-Queued key e now now_unix [] dlq there late = absurd (cc there)
expired-Queued key e now now_unix ((k, x) ∷ m) dlq there late = elim (Bool-cases (k == key)) [
  | inl same ↦
      let found : some x ≡ some e = rw same at there in
      let this : x ≡ e = cc found in first-Queued e x now now_unix (expired now m) dlq this late
  | inr other ↦
      let later : Map.lookup key m ≡ some e = rw other at there in
      rest-Queued e x now now_unix (expired now m) dlq
        (λ q. expired-Queued key e now now_unix m q later late)
]

-- Ticks one after the other, each with the two instants that it reads.
abbrev pub ticks : List (ℤ × ℤ) → State → State
ticks [] s = s
ticks ((now, now_unix) ∷ ts) s = ticks ts (transit_tick now now_unix s)

abbrev pub AllUntil : ℤ → List (ℤ × ℤ) → Type 0
AllUntil t [] = Unit
AllUntil t ((now, _) ∷ ts) = (now ≤ℤ t) × AllUntil t ts

abbrev pub SomeAfter : ℤ → List (ℤ × ℤ) → Type 0
SomeAfter t [] = ⊥
SomeAfter t ((now, _) ∷ ts) = (t <ℤ now) ⊎ SomeAfter t ts

ticks-Queued :
    (e : Transit.Entry) (ts : List (ℤ × ℤ)) (s : State) → Queued e s.dlq → Queued e (ticks ts s).dlq
unfolding transit_tick
ticks-Queued e [] s h = h
ticks-Queued e ((now, now_unix) ∷ ts) s h =
    ticks-Queued e ts (transit_tick now now_unix s)
      (Queued-move_all e (drain now s.transit).0 now_unix s.dlq h)

-- Through ticks alone, a buffered entry stays in the cache while no tick comes after its expiry; once
-- a tick has come after it, the dead-letter queue has an entry for its envelope and its peer, and
-- keeps it through the ticks that follow.
pub ticks-kept :
    (ts : List (ℤ × ℤ)) (key : String) (e : Transit.Entry) (s : State)
    → Distinct s.transit.entries
    → Map.lookup key s.transit.entries ≡ some e
    → (AllUntil e.expires ts → Map.lookup key (ticks ts s).transit.entries ≡ some e)
      × (SomeAfter e.expires ts → Queued e (ticks ts s).dlq)
unfolding transit_tick drain
ticks-kept [] key e s d there = (λ _. there, λ h. elim h [ ])
ticks-kept ((now, now_unix) ∷ ts) key e s d there =
    let keep : String → Transit.Entry → Bool = λ _ x. not (ltb_ℤ x.expires now) in
    let d' = retain-Distinct keep s.transit.entries d in
    let found = lookup-retain-some keep key e s.transit.entries d there in
    elim (Bool-cases (ltb_ℤ e.expires now)) [
      | inl late ↦ (
        λ h. absurd (ground (arith, h.0)),
        λ _.
            ticks-Queued e ts (transit_tick now now_unix s)
              (expired-Queued key e now now_unix s.transit.entries s.dlq there late),
      )
      | inr early ↦
          let stays : Map.lookup key (transit_tick now now_unix s).transit.entries ≡ some e =
            rw (found, early) refl in
          let rest = ticks-kept ts key e (transit_tick now now_unix s) d' stays in
          (
            λ h. rest.0 h.1,
            λ h. elim h [ inl after ↦ absurd (ground arith) | inr after ↦ rest.1 after ],
          )
    ]
