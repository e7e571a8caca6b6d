-- ===== src/Transport/Pool/Leaks.antt =====
-- internal/transport/grpc/connpool.go: which connections are open.
use mrmi_gateway.Prelude.{
  ℕ, zero, suc, String, Bool-cases, true, ◌≡◌, ◌≢◌, refl, ◌∙◌, sym, ap, ◌⊎◌, inl, inr, ◌↔◌, Option,
  Option-cases, none, some, List, [], ◌∷◌, ◌++◌, ◌==◌, eq_iff, eq_refl, arith, length, get_elem?,
}
use mrmi_gateway.Prelude.Map
use mrmi_gateway.Prelude.Map.{Map, lookup-insert, lookup-delete}
use mrmi_gateway.Transport.Pool.{
  Conn, Call, dialing, dialed, State, shut, live, enter, dial, settle, shut_all, close_all,
  with_calls, Step, hit, miss, fail, connect, finish, drop, close, Reach, start, later,
}

-- A call in flight holds the connection.
abbrev pub Flying : ℕ → List Call → Type 0
Flying id [] = ⊥
Flying id (dialing _ ∷ calls) = Flying id calls
Flying id (dialed _ k ∷ calls) = (k ≡ id) ⊎ Flying id calls

abbrev pub Pooled : ℕ → Map ℕ → Type 0
Pooled id conns = (addr : String) × (Map.lookup addr conns ≡ some id)

abbrev pub IsOpen : List Conn → ℕ → Type 0
IsOpen heap id = (c : Conn) × (get_elem? heap id ≡ some c) × (c.is_open ≡ true)

-- Every open connection is in the pool, or a call in flight holds it.
abbrev pub NoLeak : State → Type 0
NoLeak s = (id : ℕ) → IsOpen s.heap id → Pooled id s.conns ⊎ Flying id s.calls

Flying-append : (id : ℕ) (l r : List Call) → Flying id (l ++ r) ↔ (Flying id l ⊎ Flying id r)
Flying-append id [] r = (λ h. inr h, λ h. elim h [ inl x ↦ elim x [ ] | inr y ↦ y ])
Flying-append id (dialing a ∷ l) r = Flying-append id l r
Flying-append id (dialed a k ∷ l) r = ground (arith, Flying-append id l r)

-- What is open after a connection is shut was open before, and is another one.
IsOpen-shut :
    (k : ℕ) (heap : List Conn) (id : ℕ) → IsOpen (shut k heap) id → (id ≢ k) × IsOpen heap id
unfolding shut
IsOpen-shut k [] id (c, e, o) = absurd (cc e)
IsOpen-shut zero (x ∷ heap) zero (c, e, o) = absurd (ground arith)
IsOpen-shut zero (x ∷ heap) (suc id) (c, e, o) = (λ h. omega arith, (c, e, o))
IsOpen-shut (suc k) (x ∷ heap) zero (c, e, o) = (λ h. omega arith, (c, e, o))
IsOpen-shut (suc k) (x ∷ heap) (suc id) h =
    let (other, before) = IsOpen-shut k heap id h in (λ e. other (omega arith), before)

IsOpen-shut_all :
    (conns : Map ℕ) (heap : List Conn) (id : ℕ)
    → IsOpen (shut_all conns heap) id
    → ((addr : String) → Map.lookup addr conns ≢ some id) × IsOpen heap id
unfolding shut_all Map.lookup
IsOpen-shut_all [] heap id h = (λ addr e. cc, h)
IsOpen-shut_all ((name, k) ∷ conns) heap id h =
    let (outside, open_) = IsOpen-shut_all conns (shut k heap) id h in
    let (other, before) = IsOpen-shut k heap id open_ in
    (
      λ addr. elim (Bool-cases (name == addr)) [
        | inl same ↦ rw same (λ e. other (ground arith))
        | inr away ↦ rw away (outside addr)
      ],
      before,
    )

IsOpen-dial :
    (heap : List Conn) (c : Conn) (id : ℕ)
    → IsOpen (heap ++ c ∷ []) id
    → (id ≡ length heap) ⊎ IsOpen heap id
IsOpen-dial [] c zero h = inl refl
IsOpen-dial [] c (suc id) (x, e, o) = absurd (cc e)
IsOpen-dial (x ∷ heap) c zero h = inr h
IsOpen-dial (x ∷ heap) c (suc id) h = elim (IsOpen-dial heap c id h) [
  | inl last ↦ inl (ap suc last)
  | inr before ↦ inr before
]

some_injective : (j k : ℕ) → some j ≡ some k → j ≡ k
some_injective j k h = cc

still-there :
    (addr a : String) (k id : ℕ) (conns : Map ℕ)
    → Map.lookup addr conns ≡ some k
    → Map.lookup a conns ≡ some id
    → id ≢ k
    → Map.lookup a (Map.delete addr conns) ≡ some id
still-there addr a k id conns found e other = elim (Bool-cases (addr == a)) [
  | inl same ↦
      let at_a : Map.lookup a conns ≡ some k = rw⁻¹ ((eq_iff addr a).0 same) found in
      absurd (other (some_injective id k (sym e ∙ at_a)))
  | inr away ↦ rw (lookup-delete, away) e
]

enter-NoLeak : (addr : String) (s : State) → NoLeak s → NoLeak (enter addr s).1
unfolding enter
enter-NoLeak addr s h = elim (Option-cases (Map.lookup addr s.conns)) [
  | inl missing ↦ rw (missing, enter) h
  | inr (k, found) ↦ elim (Bool-cases (live (get_elem? s.heap k))) [
    | inl alive ↦ rw (found, alive, enter) h
    | inr dead ↦
        rw (found, dead, enter)
          (λ id o.
            let (other, before) = IsOpen-shut k s.heap id o in
            elim (h id before) [
              | inr flying ↦ inr flying
              | inl (a, e) ↦ inl (a, still-there addr a k id s.conns found e other)
            ])
  ]
]

Flying-dialed :
    (j : ℕ) (addr : String) (id : ℕ) (before after calls : List Call)
    → calls ≡ before ++ dialed addr id ∷ after
    → Flying j calls
    → (id ≡ j) ⊎ Flying j (before ++ after)
Flying-dialed j addr id before after calls e h =
    let split = (Flying-append j before (dialed addr id ∷ after)).0 (rw e at h) in
    ground (arith, Flying-append j before after)

Flying-dialing :
    (j : ℕ) (addr : String) (before after calls : List Call)
    → calls ≡ before ++ dialing addr ∷ after
    → Flying j calls
    → Flying j (before ++ after)
Flying-dialing j addr before after calls e h =
    let split = (Flying-append j before (dialing addr ∷ after)).0 (rw e at h) in
    ground (arith, Flying-append j before after)

-- A call that goes on does not let go of what the others hold.
Flying-connect :
    (j : ℕ) (addr : String) (k : ℕ) (before after : List Call)
    → (k ≡ j) ⊎ Flying j (before ++ after)
    → Flying j (before ++ dialed addr k ∷ after)
Flying-connect j addr k before after h =
    ground (arith, Flying-append j before after, Flying-append j before (dialed addr k ∷ after))

kept :
    (addr a : String) (id j : ℕ) (conns : Map ℕ)
    → Map.lookup addr conns ≡ none
    → Map.lookup a conns ≡ some j
    → Map.lookup a (Map.insert addr id conns) ≡ some j
kept addr a id j conns free e = elim (Bool-cases (addr == a)) [
  | inl same ↦
      let at_a : Map.lookup a conns ≡ none = rw⁻¹ ((eq_iff addr a).0 same) free in
      absurd (cc (at_a, e))
  | inr away ↦ rw (lookup-insert, away) e
]

settle-NoLeak :
    (addr : String) (id : ℕ) (before after : List Call) (s : State)
    → s.calls ≡ before ++ dialed addr id ∷ after
    → NoLeak s
    → NoLeak (with_calls (before ++ after) (settle addr id s).1)
unfolding settle
settle-NoLeak addr id before after s calls h j = elim (Option-cases (Map.lookup addr s.conns)) [
  | inr (k, taken) ↦
      rw (taken, settle)
        (λ o.
          let (other, was_open) = IsOpen-shut id s.heap j o in
          elim (h j was_open) [
            | inl pooled ↦ inl pooled
            | inr flying ↦ elim (Flying-dialed j addr id before after s.calls calls flying) [
              | inl mine ↦ absurd (other (sym mine))
              | inr held ↦ inr held
            ]
          ])
  | inl free ↦
      rw (free, settle)
        (λ o. elim (h j o) [
          | inl (a, e) ↦ inl (a, kept addr a id j s.conns free e)
          | inr flying ↦ elim (Flying-dialed j addr id before after s.calls calls flying) [
            | inl mine ↦ inl (addr, rw (lookup-insert, eq_refl) (ap some mine))
            | inr held ↦ inr held
          ]
        ])
]

enter-calls : (addr : String) (s : State) → (enter addr s).1.calls ≡ s.calls
unfolding enter
enter-calls addr s = elim (Option-cases (Map.lookup addr s.conns)) [
  | inl missing ↦ rw (missing, enter) refl
  | inr (k, found) ↦ elim (Bool-cases (live (get_elem? s.heap k))) [
    | inl alive ↦ rw (found, alive, enter) refl
    | inr dead ↦ rw (found, dead, enter) refl
  ]
]

Step-NoLeak : {s t : State} → Step s t → NoLeak s → NoLeak t
unfolding dial close_all
Step-NoLeak {s} (hit addr id t e) h =
    rw⁻¹ (ap (λ (r : Option ℕ × State). r.1) e) (enter-NoLeak addr s h)
Step-NoLeak {s} (miss addr t e) h = rw⁻¹ (ap (λ (r : Option ℕ × State). r.1) e) (
    let n = enter-NoLeak addr s h in
    λ j o. elim (n j o) [
      | inl pooled ↦ inl pooled
      | inr flying ↦ inr (rw (enter-calls addr s) at flying)
    ])
Step-NoLeak {s} (fail addr before after e) h = λ j o. elim (h j o) [
  | inl pooled ↦ inl pooled
  | inr flying ↦ inr (Flying-dialing j addr before after s.calls e flying)
]
Step-NoLeak {s} (connect addr before after e) h = λ j o. elim (IsOpen-dial s.heap _ j o) [
  | inl fresh ↦ inr (Flying-connect j addr (length s.heap) before after (inl (sym fresh)))
  | inr old ↦ elim (h j old) [
    | inl pooled ↦ inl pooled
    | inr flying ↦ inr (
        Flying-connect j addr (length s.heap) before after
          (inr (Flying-dialing j addr before after s.calls e flying)))
  ]
]
Step-NoLeak {s} (finish addr id before after e) h = settle-NoLeak addr id before after s e h
Step-NoLeak {s} (drop id) h = λ j o. h j (IsOpen-shut id s.heap j o).1
Step-NoLeak {s} close h = λ j o.
    let (outside, was_open) = IsOpen-shut_all s.conns s.heap j o in
    elim (h j was_open) [ inl (addr, e) ↦ absurd (outside addr e) | inr flying ↦ inr flying ]

Reach-invariant : {s : State} → Reach s → NoLeak s
Reach-invariant start = λ id o. absurd (cc o.1)
Reach-invariant (later r st) = Step-NoLeak st (Reach-invariant r)

-- In every state that calls, dials, the network and `Close` reach, in whatever order, each open
-- connection is in the pool or held by a call that is about to put it there or to close it; so
-- `Close` leaves no connection open, if no call is in flight.
pub Reach-NoLeak :
    {s : State} → Reach s → NoLeak s × (s.calls ≡ [] → (id : ℕ) → ¬ IsOpen (close_all s).heap id)
unfolding close_all
Reach-NoLeak {s} r = (
  Reach-invariant r,
  λ quiet id o.
      let (outside, was_open) = IsOpen-shut_all s.conns s.heap id o in
      elim (Reach-invariant r id was_open) [
        | inl (addr, e) ↦ outside addr e
        | inr flying ↦ rw quiet at flying
      ],
)
