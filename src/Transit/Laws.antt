-- ===== src/Transit/Laws.antt =====
-- internal/transit/cache.go: the invariant of the buffer, eviction and draining.
use mathlib.Core.Path.{subst}
use mrmi_gateway.Prelude.{
  ◌≤◌, ◌<◌, ◌+◌, ℤ, pos, ◌+ℤ◌, ltb_ℤ, String, true, false, not, none, some, ◌≡◌, ◌≢◌, refl, ◌⊎◌,
  inl, inr, [], ◌∷◌, ◌==◌, arith, eq_iff, length, if◌then◌else◌, Bool-cases, ◌||◌, leb, All, sym,
  eq_refl,
}
use mrmi_gateway.Prelude.Int.{◌≤ℤ◌, ◌<ℤ◌}
use mrmi_gateway.Prelude.Map
use mrmi_gateway.Prelude.Map.{
  Map, Distinct, lookup-insert, lookup-delete, insert-Distinct, delete-Distinct, retain-Distinct,
  lookup-retain-some, length-insert-le, length-delete-le, length-delete-lt,
}
use mrmi_gateway.Envelope.{Envelope}
use mrmi_gateway.Transit.{
  max_entries, max_ttl, Entry, Cache, zero_time, new, oldest, evict_oldest, put, pending, expired,
  drain,
}

-- Distinct keys, at most 1000 entries, and a TTL of more than zero and at most 60 s.
pub record IsValid (c : Cache) : Type 0 where
  pub distinct : Distinct c.entries
  pub bounded : length c.entries ≤ max_entries
  pub ttl_pos : pos 0 <ℤ c.ttl
  pub ttl_max : c.ttl ≤ℤ max_ttl

abbrev Found : String → Map Entry → Type 0
Found r m = (e : Entry) × (Map.lookup r m ≡ some e)

Found-head : (k r : String) (e : Entry) (m : Map Entry) → r ≡ k → Found r ((k, e) ∷ m)
unfolding Map.lookup
Found-head k r e m h = (e, ground (arith, eq_iff k r))

Found-tail : (k r : String) (e : Entry) (m : Map Entry) → Found r m → Found r ((k, e) ∷ m)
unfolding Map.lookup
Found-tail k r e m (e', h) = elim (Bool-cases (k == r)) [
  | inl same ↦ (e, rw same)
  | inr other ↦ (e', rw other h)
]

-- The key that the loop ends with is a key of the map, or the key that it began with.
oldest-Found :
    (m : Map Entry) (key : String) (exp : ℤ) → (oldest m key exp ≡ key) ⊎ Found (oldest m key exp) m
unfolding oldest
oldest-Found [] key exp = inl refl
oldest-Found ((k, e) ∷ m) key exp = elim (Bool-cases (key == "" || ltb_ℤ e.expires exp)) [
  | inl better ↦ rw better (
      inr (elim (oldest-Found m k e.expires) [
        | inl same ↦ Found-head k _ e m same
        | inr found ↦ Found-tail k _ e m found
      ]))
  | inr worse ↦ rw worse (elim (oldest-Found m key exp) [
    | inl same ↦ inl same
    | inr found ↦ inr (Found-tail k _ e m found)
  ])
]

-- A map with an entry loses one.
length-evict_oldest :
    (k : String) (e : Entry) (m : Map Entry)
    → length (evict_oldest ((k, e) ∷ m)) < length ((k, e) ∷ m)
unfolding evict_oldest oldest
length-evict_oldest k e m =
    let r = oldest m k e.expires in
    let (e', found) : Found r ((k, e) ∷ m) = elim (oldest-Found m k e.expires) [
      | inl same ↦ Found-head k r e m same
      | inr found ↦ Found-tail k r e m found
    ] in
    length-delete-lt r e' ((k, e) ∷ m) found

evict-bounded :
    (m : Map Entry)
    → length m ≤ max_entries
    → leb max_entries (length m) ≡ true
    → length (evict_oldest m) < max_entries
evict-bounded [] h full = cc
evict-bounded ((k, e) ∷ m) h full = omega (arith, length-evict_oldest k e m)

evict-Distinct : (m : Map Entry) → Distinct m → Distinct (evict_oldest m)
unfolding evict_oldest
evict-Distinct m d = delete-Distinct _ m d

pub new-IsValid : (ttl : ℤ) → IsValid (new ttl)
unfolding new
new-IsValid ttl = ground arith

-- `Put` keeps the buffer valid: with 1000 entries one is evicted first, so there are never more.
-- The new entry is stored under its key with the expiry now + ttl, also if the buffer was full.
pub put-IsValid :
    (env : Envelope) (addr : String) (now : ℤ) (c : Cache)
    → IsValid c
    → IsValid (put env addr now c)
      × (Map.lookup env.idempotency_key (put env addr now c).entries
          ≡ some (record { env = env; peer_addr = addr; expires = now +ℤ c.ttl }))
unfolding put
put-IsValid env addr now c v = elim (Bool-cases (leb max_entries (length c.entries))) [
  | inl full ↦
      rw (full, put)
        (
          record {
            distinct = insert-Distinct _ _ _ (evict-Distinct c.entries v.distinct);
            bounded = omega (
              arith,
              length-insert-le env.idempotency_key _ (evict_oldest c.entries),
              evict-bounded c.entries v.bounded full,
            );
            ttl_pos = v.ttl_pos;
            ttl_max = v.ttl_max;
          },
          rw (lookup-insert, eq_refl),
        )
  | inr room ↦
      rw (room, put)
        (
          record {
            distinct = insert-Distinct _ _ _ v.distinct;
            bounded =
                let fits : length c.entries < max_entries = ground arith in
                omega (arith, length-insert-le env.idempotency_key _ c.entries);
            ttl_pos = v.ttl_pos;
            ttl_max = v.ttl_max;
          },
          rw (lookup-insert, eq_refl),
        )
]

-- No entry under an empty key; the gateway refuses empty idempotency keys.
abbrev pub NoEmptyKey : Map Entry → Type 0
NoEmptyKey = All (λ p. p.0 ≢ "")

-- What the loop has chosen: an entry of the map, or what it began with, no later than any.
record Chosen (m : Map Entry) (key : String) (exp : ℤ) (r : String) : Type 0 where
  at : ℤ
  source : ((r ≡ key) × (at ≡ exp)) ⊎ ((e : Entry) × (Map.lookup r m ≡ some e) × (e.expires ≡ at))
  le_start : at ≤ℤ exp
  le_all : All (λ p. at ≤ℤ p.1.expires) m

Found-tail-Distinct :
    (k r : String) (e x : Entry) (m : Map Entry)
    → Distinct ((k, e) ∷ m)
    → Map.lookup r m ≡ some x
    → Map.lookup r ((k, e) ∷ m) ≡ some x
unfolding Map.lookup
Found-tail-Distinct k r e x m d h = ground (arith, eq_iff k r)

oldest-Chosen :
    (m : Map Entry) (key : String) (exp : ℤ)
    → key ≢ ""
    → NoEmptyKey m
    → Distinct m
    → Chosen m key exp (oldest m key exp)
unfolding oldest
oldest-Chosen [] key exp ne all d = record {
  at = exp;
  source = inl (refl, refl);
  le_start = omega arith;
  le_all = tt;
}
oldest-Chosen ((k, e) ∷ m) key exp ne all d = elim (Bool-cases (ltb_ℤ e.expires exp)) [
  | inl earlier ↦
      let b : (key == "" || ltb_ℤ e.expires exp) ≡ true = ground arith in
      let c = oldest-Chosen m k e.expires all.0 all.1 d.1 in
      rw b (record {
        at = c.at;
        source = elim c.source [
          | inl (same, a) ↦
              inr (e, (unfold Map.lookup in ground (arith, eq_iff k (oldest m k e.expires))), sym a)
          | inr (x, found, a) ↦ inr (x, Found-tail-Distinct k _ e x m d found, a)
        ];
        le_start = ground (arith, c.le_start);
        le_all = (c.le_start, c.le_all);
      })
  | inr later ↦
      let b : (key == "" || ltb_ℤ e.expires exp) ≡ false = ground (arith, eq_iff key "") in
      let c = oldest-Chosen m key exp ne all.1 d.1 in
      rw b (record {
        at = c.at;
        source = elim c.source [
          | inl same ↦ inl same
          | inr (x, found, a) ↦ inr (x, Found-tail-Distinct k _ e x m d found, a)
        ];
        le_start = c.le_start;
        le_all = (ground (arith, c.le_start), c.le_all);
      })
]

-- The entry that eviction takes out is there and expires no later than any other.
evict_choice :
    (m : Map Entry)
    → NoEmptyKey m
    → Distinct m
    → 0 < length m
    → (e : Entry) × (Map.lookup (oldest m "" zero_time) m ≡ some e)
      × All (λ p. e.expires ≤ℤ p.1.expires) m
unfolding oldest
evict_choice [] all d h = absurd (omega arith)
evict_choice ((k, e) ∷ m) all d h =
    let c = oldest-Chosen m k e.expires all.0 all.1 d.1 in
    elim c.source [
      | inl (same, a) ↦ (
        e,
        (unfold Map.lookup in ground (arith, eq_iff k (oldest m k e.expires))),
        (omega arith, subst (λ (t : ℤ). All (λ p. t ≤ℤ p.1.expires) m) a c.le_all),
      )
      | inr (x, found, a) ↦ (
        x,
        Found-tail-Distinct k _ e x m d found,
        (rw a c.le_start, subst (λ (t : ℤ). All (λ p. t ≤ℤ p.1.expires) m) (sym a) c.le_all),
      )
    ]

-- With a valid, full buffer that has no empty key, `Put` drops one entry, whose expiry is the earliest
-- of all; every other key but the new one keeps its entry.
pub put_full :
    (env : Envelope) (addr : String) (now : ℤ) (c : Cache)
    → IsValid c
    → NoEmptyKey c.entries
    → length c.entries ≡ max_entries
    → (k : String) × (e : Entry) × (Map.lookup k c.entries ≡ some e)
      × All (λ p. e.expires ≤ℤ p.1.expires) c.entries
      × ((j : String)
          → j ≢ env.idempotency_key
          → Map.lookup j (put env addr now c).entries
            ≡ (if k == j then none else Map.lookup j c.entries))
unfolding put evict_oldest
put_full env addr now c v all full =
    let k = oldest c.entries "" zero_time in
    let (e, found, least) = evict_choice c.entries all v.distinct (omega arith) in
    let is_full : leb max_entries (length c.entries) ≡ true = ground arith in
    (
      k,
      e,
      found,
      least,
      λ j ne.
          rw (is_full, put, lookup-insert, lookup-delete)
            (ground (arith, eq_iff env.idempotency_key j)),
    )

length-expired :
    (now : ℤ) (m : Map Entry)
    → length (expired now m) + length (Map.retain (λ _ e. not (ltb_ℤ e.expires now)) m) ≡ length m
unfolding expired Map.retain
length-expired now [] = omega arith
length-expired now ((k, e) ∷ m) = ground (arith, length-expired now m)

expired-retain :
    (now : ℤ) (m : Map Entry) → expired now (Map.retain (λ _ e. not (ltb_ℤ e.expires now)) m) ≡ []
unfolding expired Map.retain
expired-retain now [] = refl
expired-retain now ((k, e) ∷ m) = ground (arith, expired-retain now m)

pending-retain :
    (now : ℤ) (m : Map Entry)
    → pending now (Map.retain (λ _ e. not (ltb_ℤ e.expires now)) m) ≡ pending now m
unfolding pending Map.retain
pending-retain now [] = refl
pending-retain now ((k, e) ∷ m) = ground (arith, pending-retain now m)

-- `Drain` takes out exactly the expired entries: what is pending stays pending, a second drain at
-- the same time finds nothing, and what is returned and what stays add up to what was there.
drain_lem :
    (now : ℤ) (c : Cache)
    → (pending now (drain now c).1.entries ≡ pending now c.entries)
      × ((drain now (drain now c).1).0 ≡ [])
      × (length (drain now c).0 + length (drain now c).1.entries ≡ length c.entries)
unfolding drain
drain_lem now c =
    (pending-retain now c.entries, expired-retain now c.entries, length-expired now c.entries)
