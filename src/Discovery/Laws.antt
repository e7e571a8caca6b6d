-- ===== src/Discovery/Laws.antt =====
-- internal/discovery/broadcaster.go: when a request goes to the peers, and that it does so once.
use mrmi_gateway.Prelude.{
  ℕ, ◌-◌, nat_eq, ℤ, pos, ◌+ℤ◌, ◌-ℤ◌, ◌⊎◌, ◌↔◌, String, Bool, Bool-cases, true, false, ◌≡◌, ◌≢◌,
  refl, ap, sym, ◌∙◌, inl, inr, Option, none, some, List, [], ◌∷◌, eq_iff, arith, All, ◌==◌,
}
use mrmi_gateway.Prelude.Int.{◌<ℤ◌, ◌≤ℤ◌}
use mrmi_gateway.Prelude.Map.{Map}
use mrmi_gateway.Dedup.{Index, seen_or_add, seen_or_add_with_ttl}
use mrmi_gateway.Dedup.Laws.{IsValid, seen_or_add-eq}
use mrmi_gateway.Dedup.Window.{Call, AllBefore, run, seen-later}
use mrmi_gateway.Discovery.{
  Request, Response, PeerDialer, Broadcaster, is_stale, collect, ask_peers, broadcast,
}

abbrev pub HaveTokens : List Response → Type 0
HaveTokens = All (λ r. r.opaque_token ≢ "")

-- The request has no time, or one of at most thirty seconds ago.
abbrev pub IsFresh : ℤ → Request → Type 0
IsFresh now_ms req = (req.timestamp ≤ℤ pos 0) ⊎ ((now_ms -ℤ req.timestamp) ≤ℤ pos 30000)

is_stale-IsFresh : (now_ms : ℤ) (req : Request) → (is_stale now_ms req ≡ false) ↔ IsFresh now_ms req
unfolding is_stale
is_stale-IsFresh now_ms req = let age : ℤ = now_ms -ℤ req.timestamp in ground arith

collect-HaveTokens :
    (answer : Option (Option Response)) (rest : List Response)
    → HaveTokens rest
    → HaveTokens (collect answer rest)
unfolding collect
collect-HaveTokens none rest h = h
collect-HaveTokens (some none) rest h = h
collect-HaveTokens (some (some r)) rest h = ground (arith, eq_iff r.opaque_token "")

module _ {W : Type 0} (dialer : PeerDialer W) where
  ask_peers-HaveTokens :
      (req : Request) (peers : Map String) (w : W) → HaveTokens (ask_peers dialer req peers w).0
  unfolding ask_peers
  ask_peers-HaveTokens req [] w = tt
  ask_peers-HaveTokens req ((k, addr) ∷ peers) w = elim (Bool-cases (dialer.dial addr w).0) [
    | inl dialed ↦
        let answer = dialer.ask addr req (dialer.dial addr w).1 in
        rw dialed (
          collect-HaveTokens answer.0 _
            (ask_peers-HaveTokens req peers (dialer.close addr answer.1)))
    | inr failed ↦ rw failed (ask_peers-HaveTokens req peers (dialer.dial addr w).1)
  ]

  -- A round over a list of peers, from a world to a world, with its results: the peers come in order
  -- and each is dialed once. One that cannot be reached is left out. One that can is asked once with
  -- the request, its connection is closed, and its answer is a result if it is a response with a
  -- token.
  pub data Round (req : Request) : Map String → W → List Response → W → Type 0 where
    over : {w : W} → Round req [] w [] w
    unreached :
        {k addr : String} {peers : Map String} {w w₁ w' : W} {results : List Response}
        → dialer.dial addr w ≡ (false, w₁)
        → Round req peers w₁ results w'
        → Round req ((k, addr) ∷ peers) w results w'
    no_token :
        {k addr : String} {peers : Map String} {w w₁ w₂ w' : W} {results : List Response}
        (answer : Option (Option Response))
        → dialer.dial addr w ≡ (true, w₁)
        → dialer.ask addr req w₁ ≡ (answer, w₂)
        → ((r : Response) → answer ≡ some (some r) → r.opaque_token ≡ "")
        → Round req peers (dialer.close addr w₂) results w'
        → Round req ((k, addr) ∷ peers) w results w'
    result :
        {k addr : String} {peers : Map String} {w w₁ w₂ w' : W} {results : List Response}
        (r : Response)
        → dialer.dial addr w ≡ (true, w₁)
        → dialer.ask addr req w₁ ≡ (some (some r), w₂)
        → r.opaque_token ≢ ""
        → Round req peers (dialer.close addr w₂) results w'
        → Round req ((k, addr) ∷ peers) w (r ∷ results) w'

  asked-Round :
      (req : Request) (k addr : String) (peers : Map String) (w w₁ w₂ w' : W)
      (answer : Option (Option Response)) (rest : List Response)
      → dialer.dial addr w ≡ (true, w₁)
      → dialer.ask addr req w₁ ≡ (answer, w₂)
      → Round req peers (dialer.close addr w₂) rest w'
      → Round req ((k, addr) ∷ peers) w (collect answer rest) w'
  unfolding collect
  asked-Round req k addr peers w w₁ w₂ w' none rest d a h = no_token none d a (λ r e. cc) h
  asked-Round req k addr peers w w₁ w₂ w' (some none) rest d a h =
      no_token (some none) d a (λ r e. cc) h
  asked-Round req k addr peers w w₁ w₂ w' (some (some r)) rest d a h =
      elim (Bool-cases (r.opaque_token == "")) [
        | inl empty ↦
            let bare : r.opaque_token ≡ "" = (eq_iff r.opaque_token "").0 empty in
            rw empty
              (no_token (some (some r)) d a (λ x e. let same : r ≡ x = cc e in rw same at bare) h)
        | inr full ↦ rw full (result r d a (λ e. cc (full, (eq_iff r.opaque_token "").1 e)) h)
      ]

  ask_peers-Round :
      (req : Request) (peers : Map String) (w : W)
      → Round req peers w (ask_peers dialer req peers w).0 (ask_peers dialer req peers w).1
  unfolding ask_peers
  ask_peers-Round req [] w = over
  ask_peers-Round req ((k, addr) ∷ peers) w = elim (Bool-cases (dialer.dial addr w).0) [
    | inl dialed ↦
        let w₁ = (dialer.dial addr w).1 in
        let (answer, w₂) = dialer.ask addr req w₁ in
        rw dialed (
          asked-Round req k addr peers w w₁ w₂ _ answer _ (ap (λ b. (b, w₁)) dialed) refl
            (ask_peers-Round req peers (dialer.close addr w₂)))
    | inr failed ↦
        let w₁ = (dialer.dial addr w).1 in
        rw failed (unreached (ap (λ b. (b, w₁)) failed) (ask_peers-Round req peers w₁))
  ]

  -- The results, and the world that the peers are part of.
  abbrev pub asked : List Response × (Index × W) → List Response × W
  asked (results, (idx, w)) = (results, w)

  abbrev pub unasked : W → List Response × W
  unasked w = ([], w)

  module _ (sum32 : String → ℕ) where
    -- What a request must pass before a peer is asked.
    pub record Forwards (req : Request) (now_ms now : ℤ) (idx : Index) : Type 0 where
      pub fresh : IsFresh now_ms req
      pub unseen : (seen_or_add sum32 req.request_id now idx).0 ≡ false
      pub hops : req.hop_limit ≢ 0

    -- If a request has no time or one of at most thirty seconds ago, its identifier is new to the
    -- index, and it has hops left, there is one round over the configured peers, each asked once with
    -- one hop less if it can be reached, and the results are the answers with a token, in the order of
    -- the peers; otherwise no peer is dialed or asked and there is no result. Every result has a token.
    pub broadcast-Forwards :
        (b : Broadcaster) (req : Request) (now_ms now : ℤ) (idx : Index) (w : W)
        → (Forwards req now_ms now idx
            → Round
                (record req { hop_limit = req.hop_limit - 1 })
                b.peers
                w
                (broadcast dialer sum32 b req now_ms now (idx, w)).0
                (broadcast dialer sum32 b req now_ms now (idx, w)).1.1)
          × (¬ Forwards req now_ms now idx
              → asked (broadcast dialer sum32 b req now_ms now (idx, w)) ≡ unasked w)
          × HaveTokens (broadcast dialer sum32 b req now_ms now (idx, w)).0
    unfolding broadcast
    broadcast-Forwards b req now_ms now idx w = elim (Bool-cases (is_stale now_ms req)) [
      | inl stale ↦
          rw stale
            (λ p. absurd (cc ((is_stale-IsFresh now_ms req).1 p.fresh, stale)), λ _. refl, tt)
      | inr fresh ↦ elim (Bool-cases (seen_or_add sum32 req.request_id now idx).0) [
        | inl seen ↦ rw (fresh, seen) (λ p. absurd (cc (p.unseen, seen)), λ _. refl, tt)
        | inr unseen ↦ elim (Bool-cases (nat_eq req.hop_limit 0)) [
          | inl last ↦ rw (fresh, unseen, last) (λ p. absurd (p.hops (ground arith)), λ _. refl, tt)
          | inr more ↦
              rw (fresh, unseen, more)
                (
                  λ _. ask_peers-Round (record req { hop_limit = req.hop_limit - 1 }) b.peers w,
                  λ never. absurd (
                      never (record {
                        fresh = (is_stale-IsFresh now_ms req).0 fresh;
                        unseen = unseen;
                        hops = ground arith;
                      })),
                  ask_peers-HaveTokens (record req { hop_limit = req.hop_limit - 1 }) b.peers w,
                )
        ]
      ]
    ]

    broadcast-index :
        (b : Broadcaster) (req : Request) (now_ms now : ℤ) (idx : Index) (w : W)
        → is_stale now_ms req ≡ false
        → (broadcast dialer sum32 b req now_ms now (idx, w)).1.0
          ≡ (seen_or_add sum32 req.request_id now idx).1
    unfolding broadcast
    broadcast-index b req now_ms now idx w fresh =
        elim (Bool-cases (seen_or_add sum32 req.request_id now idx).0) [
          | inl seen ↦ rw (fresh, seen) refl
          | inr unseen ↦ elim (Bool-cases (nat_eq req.hop_limit 0)) [
            | inl last ↦ rw (fresh, unseen, last) refl
            | inr more ↦ rw (fresh, unseen, more) refl
          ]
        ]

    -- After a request that was not stale and not seen before, any calls on the index before its
    -- entry expires, and then a request with the same identifier, also before that: no peer is asked
    -- for the second one, whatever its other fields.
    pub broadcast_once :
        (b : Broadcaster) (req again : Request) (now_ms now later_ms later : ℤ) (idx : Index)
        (w w' : W) (cs : List Call)
        → IsValid idx
        → is_stale now_ms req ≡ false
        → (seen_or_add sum32 req.request_id now idx).0 ≡ false
        → again.request_id ≡ req.request_id
        → AllBefore (now +ℤ idx.ttl) cs
        → later <ℤ (now +ℤ idx.ttl)
        → asked (
            broadcast dialer sum32 b again later_ms later
              (run sum32 cs (broadcast dialer sum32 b req now_ms now (idx, w)).1.0, w'))
          ≡ unasked w'
    broadcast_once b req again now_ms now later_ms later idx w w' cs valid fresh unseen same calls
          soon =
        let first = seen_or_add-eq sum32 req.request_id now idx in
        let idx' = run sum32 cs (broadcast dialer sum32 b req now_ms now (idx, w)).1.0 in
        let there : idx'
            ≡ run sum32 cs (seen_or_add_with_ttl sum32 req.request_id idx.ttl now idx).1 =
          ap (run sum32 cs)
            (broadcast-index b req now_ms now idx w fresh ∙ ap (λ (r : Bool × Index). r.1) first) in
        let seen : (seen_or_add sum32 again.request_id later idx').0 ≡ true =
          ap (λ (r : Bool × Index). r.0) (seen_or_add-eq sum32 again.request_id later idx')
          ∙ seen-later sum32 req.request_id again.request_id idx.ttl now later idx'.ttl idx idx' cs
              same there valid (sym (ap (λ (r : Bool × Index). r.0) first) ∙ unseen) calls soon in
        (broadcast-Forwards b again later_ms later idx' w').1 (λ p. cc (p.unseen, seen))
