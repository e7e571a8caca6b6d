-- ===== src/Delivery/Forwarder/Promise.antt =====
-- internal/delivery/forwarder.go: where `Forward` leaves an envelope.
use mrmi_gateway.Prelude.{
  ℤ, ◌+ℤ◌, String, ◌≡◌, ◌≢◌, refl, ◌⊎◌, inl, inr, none, some, Option, List, [], ◌∷◌, ◌++◌, ◌==◌,
  eq_refl, Bool-cases, Option-cases,
}
use mrmi_gateway.Prelude.Map
use mrmi_gateway.Prelude.Map.{lookup-insert}
use mrmi_gateway.Config.{Config, PeerConfig}
use mrmi_gateway.Envelope.{Envelope}
use mrmi_gateway.Schema.{iso20022}
use mrmi_gateway.Schema.Window.{Zone}
use mrmi_gateway.Transit
use mrmi_gateway.Delivery.Dlq
use mrmi_gateway.Delivery.Retry.{RetryPolicy, unix}
use mrmi_gateway.Delivery.Forwarder.{
  Net, State, ForwardError, no_peer, peers_for, hold, reject, route, route_to, delivered,
  first_addr, try_peers, order_peers, check_cutoff_window, forward,
}

-- The envelope is in the transit cache, under its key.
abbrev pub InTransit : {W : Type 0} → Envelope → State W → Type 0
InTransit env s =
    (c : Transit.Cache) × (e : Transit.Entry) × (s.transit ≡ some c)
    × (Map.lookup env.idempotency_key c.entries ≡ some e)
    × (e.env ≡ env)

-- The envelope is the last entry of the queue.
abbrev pub Queued : {W : Type 0} → Envelope → State W → Type 0
Queued env s =
    (q : List Dlq.Entry) × (e : Dlq.Entry) × (s.dlq ≡ some (q ++ e ∷ [])) × (e.envelope ≡ env)

module _ {W : Type 0} (net : Net W) (policy : RetryPolicy) where
  Transit-put :
      (env : Envelope) (addr : String) (now : ℤ) (c : Transit.Cache)
      → Map.lookup env.idempotency_key (Transit.put env addr now c).entries
        ≡ some (record { env = env; peer_addr = addr; expires = now +ℤ c.ttl })
  unfolding Transit.put
  Transit-put env addr now c = rw (lookup-insert, eq_refl)

  hold-keeps :
      (env : Envelope) (addr : String) (s : State W)
      → s.dlq ≢ none
      → InTransit env (hold net policy env addr s).1 ⊎ Queued env (hold net policy env addr s).1
  unfolding hold Dlq.append Dlq.entry_for
  hold-keeps env addr s h = elim (Option-cases s.transit) [
    | inr (c, cached) ↦
        let now = (net.now s.world).0 in
        rw (cached, hold)
          (inl (
            Transit.put env addr now c,
            record { env = env; peer_addr = addr; expires = now +ℤ c.ttl },
            refl,
            Transit-put env addr now c,
            refl,
          ))
    | inl uncached ↦ elim (Option-cases s.dlq) [
      | inl missing ↦ absurd (h missing)
      | inr (q, queue) ↦
          rw (uncached, queue, hold)
            (inr (
              q,
              record (Dlq.entry_for env addr) { first_seen_unix = unix (net.now s.world).0 },
              refl,
              refl,
            ))
    ]
  ]

  -- The ways in which a call of `Forward` ends.
  abbrev pub Ends : Config → Envelope → (String × Option ForwardError) × State W → Type 0
  Ends cfg env r =
      (r.0.1 ≡ none)
      ⊎ ((r.0.1 ≡ some (no_peer env.recipient_region)) × (peers_for cfg env.recipient_region ≡ []))
      ⊎ InTransit env r.1
      ⊎ Queued env r.1

  delivered-Ends :
      (cfg : Config) (env : Envelope) (addr : String) (found : Option String) (s : State W)
      → s.dlq ≢ none
      → Ends cfg env (delivered net policy env addr found s)
  unfolding delivered
  delivered-Ends cfg env addr (some hash) s h = inl refl
  delivered-Ends cfg env addr none s h = elim (hold-keeps env addr s h) [
    | inl t ↦ inr (inr (inl t))
    | inr q ↦ inr (inr (inr q))
  ]

  route_to-Ends :
      (cfg : Config) (env : Envelope) (peers : List PeerConfig) (s : State W)
      → peers_for cfg env.recipient_region ≡ peers
      → s.dlq ≢ none
      → Ends cfg env (route_to net policy env peers s)
  unfolding route_to
  route_to-Ends cfg env [] s e h = inr (inl (refl, e))
  route_to-Ends cfg env (p ∷ ps) s e h =
      let peers = order_peers (p ∷ ps) env.routing_hint in
      let tried = try_peers net policy env peers s.world in
      delivered-Ends cfg env (first_addr net policy peers) tried.0 (record s { world = tried.1 }) h

  route-Ends :
      (cfg : Config) (env : Envelope) (s : State W)
      → s.dlq ≢ none
      → Ends cfg env (route net policy cfg env s)
  unfolding route
  route-Ends cfg env s h = route_to-Ends cfg env (peers_for cfg env.recipient_region) s refl h

  reject-Queued :
      (env : Envelope) (opens : Option ℤ) (s : State W)
      → s.dlq ≢ none
      → Queued env (reject net policy env opens s)
  unfolding reject Dlq.append Dlq.entry_for
  reject-Queued env opens s h = elim (Option-cases s.dlq) [
    | inl missing ↦ absurd (h missing)
    | inr (q, queue) ↦ rw (queue, reject) (q, _, refl, refl)
  ]

  module _ (load_location : String → Option Zone) where
    -- With a queue, every call of `Forward` that returns an error says that there is no peer for the
    -- region, and there is none, or leaves the envelope in the transit cache under its key or as the
    -- last entry of the queue.
    pub forward-Ends :
        (cfg : Config) (env : Envelope) (s : State W)
        → s.dlq ≢ none
        → Ends cfg env (forward net policy load_location cfg env s)
    unfolding forward
    forward-Ends cfg env s h = elim (Bool-cases (env.schema_type == iso20022)) [
      | inr other ↦ rw (other, forward) (route-Ends cfg env s h)
      | inl iso ↦
          let checked =
            check_cutoff_window load_location net cfg.schema_registry.iso20022.cutoff_windows env
              s.world in
          let s' = record s { world = checked.1 } in
          elim (Option-cases checked.0.err) [
            | inl fine ↦ rw (iso, fine, forward) (route-Ends cfg env s' h)
            | inr (e, refused) ↦
                rw (iso, refused, forward)
                  (inr (inr (inr (reject-Queued env checked.0.next_open s' h))))
          ]
    ]
