-- ===== src/Delivery/Forwarder/Success.antt =====
-- internal/delivery/forwarder.go: what a nil error of `Forward` means.
use mrmi_gateway.Prelude.{
  ◌<◌, String, Bool-cases, ◌≡◌, refl, ap, sym, ◌∙◌, inl, inr, Option-cases, Option, none, some,
  List, [], ◌∷◌, ◌==◌,
}
use mrmi_gateway.Config.{Config, PeerConfig}
use mrmi_gateway.Envelope.{Envelope}
use mrmi_gateway.Schema.{iso20022}
use mrmi_gateway.Schema.Window.{Zone}
use mrmi_gateway.Delivery.Dlq.{entry_for}
use mrmi_gateway.Delivery.Retry.{RetryPolicy, send_with_retry}
use mrmi_gateway.Delivery.Retry.Sent.{send_with_retry-JustSent}
use mrmi_gateway.Delivery.Forwarder.{
  Net, State, link, try_peers, first_addr, delivered, order_peers, route_to, route, peers_for,
  check_cutoff_window, forward,
}
use mrmi_gateway.Delivery.Forwarder.Paths.{In}

module _ {W : Type 0} (net : Net W) (policy : RetryPolicy) where
  -- A peer of the list took the envelope and answered with the hash.
  pub record TakenBy (env : Envelope) (peers : List PeerConfig) (hash : String) : Type 0 where
    pub peer : PeerConfig
    pub before : W
    pub listed : In peer peers
    pub hash_of : (net.send peer.addr env before).0.0 ≡ hash
    pub accepted : (net.send peer.addr env before).0.1 ≡ none

  some_injective : (x y : String) → some x ≡ some y → x ≡ y
  some_injective x y h = cc

  try_peers-TakenBy :
      (env : Envelope) (peers : List PeerConfig) (w : W) (hash : String)
      → 0 < policy.max_attempts
      → (try_peers net policy env peers w).0 ≡ some hash
      → TakenBy env peers hash
  unfolding try_peers link
  try_peers-TakenBy env [] w hash positive = λ h. absurd (cc h)
  try_peers-TakenBy env (p ∷ ps) w hash positive =
      let out = send_with_retry (link net p.addr env) policy none (entry_for env p.addr) (w, "") in
      elim (Option-cases out.err) [
        | inl ok ↦
            let (s, accepted, after) =
              send_with_retry-JustSent (link net p.addr env) policy none (entry_for env p.addr)
                (w, "") positive ok in
            rw (ok, try_peers)
              (λ h. record {
                peer = p;
                before = s.0;
                listed = inl refl;
                hash_of = sym (ap (λ (x : W × String). x.1) after) ∙ some_injective _ hash h;
                accepted = accepted;
              })
        | inr (e, failed) ↦
            rw (failed, try_peers)
              (λ h.
                let t = try_peers-TakenBy env ps out.world.0 hash positive h in
                record {
                  peer = t.peer;
                  before = t.before;
                  listed = inr t.listed;
                  hash_of = t.hash_of;
                  accepted = t.accepted;
                })
      ]

  delivered-found :
      (env : Envelope) (addr : String) (found : Option String) (s : State W)
      → (delivered net policy env addr found s).0.1 ≡ none
      → found ≡ some (delivered net policy env addr found s).0.0
  unfolding delivered
  delivered-found env addr (some hash) s h = refl
  delivered-found env addr none s h = absurd (cc h)

  -- The peers for a region, the one of the hint first.
  abbrev pub candidates : Config → Envelope → List PeerConfig
  candidates cfg env = order_peers (peers_for cfg env.recipient_region) env.routing_hint

  route_to-TakenBy :
      (env : Envelope) (peers : List PeerConfig) (s : State W)
      → 0 < policy.max_attempts
      → (route_to net policy env peers s).0.1 ≡ none
      → TakenBy env (order_peers peers env.routing_hint) (route_to net policy env peers s).0.0
  unfolding route_to
  route_to-TakenBy env [] s positive h = absurd (cc h)
  route_to-TakenBy env (p ∷ ps) s positive h =
      let peers = order_peers (p ∷ ps) env.routing_hint in
      try_peers-TakenBy env peers s.world _ positive (
        delivered-found env (first_addr net policy peers) (try_peers net policy env peers s.world).0
          (record s { world = (try_peers net policy env peers s.world).1 }) h)

  route-TakenBy :
      (cfg : Config) (env : Envelope) (s : State W)
      → 0 < policy.max_attempts
      → (route net policy cfg env s).0.1 ≡ none
      → TakenBy env (candidates cfg env) (route net policy cfg env s).0.0
  unfolding route
  route-TakenBy cfg env s positive h =
      route_to-TakenBy env (peers_for cfg env.recipient_region) s positive h

  module _ (load_location : String → Option Zone) where
    -- With a positive number of attempts, a call of `Forward` that returns no error returns a hash
    -- that one of the peers for the region returned, without an error, when this envelope was sent to
    -- it.
    pub forward-TakenBy :
        (cfg : Config) (env : Envelope) (s : State W)
        → 0 < policy.max_attempts
        → (forward net policy load_location cfg env s).0.1 ≡ none
        → TakenBy env (candidates cfg env) (forward net policy load_location cfg env s).0.0
    unfolding forward
    forward-TakenBy cfg env s positive = elim (Bool-cases (env.schema_type == iso20022)) [
      | inr other ↦ rw (other, forward) (route-TakenBy cfg env s positive)
      | inl iso ↦
          let checked =
            check_cutoff_window load_location net cfg.schema_registry.iso20022.cutoff_windows env
              s.world in
          elim (Option-cases checked.0.err) [
            | inl fine ↦
                rw (iso, fine, forward)
                  (route-TakenBy cfg env (record s { world = checked.1 }) positive)
            | inr (e, refused) ↦ rw (iso, refused, forward) (λ h. absurd (cc h))
          ]
    ]
