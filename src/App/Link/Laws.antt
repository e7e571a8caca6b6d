-- ===== src/App/Link/Laws.antt =====
-- internal/app/app.go and internal/identity/identity.go: what arrives at the peer.
use mrmi_gateway.Prelude.{
  ℕ, String, Bool, true, false, ◌≡◌, ◌≢◌, refl, Option, Option-cases, none, some, inl, inr, List,
  [], ◌∷◌,
}
use mrmi_gateway.Config.{Config}
use mrmi_gateway.Envelope.{Envelope}
use mrmi_gateway.Schema.{messaging, normalize}
use mrmi_gateway.Identity
use mrmi_gateway.Identity.{canonical_payload, verify}
use mrmi_gateway.Session.{Tracker, next_seq}
use mrmi_gateway.Gateway.Trail.{normalized}
use mrmi_gateway.Transport.Envelopes.{is_refused, verified_view}
use mrmi_gateway.App.Link.{Peers, wire_envelope, peer_hash, signed, numbered, send_to_peer}

module _ {Key Public : Type 0} (sign : Key → Identity.Payload → List ℕ)
    (valid : Public → Identity.Payload → List ℕ → Bool) where
  -- What the pair of keys is for: a signature is not empty, and it is valid for what was signed.
  pub record KeyPair (key : Key) (public : Public) : Type 0 where
    pub not_empty : (p : Identity.Payload) → sign key p ≢ []
    pub correct : (p : Identity.Payload) → valid public p (sign key p) ≡ true

  -- The peer's handler takes the envelope for well signed; the key, the payload and the regions are
  -- the sender's; the node is the one that sends; and the gateway of the peer reads the schema
  -- "messaging", whatever it was.
  pub record Arrives (cfg : Config) (public : Public) (env wire : Envelope) : Type 0 where
    pub accepted : is_refused valid (some public) wire ≡ false
    pub idempotency_key : wire.idempotency_key ≡ env.idempotency_key
    pub payload : wire.payload ≡ env.payload
    pub sender_region : wire.sender_region ≡ env.sender_region
    pub recipient_region : wire.recipient_region ≡ env.recipient_region
    pub sender_node_id : wire.sender_node_id ≡ cfg.node.node_id
    pub schema_type : (normalized wire).schema_type ≡ messaging

  verify-valid :
      (public : Public) (env : Envelope) (sig : List ℕ)
      → sig ≢ []
      → valid public (canonical_payload env) sig ≡ true
      → verify valid public env sig ≡ none
  unfolding verify
  verify-valid public env [] some_ ok = absurd (some_ refl)
  verify-valid public env (b ∷ sig) some_ ok = rw ok refl

  not-refused :
      (public : Public) (env : Envelope)
      → verify valid public (verified_view env) env.signature ≡ none
      → is_refused valid (some public) env ≡ false
  unfolding is_refused
  not-refused public env e = rw (e, is_refused) refl

  wire-Arrives :
      (cfg : Config) (key : Key) (public : Public) (seq : ℕ) (env : Envelope)
      → KeyPair key public
      → Arrives cfg public env (wire_envelope cfg (numbered sign key seq env))
  unfolding wire_envelope numbered signed normalized verified_view canonical_payload normalize
  wire-Arrives cfg key public seq env pair = record {
    accepted = not-refused public _ (verify-valid public _ _ (pair.not_empty _) (pair.correct _));
    idempotency_key = refl;
    payload = refl;
    sender_region = refl;
    recipient_region = refl;
    sender_node_id = refl;
    schema_type = refl;
  }

  module _ {W : Type 0} (peers : Peers W) where
    -- What a call comes to.
    pub data Sent (cfg : Config) (public : Public) (addr : String) (env : Envelope) (w : W)
        (r : (String × Option String) × (Tracker × W)) : Type 0 where
      unconnected :
          (e : String)
          → (peers.connect addr w).0 ≡ some e
          → r.0.0 ≡ ""
          → r.0.1 ≢ none
          → r.1.1 ≡ (peers.connect addr w).1
          → Sent cfg public addr env w r
      called :
          (wire : Envelope)
          → (peers.connect addr w).0 ≡ none
          → Arrives cfg public env wire
          → r.0 ≡ peer_hash (peers.call addr wire (peers.connect addr w).1).0
          → r.1.1 ≡ (peers.call addr wire (peers.connect addr w).1).1
          → Sent cfg public addr env w r

    -- Without a connection the call is an error and sends nothing. Otherwise the peer gets one
    -- envelope, and its answer decides the result: the envelope has the key, the payload and the
    -- regions of the one to send, it passes the check of signatures with the sender's public key, it
    -- names the sending node, and the peer's gateway reads its schema as "messaging". The pair of
    -- keys is taken to be correct: a signature is not empty and is valid for what was signed.
    pub send_to_peer-Sent :
        (cfg : Config) (key : Key) (public : Public) (addr : String) (env : Envelope) (t : Tracker)
        (w : W)
        → KeyPair key public
        → Sent cfg public addr env w (send_to_peer sign peers cfg key addr env (t, w))
    unfolding send_to_peer
    send_to_peer-Sent cfg key public addr env t w pair =
        elim (Option-cases (peers.connect addr w).0) [
          | inr (e, broken) ↦ rw (broken, send_to_peer) (unconnected e broken refl (λ h. cc h) refl)
          | inl fine ↦
              rw (fine, send_to_peer)
                (called _ fine
                  (wire-Arrives cfg key public (next_seq env.recipient_region t).0 env pair) refl
                  refl)
        ]
