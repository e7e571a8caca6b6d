-- ===== src/App/Link.antt =====
-- internal/app/app.go: the function that sends an envelope to a peer, which the forwarder gets. The
-- connection and the remote call are an interface over a state W; signing is a parameter.
pub mod Laws
use Prim.Native.String.{◌++◌ as append_text}
use mrmi_gateway.Prelude.{ℕ, String, Option, none, some, List, ◌==◌, if◌then◌else◌}
use mrmi_gateway.Config.{Config}
use mrmi_gateway.Envelope.{Envelope}
use mrmi_gateway.Identity
use mrmi_gateway.Identity.{canonical_payload}
use mrmi_gateway.Session.{Tracker, next_seq}
use mrmi_gateway.Gateway.{SendResponse}

-- An error of the call or the peer's response.
pub data PeerAnswer : Type 0 where
  call_error : String → PeerAnswer
  response : SendResponse → PeerAnswer

-- `connect` returns the pool's error, if there is one; `call` sends over the connection.
pub record Peers (W : Type 0) : Type 0 where
  pub connect : String → W → Option String × W
  pub call : String → Envelope → W → PeerAnswer × W

-- The fields that the message has; the others are empty.
unfoldable pub wire_envelope : Config → Envelope → Envelope
wire_envelope cfg env = record {
  idempotency_key = env.idempotency_key;
  sender_node_id = cfg.node.node_id;
  sender_identity = env.sender_identity;
  recipient_identity = env.recipient_identity;
  sender_region = env.sender_region;
  recipient_region = env.recipient_region;
  trust_tier = env.trust_tier;
  sequence_number = env.sequence_number;
  payload = env.payload;
  padded_to = env.padded_to;
  timestamp = env.timestamp;
  signature = env.signature;
  is_dummy = env.is_dummy;
  schema_type = "";
  schema_version = "";
  routing_hint = "";
}

-- The root hash of the peer's answer, or an error.
unfoldable pub peer_hash : PeerAnswer → String × Option String
peer_hash (call_error e) = ("", some e)
peer_hash (response r) =
    if r.decision == "DENY"
    then ("", some (append_text "peer denied envelope: " r.reason))
    else (r.audit_root_hash, none)

module _ {Key : Type 0} (sign : Key → Identity.Payload → List ℕ) where
  -- identity.Sign, into the envelope
  unfoldable pub signed : Key → Envelope → Envelope
  unfolding canonical_payload
  signed key env = record env { signature = sign key (canonical_payload env) }

  unfoldable pub numbered : Key → ℕ → Envelope → Envelope
  unfolding signed
  numbered key seq env = signed key (record env { sequence_number = seq })

  module _ {W : Type 0} (peers : Peers W) where
    -- The function that `delivery.NewForwarder` gets
    unfoldable pub send_to_peer :
        Config → Key → String → Envelope → Tracker × W → (String × Option String) × (Tracker × W)
    unfolding numbered wire_envelope peer_hash
    send_to_peer cfg key addr env (t, w) =
        let (seq, t') = next_seq env.recipient_region t in
        let (trouble, w') = peers.connect addr w in
        let (answer, w'') = peers.call addr (wire_envelope cfg (numbered key seq env)) w' in
        elim trouble [
          | some e ↦ (
            ("", some (append_text "connect to " (append_text addr (append_text ": " e)))),
            (t', w'),
          )
          | none ↦ (peer_hash answer, (t', w''))
        ]
