-- ===== src/Transport/Envelopes.antt =====
-- internal/transport/grpc/adapter.go: `SendEnvelope` and `GetNodeInfo`.
pub mod Laws
use mrmi_gateway.Prelude.{
  ℕ, ltb, String, Bool, true, false, not, Option, none, some, List, [], if◌then◌else◌,
}
use mrmi_gateway.Envelope.{Envelope}
use mrmi_gateway.Identity
use mrmi_gateway.Identity.{verify}
use mrmi_gateway.Session
use mrmi_gateway.Session.{Tracker}
use mrmi_gateway.Audit.{AuditStore}
use mrmi_gateway.Audit
use mrmi_gateway.Gateway.{
  Gateway, Forwarder, State, Moment, SendResponse, NodeInfo, get_node_info, GatewayError,
  empty_idempotency_key, send_envelope,
}
use mrmi_gateway.Transport.{RpcError, invalid_argument}

-- The copy of the envelope that is verified.
unfoldable pub verified_view : Envelope → Envelope
verified_view env = record env {
  sender_node_id = "";
  sender_identity = [];
  recipient_identity = [];
  signature = [];
  is_dummy = false;
}

-- The warning of `Validate` is only logged.
unfoldable pub note_sequence : Envelope → Tracker → Tracker
note_sequence env t =
    if ltb 0 env.sequence_number
    then (Session.validate env.sender_region env.sequence_number t).1
    else t

unfoldable pub is_refused :
    {Key : Type 0} → (Key → Identity.Payload → List ℕ → Bool) → Option Key → Envelope → Bool
unfolding verify verified_view
is_refused valid none env = false
is_refused valid (some key) env = elim (verify valid key (verified_view env) env.signature) [
  | none ↦ false
  | some _ ↦ true
]

-- An answer of the service: an error or a response.
pub data Answer (A : Type 0) : Type 0 where
  failed : RpcError → Answer A
  replied : A → Answer A

abbrev pub invalid_signature_response : SendResponse
invalid_signature_response = record {
  decision = "DENY";
  reason = "INVALID_SIGNATURE";
  profile = "";
  node_id = "";
  audit_root_hash = "";
  peer_audit_root_hash = "";
}

-- The gateway's error or response; it returns exactly one of them.
unfoldable pub answer_of : Option GatewayError → Option SendResponse → Answer SendResponse
answer_of (some empty_idempotency_key) response = failed invalid_argument
answer_of none none = failed RpcError.internal
answer_of none (some r) = replied r

-- gatewayAdapter.GetNodeInfo; the gateway's call returns no error.
unfoldable pub node_info : Gateway → Answer NodeInfo
unfolding get_node_info
node_info g = replied (get_node_info g)

module _ {Key : Type 0} (valid : Key → Identity.Payload → List ℕ → Bool) where
  module _ {B F : Type 0} (store : AuditStore B) (sum : Audit.Payload → String)
      (forwarder : Forwarder F) (sum32 : String → ℕ) where
    -- gatewayAdapter.SendEnvelope
    unfoldable pub send :
        Gateway
        → Option Key
        → Envelope
        → Moment
        → Tracker × State B F
        → Answer SendResponse × (Tracker × State B F)
    unfolding note_sequence is_refused answer_of
    send g verify_key env m (t, s) =
        let (result, s') = send_envelope store sum forwarder sum32 g env m s in
        if is_refused valid verify_key env
        then (replied invalid_signature_response, (note_sequence env t, s))
        else (answer_of result.0 result.1, (note_sequence env t, s'))
