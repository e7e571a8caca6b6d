-- ===== src/Identity.antt =====
-- internal/identity/identity.go: what an envelope's signature is checked against. Ed25519 on the JSON
-- of the payload is a parameter: whether a signature is valid for a key and a payload.
mod Examples
use mrmi_gateway.Prelude.{
  ℕ, ℤ, String, Bool, true, false, not, Option, none, some, List, [], ◌∷◌, if◌then◌else◌,
}
use mrmi_gateway.Envelope.{Envelope}

-- The fields that `canonicalPayload` encodes.
pub record Payload : Type 0 where
  pub idempotency_key : String
  pub sender_region : String
  pub recipient_region : String
  pub trust_tier : ℕ
  pub sequence_number : ℕ
  pub payload : List ℕ
  pub padded_to : ℕ
  pub timestamp : ℤ

-- canonicalPayload
unfoldable pub canonical_payload : Envelope → Payload
canonical_payload env = record {
  idempotency_key = env.idempotency_key;
  sender_region = env.sender_region;
  recipient_region = env.recipient_region;
  trust_tier = env.trust_tier;
  sequence_number = env.sequence_number;
  payload = env.payload;
  padded_to = env.padded_to;
  timestamp = env.timestamp;
}

pub data SignatureError : Type 0 where
  missing_signature invalid_signature : SignatureError

-- Verify
unfoldable pub verify :
    {Key : Type 0}
    → (Key → Payload → List ℕ → Bool)
    → Key
    → Envelope
    → List ℕ
    → Option SignatureError
verify valid key env [] = some missing_signature
verify valid key env (b ∷ sig) =
    if not (valid key (canonical_payload env) (b ∷ sig)) then some invalid_signature else none
