-- ===== src/Envelope.antt =====
-- internal/core/gateway.go: the envelope that the components pass on. Byte strings are lists of
-- numbers; the identities and the signature are never looked into.
use mrmi_gateway.Prelude.{ℕ, ℤ, String, Bool, List}

pub record Envelope : Type 0 where
  pub idempotency_key : String
  pub sender_node_id : String
  pub sender_identity : List ℕ
  pub recipient_identity : List ℕ
  pub sender_region : String
  pub recipient_region : String
  pub trust_tier : ℕ
  pub sequence_number : ℕ
  pub payload : List ℕ
  pub padded_to : ℕ
  pub timestamp : ℤ
  pub signature : List ℕ
  pub is_dummy : Bool
  pub schema_type : String
  pub schema_version : String
  pub routing_hint : String
