-- ===== src/Identity/Examples.antt =====
-- internal/identity/identity.go: a signature stays valid for an envelope of another sender.
use mrmi_gateway.Prelude.{String, true, ◌≡◌, refl}
use mrmi_gateway.Envelope.{Envelope}
use mrmi_gateway.Identity.{canonical_payload}

-- The sender's identifier, the schema, the routing hint and the dummy flag are not in what is signed.
canonical_payload_test :
    (env : Envelope) (sender schema hint : String)
    → canonical_payload (record env {
      sender_node_id = sender;
      schema_type = schema;
      routing_hint = hint;
      is_dummy = true;
    })
      ≡ canonical_payload env
unfolding canonical_payload
canonical_payload_test env sender schema hint = refl
