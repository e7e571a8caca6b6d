-- ===== src/Dummy.antt =====
-- internal/dummy/generator.go: the synthetic envelopes of a tick. The text of the counter (uint64) is a
-- parameter; the envelopes of one tick get one instant.
use Prim.Native.String.{◌++◌ as append_text}
use mrmi_gateway.Prelude.{
  ℕ, ◌+◌, ◌%◌, ◌^◌, ℤ, pos, ltb_ℤ, leb_ℤ, String, Bool, true, not, ◌&&◌, List, [], ◌∷◌,
  if◌then◌else◌, replicate,
}
use mrmi_gateway.Prelude.Int.{pos_part}
use mrmi_gateway.Config.{Config, PeerConfig}
use mrmi_gateway.Envelope.{Envelope}

no_peers : List PeerConfig → Bool
no_peers [] = true
no_peers (_ ∷ _) = not true

-- Whether `Run` starts its loop.
unfoldable pub is_on : Config → List PeerConfig → Bool
unfolding no_peers
is_on cfg peers = not (leb_ℤ cfg.profile.dummy_traffic_rate (pos 0)) && not (no_peers peers)

module _ (decimal : ℕ → String) where
  unfoldable pub dummy_envelope : Config → PeerConfig → ℕ → ℤ → Envelope
  dummy_envelope cfg peer counter now_ms =
      let bucket = cfg.profile.padding_bucket in
      let padded = ltb_ℤ (pos 0) bucket in
      record {
        idempotency_key =
            append_text "dummy-" (append_text cfg.node.node_id (append_text "-" (decimal counter)));
        sender_node_id = "";
        sender_identity = [];
        recipient_identity = [];
        sender_region = cfg.node.region;
        recipient_region = peer.region;
        trust_tier = 0;
        sequence_number = 0;
        payload = if padded then replicate (pos_part bucket) 0 else [];
        padded_to = if padded then pos_part bucket % 2 ^ 32 else 0;
        timestamp = now_ms;
        signature = [];
        is_dummy = true;
        schema_type = "";
        schema_version = "";
        routing_hint = "";
      }

  -- A tick of `Run`, from the counter before: the envelopes that it sends, and the counter after.
  unfoldable pub tick : Config → List PeerConfig → ℤ → ℕ → List Envelope × ℕ
  unfolding dummy_envelope
  tick cfg [] now_ms counter = ([], counter)
  tick cfg (p ∷ peers) now_ms counter =
      let next = (counter + 1) % 2 ^ 64 in
      let (rest, last) = tick cfg peers now_ms next in
      (dummy_envelope cfg p next now_ms ∷ rest, last)
