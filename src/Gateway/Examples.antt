-- ===== src/Gateway/Examples.antt =====
-- The gateway's theorems at concrete envelopes.
use mrmi_gateway.Prelude.{pos, ◌+ℤ◌, none, some, List, [], ◌∷◌, ◌≡◌, refl, arith, eq_iff}
use mrmi_gateway.Prelude.Int.{◌<ℤ◌, to_int64}
use mrmi_gateway.Prelude.Map
use mrmi_gateway.Config.{hours}
use mrmi_gateway.Config.Presets.{base_config}
use mrmi_gateway.Envelope.{Envelope}
use mrmi_gateway.Schema.{normalize}
use mrmi_gateway.Dedup
use mrmi_gateway.Dedup.Laws.{new-IsValid}
use mrmi_gateway.Audit.{StoreEntry}
use mrmi_gateway.Gateway.{State, SendResponse, iso_dedup_ttl, check_duplicate}
use mrmi_gateway.Gateway.Trail.{normalized, send, Answered, send_envelope-Answered}
use mrmi_gateway.Gateway.Gate.{CalledIf, Passes, send_envelope-CalledIf}
use mrmi_gateway.Gateway.Resend.{window, run, resend-duplicate}
use mrmi_gateway.Samples.{
  envelope, backend, digest, deliver, key_hash, gateway, fresh_state, moment,
}

send_envelope-CalledIf_example :
    CalledIf backend digest deliver
      (Passes backend digest deliver key_hash gateway
        (normalized (envelope "a1" "BY"))
        (moment 5)
        fresh_state)
      gateway
      (normalized (envelope "a1" "BY"))
      fresh_state
      (send backend digest deliver key_hash gateway (envelope "a1" "BY") (moment 5) fresh_state).1
send_envelope-CalledIf_example =
    send_envelope-CalledIf backend digest deliver key_hash gateway (envelope "a1" "BY") (moment 5)
      fresh_state

send_envelope-Answered_example :
    Answered backend digest deliver key_hash
      (envelope "a1" "BY")
      fresh_state
      (send backend digest deliver key_hash gateway (envelope "a1" "BY") (moment 5) fresh_state)
send_envelope-Answered_example =
    send_envelope-Answered backend digest deliver key_hash gateway (envelope "a1" "BY") (moment 5)
      fresh_state

abbrev between : State (List StoreEntry) (List Envelope)
between =
    run backend digest deliver key_hash gateway ((envelope "b2" "AM", moment 6) ∷ [])
      (send backend digest deliver key_hash gateway (envelope "a1" "BY") (moment 5) fresh_state).1

resend-duplicate_example :
    (response : SendResponse) × (s' : State (List StoreEntry) (List Envelope)) × (send backend
        digest deliver key_hash gateway
        (envelope "a1" "KZ")
        (moment 7)
        between
      ≡ ((none, some response), s'))
    × (response.decision ≡ "DUPLICATE")
    × (s'.forwarder ≡ between.forwarder)
unfolding check_duplicate window normalized normalize Dedup.seen_or_add_with_ttl Dedup.seen_or_add
    Dedup.seen_or_add_in Dedup.live Dedup.new iso_dedup_ttl to_int64 base_config ◌+ℤ◌ Map.lookup
    Map.insert Dedup.shard_for
resend-duplicate_example =
    resend-duplicate backend digest deliver key_hash gateway (envelope "a1" "BY")
      (envelope "a1" "KZ") (moment 5) (moment 7) ((envelope "b2" "AM", moment 6) ∷ []) fresh_state
      (new-IsValid (hours 24)) (ground (arith, eq_iff "a1" "")) refl refl (omega arith, tt) refl
      refl (omega arith)

-- A window of 2_562_048 hours wraps below zero: its keys are never held.
iso_dedup_ttl_test : iso_dedup_ttl (pos 2_562_048) <ℤ pos 0
unfolding iso_dedup_ttl to_int64
iso_dedup_ttl_test = omega arith
