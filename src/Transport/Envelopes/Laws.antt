-- ===== src/Transport/Envelopes/Laws.antt =====
-- internal/transport/grpc/adapter.go: `SendEnvelope` and the gateway behind it.
use mrmi_gateway.Prelude.{
  ℕ, String, Bool, Bool-cases, true, false, ◌≡◌, ◌≢◌, refl, inl, inr, Option, Option-cases, none,
  some, List, [], ◌∷◌, if_true, if_false,
}
use mrmi_gateway.Envelope.{Envelope}
use mrmi_gateway.Identity
use mrmi_gateway.Identity.{SignatureError, canonical_payload, verify}
use mrmi_gateway.Session.{Tracker}
use mrmi_gateway.Audit.{AuditStore}
use mrmi_gateway.Audit
use mrmi_gateway.Gateway.{Gateway, Forwarder, State, Moment, SendResponse, GatewayError}
use mrmi_gateway.Gateway.Trail.{
  Continues, logged_decision, Answered, refused, answered, send_envelope-Answered,
}
use mrmi_gateway.Transport.{invalid_argument}
use mrmi_gateway.Transport.Envelopes.{
  Answer, failed, replied, verified_view, is_refused, invalid_signature_response, answer_of, send,
}

module _ {Key : Type 0} (valid : Key → Identity.Payload → List ℕ → Bool) where
  -- The envelope has a signature, and the signature is valid for the key and the eight fields that a
  -- sender signs.
  pub record WellSigned (key : Key) (env : Envelope) : Type 0 where
    pub present : env.signature ≢ []
    pub holds :
        valid key
          (record {
            idempotency_key = env.idempotency_key;
            sender_region = env.sender_region;
            recipient_region = env.recipient_region;
            trust_tier = env.trust_tier;
            sequence_number = env.sequence_number;
            payload = env.payload;
            padded_to = env.padded_to;
            timestamp = env.timestamp;
          })
          env.signature
        ≡ true

  -- What the adapter asks of a signature: nothing without a key for verification.
  abbrev pub Trusted : Option Key → Envelope → Type 0
  Trusted none env = Unit
  Trusted (some key) env = WellSigned key env

  verify-none :
      (key : Key) (env : Envelope) (sig : List ℕ)
      → verify valid key env sig ≡ none
      → (sig ≢ []) × (valid key (canonical_payload env) sig ≡ true)
  unfolding verify
  verify-none key env [] e = absurd (cc e)
  verify-none key env (b ∷ sig) e =
      elim (Bool-cases (valid key (canonical_payload env) (b ∷ sig))) [
        | inl good ↦ (λ h. cc h, good)
        | inr bad ↦ absurd (cc (rw bad at e))
      ]

  verify-some :
      (key : Key) (env : Envelope) (sig : List ℕ) (x : SignatureError)
      → verify valid key env sig ≡ some x
      → sig ≢ []
      → valid key (canonical_payload env) sig ≢ true
  unfolding verify
  verify-some key env [] x e given = absurd (given refl)
  verify-some key env (b ∷ sig) x e given = λ good. absurd (cc (rw good at e))

  refused-Trusted :
      (verify_key : Option Key) (env : Envelope)
      → is_refused valid verify_key env ≡ true
      → ¬ Trusted verify_key env
  unfolding is_refused verified_view canonical_payload
  refused-Trusted none env bad = absurd (cc bad)
  refused-Trusted (some key) env bad =
      let result = verify valid key (verified_view env) env.signature in
      elim (Option-cases result) [
        | inl clean ↦ absurd (cc (rw (clean, is_refused) at bad))
        | inr (x, found) ↦
            λ h. verify-some key (verified_view env) env.signature x found h.present h.holds
      ]

  taken-Trusted :
      (verify_key : Option Key) (env : Envelope)
      → is_refused valid verify_key env ≡ false
      → Trusted verify_key env
  unfolding is_refused verified_view canonical_payload
  taken-Trusted none env fine = tt
  taken-Trusted (some key) env fine =
      let result = verify valid key (verified_view env) env.signature in
      elim (Option-cases result) [
        | inl clean ↦
            let both = verify-none key (verified_view env) env.signature clean in
            record { present = both.0; holds = both.1 }
        | inr (x, found) ↦ absurd (cc (rw (found, is_refused) at fine))
      ]

  module _ {B F : Type 0} (store : AuditStore B) (sum : Audit.Payload → String)
      (forwarder : Forwarder F) (sum32 : String → ℕ) where
    -- The three ways in which a call ends, for the state of the gateway before and after.
    pub data Served (verify_key : Option Key) (env : Envelope) (s : State B F)
        (a : Answer SendResponse) (s' : State B F) : Type 0 where
      bad_signature :
          ¬ Trusted verify_key env
          → a ≡ replied invalid_signature_response
          → s' ≡ s
          → Served verify_key env s a s'
      bad_argument :
          Trusted verify_key env
          → env.idempotency_key ≡ ""
          → a ≡ failed invalid_argument
          → s' ≡ s
          → Served verify_key env s a s'
      served :
          (response : SendResponse)
          → Trusted verify_key env
          → env.idempotency_key ≢ ""
          → a ≡ replied response
          → response.audit_root_hash ≡ s'.audit.root
          → Continues store sum
              (logged_decision store sum forwarder sum32 env.is_dummy response)
              s.audit
              s'.audit
          → Served verify_key env s a s'

    from_gateway :
        (verify_key : Option Key) (env : Envelope) (s : State B F)
        (r : (Option GatewayError × Option SendResponse) × State B F)
        → Trusted verify_key env
        → Answered store sum forwarder sum32 env s r
        → Served verify_key env s (answer_of r.0.0 r.0.1) r.1
    unfolding answer_of
    from_gateway verify_key env s r fine (refused empty e) =
        rw e (bad_argument fine empty refl refl)
    from_gateway verify_key env s r fine (answered response keyed e root log) =
        rw e (served response fine keyed refl root log)

    -- With a key for verification, an envelope that has no signature, or none that is valid for that
    -- key and the eight fields that are signed, is answered "INVALID_SIGNATURE" and changes nothing in
    -- the gateway. Without such a key no signature is asked for. Any other envelope without an idempotency
    -- key is an invalid argument and changes nothing in the gateway. Every other one gets the
    -- gateway's response: the log continues with its decision, and it has the root of the log.
    pub send-Served :
        (g : Gateway) (verify_key : Option Key) (env : Envelope) (m : Moment) (t : Tracker)
        (s : State B F)
        → Served verify_key env s
            (send valid store sum forwarder sum32 g verify_key env m (t, s)).0
            (send valid store sum forwarder sum32 g verify_key env m (t, s)).1.1
    unfolding send
    send-Served g verify_key env m t s = elim (Bool-cases (is_refused valid verify_key env)) [
      | inl bad ↦
          rw (if_true (is_refused valid verify_key env) _ _ bad)
            (bad_signature (refused-Trusted verify_key env bad) refl refl)
      | inr fine ↦ rw (if_false (is_refused valid verify_key env) _ _ fine) (
          from_gateway verify_key env s _ (taken-Trusted verify_key env fine)
            (send_envelope-Answered store sum forwarder sum32 g env m s))
    ]
