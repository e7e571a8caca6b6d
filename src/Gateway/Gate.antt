-- ===== src/Gateway/Gate.antt =====
-- internal/core/gateway.go: `SendEnvelope` and the forwarder.
use mrmi_gateway.Prelude.{
  ℕ, String, Bool, Bool-cases, true, false, ◌≡◌, ◌≢◌, refl, ap, ◌∙◌, inl, inr, ◌&&◌, Option, none,
  some, ◌==◌, eq_iff, arith, if_true, if_false,
}
use mrmi_gateway.Envelope.{Envelope}
use mrmi_gateway.Audit.{AuditStore, Payload}
use mrmi_gateway.Policy.{Result, Decision, allow, deny, evaluate}
use mrmi_gateway.Policy.Verdict.{Permitted, evaluate-allow_iff}
use mrmi_gateway.Gateway.{
  Gateway, Forwarder, State, Moment, apply_padding, apply_jitter, policy_request, check_duplicate,
  acknowledged, forward_allowed, dispatch, process, respond, admit, or_same,
}
use mrmi_gateway.Gateway.Trail.{
  as_dummy, as_duplicate, as_fresh, admit-Admitted, after_dummy, after_duplicate, after_check,
  normalized, send, send-keyless, send-keyed,
}

module _ {B F : Type 0} (store : AuditStore B) (sum : Payload → String)
    (forwarder : Forwarder F) where
  -- The only call of the forwarder that `SendEnvelope` makes on this envelope.
  abbrev pub forwarded : Gateway → Envelope → F → F
  forwarded g env f = (forwarder.forward (apply_padding env g.cfg.profile.padding_bucket) f).1

  acknowledged-forwarder :
      (g : Gateway) (env : Envelope) (m : Moment) (hash : Option String) (s : State B F)
      → (acknowledged store sum forwarder g env m hash s).1.forwarder ≡ s.forwarder
  unfolding acknowledged
  acknowledged-forwarder g env m none s = refl
  acknowledged-forwarder g env m (some hash) s = refl

  -- What the engine's allowance leads to.
  unfoldable pub goes_out : Gateway → Moment → Bool
  goes_out g m = g.has_forwarder && apply_jitter g.cfg.profile.timing_jitter_max m.cancelled

  forward_allowed-out :
      (g : Gateway) (env : Envelope) (m : Moment) (s : State B F)
      → goes_out g m ≡ true
      → (forward_allowed store sum forwarder g env m s).1.forwarder ≡ forwarded g env s.forwarder
  unfolding forward_allowed goes_out
  forward_allowed-out g env m s out =
      ap (λ (r : Option String × State B F). r.1.forwarder) (if_true _ _ _ out)
      ∙ acknowledged-forwarder g env m _ _

  forward_allowed-in :
      (g : Gateway) (env : Envelope) (m : Moment) (s : State B F)
      → goes_out g m ≡ false
      → (forward_allowed store sum forwarder g env m s).1.forwarder ≡ s.forwarder
  unfolding forward_allowed goes_out
  forward_allowed-in g env m s stays =
      ap (λ (r : Option String × State B F). r.1.forwarder) (if_false _ _ _ stays)

  -- The forwarder is called exactly if the condition holds.
  abbrev pub CalledIf : Type 0 → Gateway → Envelope → State B F → State B F → Type 0
  CalledIf P g env s s' =
      (P → s'.forwarder ≡ forwarded g env s.forwarder) × (¬ P → s'.forwarder ≡ s.forwarder)

  dispatch-CalledIf :
      (g : Gateway) (env : Envelope) (m : Moment) (r : Result) (d : Decision) (s : State B F)
      → CalledIf
          ((d ≡ allow) × (goes_out g m ≡ true))
          g
          env
          s
          (dispatch store sum forwarder g env m r d s).1
  unfolding dispatch
  dispatch-CalledIf g env m r deny s = (λ p. absurd (cc p.0), λ _. refl)
  dispatch-CalledIf g env m r allow s = elim (Bool-cases (goes_out g m)) [
    | inl out ↦ (λ _. forward_allowed-out g env m _ out, λ never. absurd (never (refl, out)))
    | inr stays ↦ (λ p. absurd (cc (p.1, stays)), λ _. forward_allowed-in g env m _ stays)
  ]

  process-CalledIf :
      (g : Gateway) (env : Envelope) (m : Moment) (s : State B F)
      → CalledIf
          (Permitted g.policy (policy_request env) × (goes_out g m ≡ true))
          g
          env
          s
          (process store sum forwarder g env m s).1
  unfolding process
  process-CalledIf g env m s =
      let req = policy_request env in
      let r = evaluate store sum g.policy req m.audit_now (some s.audit) in
      let allows = evaluate-allow_iff store sum g.policy req m.audit_now (some s.audit) in
      let (called, kept) =
        dispatch-CalledIf g env m r.0 r.0.decision (record s { audit = or_same r.1 s.audit }) in
      (λ p. called (allows.1 p.0, p.1), λ never. kept (λ q. never (allows.0 q.0, q.1)))

  module _ (sum32 : String → ℕ) where
    -- What an envelope must pass on its way to the forwarder.
    pub record Passes (g : Gateway) (env : Envelope) (m : Moment) (s : State B F) : Type 0 where
      pub keyed : env.idempotency_key ≢ ""
      pub real : env.is_dummy ≡ false
      pub fresh : (check_duplicate sum32 g.cfg env m.dedup_now s.dedup).0 ≡ false
      pub permitted : Permitted g.policy (policy_request env)
      pub out : goes_out g m ≡ true

    admit-CalledIf :
        (g : Gateway) (env : Envelope) (m : Moment) (s : State B F)
        → env.idempotency_key ≢ ""
        → CalledIf (Passes g env m s) g env s (admit store sum forwarder sum32 g env m s).1
    unfolding respond after_dummy after_duplicate after_check
    admit-CalledIf g env m s keyed = elim (admit-Admitted store sum forwarder sum32 g env m s) [
      | as_dummy dummy e ↦ rw e (λ p. absurd (cc (p.real, dummy)), λ _. refl)
      | as_duplicate real seen e ↦ rw e (λ p. absurd (cc (p.fresh, seen)), λ _. refl)
      | as_fresh real fresh e ↦
          let (called, kept) =
            process-CalledIf g env m (after_check store sum forwarder sum32 g env m s) in
          rw e (
            λ p. called (p.permitted, p.out),
            λ never. kept (λ q.
                never (record {
                  keyed = keyed;
                  real = real;
                  fresh = fresh;
                  permitted = q.0;
                  out = q.1;
                })),
          )
    ]

    -- `SendEnvelope` calls the forwarder, once and with the padded envelope, if the envelope has a
    -- key, is no dummy, is not a duplicate, is permitted by the policy, there is a forwarder and the
    -- jitter is not cut short. Otherwise the forwarder is not called.
    pub send_envelope-CalledIf :
        (g : Gateway) (env : Envelope) (m : Moment) (s : State B F)
        → CalledIf
            (Passes g (normalized env) m s)
            g
            (normalized env)
            s
            (send store sum forwarder sum32 g env m s).1
    unfolding normalized
    send_envelope-CalledIf g env m s = elim (Bool-cases (env.idempotency_key == "")) [
      | inl empty ↦
          rw (send-keyless store sum forwarder sum32 g env m s empty)
            (λ p. absurd (p.keyed (ground (arith, eq_iff env.idempotency_key ""))), λ _. refl)
      | inr filled ↦
          rw (send-keyed store sum forwarder sum32 g env m s filled)
            (admit-CalledIf g (normalized env) m s (ground (arith, eq_iff env.idempotency_key "")))
    ]
