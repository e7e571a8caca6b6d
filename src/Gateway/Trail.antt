-- ===== src/Gateway/Trail.antt =====
-- internal/core/gateway.go: `SendEnvelope` and the audit log.
use mrmi_gateway.Prelude.{
  ℕ, ℤ, String, Bool, Bool-cases, true, false, ◌≡◌, ◌≢◌, refl, ◌∙◌, inl, inr, ◌&&◌, Option,
  Option-cases, none, some, List, [], ◌∷◌, ◌++◌, ◌==◌, eq_iff, arith, if◌then◌else◌, if_true,
  if_false,
}
use mathlib.Core.List.{append_assoc}
use mrmi_gateway.Envelope.{Envelope}
use mrmi_gateway.Schema.{normalize, iso20022}
use mrmi_gateway.Config.{Config}
use mrmi_gateway.Audit.{
  decision_dummy, AuditStore, Payload, Entry, Draft, Log, append, append_entry, append_finality,
  draft_payload,
}
use mrmi_gateway.Audit.Chain.{IsSound, append_entry-IsSound}
use mrmi_gateway.Policy.{
  Result, Decision, allow, deny, decide, decision_text, evaluate, append_audit, audit_draft,
}
use mrmi_gateway.Gateway.{
  on_duplicate, emit_if, Gateway, Forwarder, State, Moment, SendResponse, GatewayError,
  empty_idempotency_key, apply_padding, apply_jitter, policy_request, check_duplicate, audit_dummy,
  audit_duplicate, audit_finality, acknowledged, forward_allowed, dispatch, or_same, process,
  respond, admit, send_envelope,
}

-- The envelope that a call goes on with.
unfoldable pub normalized : Envelope → Envelope
normalized env = record env { schema_type = normalize env.schema_type }

module _ {B : Type 0} (store : AuditStore B) (sum : Payload → String) where
  -- The entries of l' continue those of l, the first new one with this decision, and l' is sound if
  -- l is.
  pub record Continues (decision : String) (l l' : Log B) : Type 0 where
    pub first : Entry
    pub rest : List Entry
    pub entries : l'.entries ≡ l.entries ++ first ∷ rest
    pub answer : first.decision ≡ decision
    pub sound : IsSound store sum l → IsSound store sum l'

  append_entry-Continues :
      (cfg : Config) (d : Draft) (retain final : Bool) (now : ℤ) (l : Log B)
      → Continues d.decision l (append_entry store sum cfg d retain final now l).1
  append_entry-Continues cfg d retain final now l = record {
    first = (append_entry store sum cfg d retain final now l).0;
    rest = [];
    entries = unfold append_entry in refl;
    answer = unfold append_entry draft_payload in refl;
    sound = append_entry-IsSound store sum cfg d retain final now l;
  }

  audit_finality-Continues :
      (cfg : Config) (env : Envelope) (now : ℤ) (answer : String) (l l' : Log B)
      → Continues answer l l'
      → Continues answer l (audit_finality store sum cfg env now l')
  unfolding audit_finality append_finality
  audit_finality-Continues cfg env now answer l l' c =
      elim (Bool-cases
        (env.schema_type == iso20022 && cfg.schema_registry.iso20022.settlement_finality)) [
          | inr skipped ↦ rw (skipped, audit_finality) c
          | inl final ↦
              rw (final, audit_finality, append_finality)
                (record {
                  first = c.first;
                  rest =
                      c.rest
                      ++ (append_finality store sum cfg env.sender_region env.recipient_region
                          env.schema_version now l').0
                        ∷ [];
                  entries =
                      unfold append_entry in
                      rw (c.entries) (append_assoc l.entries (c.first ∷ c.rest) _);
                  answer = c.answer;
                  sound = λ v. append_entry-IsSound store sum cfg _ true true now l' (c.sound v);
                })
        ]

  module _ {F : Type 0} (forwarder : Forwarder F) where
    forward_allowed-Continues :
        (g : Gateway) (env : Envelope) (m : Moment) (s : State B F) (answer : String) (l : Log B)
        → Continues answer l s.audit
        → Continues answer l (forward_allowed store sum forwarder g env m s).1.audit
    unfolding forward_allowed acknowledged
    forward_allowed-Continues g env m s answer l c =
        elim (Bool-cases
          (g.has_forwarder && apply_jitter g.cfg.profile.timing_jitter_max m.cancelled)) [
            | inr stays ↦ rw (stays, forward_allowed) c
            | inl sends ↦
                let sent =
                  forwarder.forward (apply_padding env g.cfg.profile.padding_bucket) s.forwarder in
                rw (sends, forward_allowed)
                  (elim (Option-cases sent.0) [
                    | inl failed ↦ rw (failed, acknowledged) c
                    | inr (hash, ok) ↦
                        rw (ok, acknowledged)
                          (audit_finality-Continues g.cfg env m.finality_now answer l s.audit c)
                  ])
          ]

    dispatch-Continues :
        (g : Gateway) (env : Envelope) (m : Moment) (r : Result) (d : Decision) (s : State B F)
        (answer : String) (l : Log B)
        → Continues answer l s.audit
        → Continues answer l (dispatch store sum forwarder g env m r d s).1.audit
    unfolding dispatch
    dispatch-Continues g env m r allow s answer l c = forward_allowed-Continues g env m _ answer l c
    dispatch-Continues g env m r deny s answer l c = c

    process-Continues :
        (g : Gateway) (env : Envelope) (m : Moment) (s : State B F)
        → Continues
            (process store sum forwarder g env m s).0.decision
            s.audit
            (process store sum forwarder g env m s).1.audit
    unfolding process or_same evaluate append_audit append audit_draft append_entry
    process-Continues g env m s =
        let r = decide g.policy (policy_request env) in
        dispatch-Continues g env m r r.decision _ (decision_text r.decision) s.audit (
          append_entry-Continues g.policy.cfg (audit_draft r (policy_request env)) _ false
            m.audit_now s.audit)

    process-root :
        (g : Gateway) (env : Envelope) (m : Moment) (s : State B F)
        → (process store sum forwarder g env m s).0.audit_root_hash
          ≡ (process store sum forwarder g env m s).1.audit.root
    unfolding process
    process-root g env m s = refl

    module _ (sum32 : String → ℕ) where
      -- What the log says of a response: dummy traffic is answered "ALLOW" and logged as dummy.
      abbrev pub logged_decision : Bool → SendResponse → String
      logged_decision dummy r = if dummy then decision_dummy else r.decision

      -- The three ways through `admit`.
      unfoldable pub after_dummy : Gateway → Envelope → Moment → State B F → State B F
      after_dummy g env m s = record s {
        audit = audit_dummy store sum g.cfg env m.audit_now s.audit;
      }

      unfoldable pub after_duplicate : Gateway → Envelope → Moment → State B F → State B F
      unfolding emit_if
      after_duplicate g env m s = record s {
        dedup = (check_duplicate sum32 g.cfg env m.dedup_now s.dedup).1;
        audit = audit_duplicate store sum g.cfg env m.audit_now s.audit;
        events = emit_if g.has_on_duplicate on_duplicate s.events;
      }

      unfoldable pub after_check : Gateway → Envelope → Moment → State B F → State B F
      after_check g env m s = record s {
        dedup = (check_duplicate sum32 g.cfg env m.dedup_now s.dedup).1;
      }

      pub data Admitted (g : Gateway) (env : Envelope) (m : Moment) (s : State B F)
          (r : SendResponse × State B F) : Type 0 where
        as_dummy :
            env.is_dummy ≡ true
            → r ≡ respond store sum forwarder g "ALLOW" "DUMMY_TRAFFIC" (after_dummy g env m s)
            → Admitted g env m s r
        as_duplicate :
            env.is_dummy ≡ false
            → (check_duplicate sum32 g.cfg env m.dedup_now s.dedup).0 ≡ true
            → r
              ≡ respond store sum forwarder g "DUPLICATE" "idempotency_key already processed"
                  (after_duplicate g env m s)
            → Admitted g env m s r
        as_fresh :
            env.is_dummy ≡ false
            → (check_duplicate sum32 g.cfg env m.dedup_now s.dedup).0 ≡ false
            → r ≡ process store sum forwarder g env m (after_check g env m s)
            → Admitted g env m s r

      pub admit-Admitted :
          (g : Gateway) (env : Envelope) (m : Moment) (s : State B F)
          → Admitted g env m s (admit store sum forwarder sum32 g env m s)
      unfolding admit after_dummy after_duplicate after_check
      admit-Admitted g env m s = elim (Bool-cases env.is_dummy) [
        | inl dummy ↦ as_dummy dummy (if_true env.is_dummy _ _ dummy)
        | inr real ↦ elim (Bool-cases (check_duplicate sum32 g.cfg env m.dedup_now s.dedup).0) [
          | inl seen ↦ as_duplicate real seen (if_false env.is_dummy _ _ real ∙ if_true _ _ _ seen)
          | inr fresh ↦ as_fresh real fresh (if_false env.is_dummy _ _ real ∙ if_false _ _ _ fresh)
        ]
      ]

      -- The log and the response after a call.
      abbrev Told : Envelope → State B F → SendResponse × State B F → Type 0
      Told env s r =
          Continues (logged_decision env.is_dummy r.0) s.audit r.1.audit
          × (r.0.audit_root_hash ≡ r.1.audit.root)

      admit-Told :
          (g : Gateway) (env : Envelope) (m : Moment) (s : State B F)
          → Told env s (admit store sum forwarder sum32 g env m s)
      unfolding respond audit_dummy audit_duplicate append after_dummy after_duplicate after_check
      admit-Told g env m s = elim (admit-Admitted g env m s) [
        | as_dummy dummy e ↦
            rw (e, dummy) (append_entry-Continues g.cfg _ _ false m.audit_now s.audit, refl)
        | as_duplicate real seen e ↦
            rw (e, real) (append_entry-Continues g.cfg _ _ false m.audit_now s.audit, refl)
        | as_fresh real fresh e ↦
            rw
              (
                e,
                if_false env.is_dummy decision_dummy
                    (process store sum forwarder g env m (after_check g env m s)).0.decision real,
              )
              (process-Continues g env m _, process-root g env m _)
      ]

      abbrev pub send :
          Gateway
          → Envelope
          → Moment
          → State B F
          → (Option GatewayError × Option SendResponse) × State B F
      send = send_envelope store sum forwarder sum32

      pub send-keyless :
          (g : Gateway) (env : Envelope) (m : Moment) (s : State B F)
          → (env.idempotency_key == "") ≡ true
          → send g env m s ≡ ((some empty_idempotency_key, none), s)
      unfolding send_envelope
      send-keyless g env m s empty = if_true _ _ _ empty

      pub send-keyed :
          (g : Gateway) (env : Envelope) (m : Moment) (s : State B F)
          → (env.idempotency_key == "") ≡ false
          → send g env m s ≡ (
            (none, some (admit store sum forwarder sum32 g (normalized env) m s).0),
            (admit store sum forwarder sum32 g (normalized env) m s).1,
          )
      unfolding send_envelope normalized
      send-keyed g env m s filled = if_false _ _ _ filled

      -- What a call of `SendEnvelope` on a sound log leaves behind.
      pub data Answered (env : Envelope) (s : State B F)
          (r : (Option GatewayError × Option SendResponse) × State B F) : Type 0 where
        refused :
            env.idempotency_key ≡ ""
            → r ≡ ((some empty_idempotency_key, none), s)
            → Answered env s r
        answered :
            (response : SendResponse)
            → env.idempotency_key ≢ ""
            → r.0 ≡ (none, some response)
            → response.audit_root_hash ≡ r.1.audit.root
            → Continues (logged_decision env.is_dummy response) s.audit r.1.audit
            → Answered env s r

      -- A call of `SendEnvelope` without a key is refused and changes nothing. Any other call is
      -- answered: the log continues with new entries, the first one with the decision of the
      -- response ("DUMMY" for dummy traffic), the log is sound if it was, and the response has its
      -- root hash.
      pub send_envelope-Answered :
          (g : Gateway) (env : Envelope) (m : Moment) (s : State B F)
          → Answered env s (send g env m s)
      unfolding normalized
      send_envelope-Answered g env m s =
          let r = admit store sum forwarder sum32 g (normalized env) m s in
          let (logged, root) = admit-Told g (normalized env) m s in
          elim (Bool-cases (env.idempotency_key == "")) [
            | inl empty ↦
                refused (ground (arith, eq_iff env.idempotency_key ""))
                  (send-keyless g env m s empty)
            | inr filled ↦
                rw (send-keyed g env m s filled)
                  (answered r.0 (ground (arith, eq_iff env.idempotency_key "")) refl root logged)
          ]
