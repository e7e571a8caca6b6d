-- ===== src/Gateway/Resend.antt =====
-- Keys that come again: the dedup step of internal/core/gateway.go over the index of
-- internal/dedup/index.go, across any calls in between.
use mrmi_gateway.Prelude.{
  ℕ, ℤ, ◌+ℤ◌, String, Bool, Bool-cases, true, false, ◌≡◌, ◌≢◌, refl, ap, sym, ◌∙◌, ◌⊎◌, inl, inr,
  Option, none, some, List, [], ◌∷◌, ◌++◌, ◌==◌, eq_iff, arith, if◌then◌else◌, if_true, if_false,
}
use mrmi_gateway.Prelude.Int.{◌<ℤ◌}
use mrmi_gateway.Config.{Config}
use mrmi_gateway.Envelope.{Envelope}
use mrmi_gateway.Schema.{iso20022}
use mrmi_gateway.Dedup.{Index, seen_or_add_with_ttl}
use mrmi_gateway.Dedup.Laws.{IsValid, seen_or_add-eq}
use mrmi_gateway.Dedup.Window
use mrmi_gateway.Dedup.Window.{
  Call, add_with_ttl, AllBefore, seen-later, run-IsValid, run-append, AllBefore-append,
}
use mrmi_gateway.Audit.{AuditStore, Payload}
use mrmi_gateway.Policy.{Result, Decision, allow, deny}
use mrmi_gateway.Gateway.{
  Gateway, Forwarder, State, Moment, SendResponse, GatewayError, iso_dedup_ttl, check_duplicate,
  acknowledged, forward_allowed, dispatch, process, respond,
}
use mrmi_gateway.Gateway.Gate.{goes_out}
use mrmi_gateway.Gateway.Trail.{
  as_dummy, as_duplicate, as_fresh, admit-Admitted, after_dummy, after_duplicate, after_check,
  normalized, send, send-keyless, send-keyed,
}

-- For how long the key of an envelope is held.
unfoldable pub window : Config → Envelope → Index → ℤ
window cfg env idx =
    if env.schema_type == iso20022
    then iso_dedup_ttl cfg.schema_registry.iso20022.dedup_ttl_h
    else idx.ttl

module _ (sum32 : String → ℕ) where
  check_duplicate-eq :
      (cfg : Config) (env : Envelope) (now : ℤ) (idx : Index)
      → check_duplicate sum32 cfg env now idx
        ≡ seen_or_add_with_ttl sum32 env.idempotency_key (window cfg env idx) now idx
  unfolding check_duplicate window
  check_duplicate-eq cfg env now idx = elim (Bool-cases (env.schema_type == iso20022)) [
    | inl iso ↦
        if_true _ _ _ iso
        ∙ ap (λ t. seen_or_add_with_ttl sum32 env.idempotency_key t now idx)
            (sym (if_true _ _ _ iso))
    | inr other ↦
        if_false _ _ _ other
        ∙ seen_or_add-eq sum32 env.idempotency_key now idx
        ∙ ap (λ t. seen_or_add_with_ttl sum32 env.idempotency_key t now idx)
            (sym (if_false _ _ _ other))
  ]

module _ {B F : Type 0} (store : AuditStore B) (sum : Payload → String)
    (forwarder : Forwarder F) where
  acknowledged-dedup :
      (g : Gateway) (env : Envelope) (m : Moment) (hash : Option String) (s : State B F)
      → (acknowledged store sum forwarder g env m hash s).1.dedup ≡ s.dedup
  unfolding acknowledged
  acknowledged-dedup g env m none s = refl
  acknowledged-dedup g env m (some hash) s = refl

  forward_allowed-dedup :
      (g : Gateway) (env : Envelope) (m : Moment) (s : State B F)
      → (forward_allowed store sum forwarder g env m s).1.dedup ≡ s.dedup
  unfolding forward_allowed goes_out
  forward_allowed-dedup g env m s = elim (Bool-cases (goes_out store sum forwarder g m)) [
    | inl out ↦
        ap (λ (r : Option String × State B F). r.1.dedup) (if_true _ _ _ out)
        ∙ acknowledged-dedup g env m _ _
    | inr stays ↦ ap (λ (r : Option String × State B F). r.1.dedup) (if_false _ _ _ stays)
  ]

  dispatch-dedup :
      (g : Gateway) (env : Envelope) (m : Moment) (r : Result) (d : Decision) (s : State B F)
      → (dispatch store sum forwarder g env m r d s).1.dedup ≡ s.dedup
  unfolding dispatch
  dispatch-dedup g env m r allow s = forward_allowed-dedup g env m _
  dispatch-dedup g env m r deny s = refl

  process-dedup :
      (g : Gateway) (env : Envelope) (m : Moment) (s : State B F)
      → (process store sum forwarder g env m s).1.dedup ≡ s.dedup
  unfolding process
  process-dedup g env m s = dispatch-dedup g env m _ _ _

  module _ (sum32 : String → ℕ) where
    -- A call that asks the index whether the key is a duplicate.
    pub check-dedup :
        (g : Gateway) (env : Envelope) (m : Moment) (s : State B F)
        → env.idempotency_key ≢ ""
        → env.is_dummy ≡ false
        → (send store sum forwarder sum32 g env m s).1.dedup
          ≡ (check_duplicate sum32 g.cfg (normalized env) m.dedup_now s.dedup).1
    unfolding respond normalized after_duplicate after_check
    check-dedup g env m s keyed real =
        elim (admit-Admitted store sum forwarder sum32 g (normalized env) m s) [
          | as_dummy dummy e ↦ absurd (cc (dummy, real))
          | as_duplicate r seen e ↦
              rw
                (
                  send-keyed store sum forwarder sum32 g env m s
                      (ground (arith, eq_iff env.idempotency_key "")),
                  e,
                )
                refl
          | as_fresh r fresh e ↦
              rw
                (
                  send-keyed store sum forwarder sum32 g env m s
                      (ground (arith, eq_iff env.idempotency_key "")),
                  e,
                )
                (process-dedup g (normalized env) m _)
        ]

    -- A call that does not.
    skip-dedup :
        (g : Gateway) (env : Envelope) (m : Moment) (s : State B F)
        → (env.idempotency_key ≡ "") ⊎ (env.is_dummy ≡ true)
        → (send store sum forwarder sum32 g env m s).1.dedup ≡ s.dedup
    unfolding respond normalized after_dummy
    skip-dedup g env m s skips = elim (Bool-cases (env.idempotency_key == "")) [
      | inl empty ↦ rw (send-keyless store sum forwarder sum32 g env m s empty) refl
      | inr filled ↦ elim (admit-Admitted store sum forwarder sum32 g (normalized env) m s) [
        | as_dummy dummy e ↦ rw (send-keyed store sum forwarder sum32 g env m s filled, e) refl
        | as_duplicate r seen e ↦ absurd (ground (arith, eq_iff env.idempotency_key ""))
        | as_fresh r fresh e ↦ absurd (ground (arith, eq_iff env.idempotency_key ""))
      ]
    ]

    -- A call either leaves the index alone or makes one call of it, at its own time.
    send-dedup :
        (g : Gateway) (env : Envelope) (m : Moment) (s : State B F) (t : ℤ)
        → m.dedup_now <ℤ t
        → (cs : List Call) × ((send store sum forwarder sum32 g env m s).1.dedup
            ≡ Window.run sum32 cs s.dedup)
          × AllBefore t cs
    unfolding Window.run Window.step normalized
    send-dedup g env m s t before = elim (Bool-cases (env.idempotency_key == "")) [
      | inl empty ↦
          ([], skip-dedup g env m s (inl (ground (arith, eq_iff env.idempotency_key ""))), tt)
      | inr filled ↦ elim (Bool-cases env.is_dummy) [
        | inl dummy ↦ ([], skip-dedup g env m s (inr dummy), tt)
        | inr real ↦ (
          add_with_ttl env.idempotency_key (window g.cfg (normalized env) s.dedup) m.dedup_now ∷ [],
          check-dedup g env m s (ground (arith, eq_iff env.idempotency_key "")) real
              ∙ ap (λ (r : Bool × Index). r.1)
                  (check_duplicate-eq sum32 g.cfg (normalized env) m.dedup_now s.dedup),
          (before, tt),
        )
      ]
    ]

    -- Calls of `SendEnvelope`, each begun when the one before it has ended. The code holds no lock
    -- across a call, so calls may also overlap, which is not modelled here.
    unfoldable pub run : Gateway → List (Envelope × Moment) → State B F → State B F
    run g [] s = s
    run g ((env, m) ∷ sends) s = run g sends (send store sum forwarder sum32 g env m s).1

    abbrev pub SentBefore : ℤ → List (Envelope × Moment) → Type 0
    SentBefore t [] = Unit
    SentBefore t ((env, m) ∷ sends) = (m.dedup_now <ℤ t) × SentBefore t sends

    run-dedup :
        (g : Gateway) (sends : List (Envelope × Moment)) (s : State B F) (t : ℤ)
        → SentBefore t sends
        → (cs : List Call) × ((run g sends s).dedup ≡ Window.run sum32 cs s.dedup) × AllBefore t cs
    unfolding run Window.run
    run-dedup g [] s t before = ([], refl, tt)
    run-dedup g ((env, m) ∷ sends) s t before =
        let (cs, e, b) = send-dedup g env m s t before.0 in
        let (cs', e', b') =
          run-dedup g sends (send store sum forwarder sum32 g env m s).1 t before.1 in
        (
          cs ++ cs',
          e' ∙ ap (Window.run sum32 cs') e ∙ sym (run-append sum32 cs cs' s.dedup),
          AllBefore-append t cs cs' b b',
        )

    -- An envelope that the index took for new, any calls before its key expires, and then a second
    -- envelope with the same key, also before that: the second one is answered "DUPLICATE", and
    -- the forwarder is not called for it.
    pub resend-duplicate :
        (g : Gateway) (env again : Envelope) (m m' : Moment) (sends : List (Envelope × Moment))
        (s : State B F)
        → IsValid s.dedup
        → env.idempotency_key ≢ ""
        → env.is_dummy ≡ false
        → (check_duplicate sum32 g.cfg (normalized env) m.dedup_now s.dedup).0 ≡ false
        → SentBefore (m.dedup_now +ℤ window g.cfg (normalized env) s.dedup) sends
        → again.idempotency_key ≡ env.idempotency_key
        → again.is_dummy ≡ false
        → m'.dedup_now <ℤ (m.dedup_now +ℤ window g.cfg (normalized env) s.dedup)
        → (response : SendResponse) × (s' : State B F) × (send store sum forwarder sum32 g again m'
              (run g sends (send store sum forwarder sum32 g env m s).1)
            ≡ ((none, some response), s'))
          × (response.decision ≡ "DUPLICATE")
          × (s'.forwarder ≡ (run g sends (send store sum forwarder sum32 g env m s).1).forwarder)
    unfolding respond normalized after_duplicate
    resend-duplicate g env again m m' sends s valid keyed real fresh before same real' soon =
        let ttl = window g.cfg (normalized env) s.dedup in
        let first = send store sum forwarder sum32 g env m s in
        let held = run g sends first.1 in
        let asked = check_duplicate-eq sum32 g.cfg (normalized env) m.dedup_now s.dedup in
        let taken : first.1.dedup
            ≡ (seen_or_add_with_ttl sum32 env.idempotency_key ttl m.dedup_now s.dedup).1 =
          check-dedup g env m s keyed real ∙ ap (λ (r : Bool × Index). r.1) asked in
        let (cs, reached, calls) = run-dedup g sends first.1 (m.dedup_now +ℤ ttl) before in
        let there : held.dedup
            ≡ Window.run sum32 cs
                (seen_or_add_with_ttl sum32 env.idempotency_key ttl m.dedup_now s.dedup).1 =
          reached ∙ ap (Window.run sum32 cs) taken in
        let seen : (check_duplicate sum32 g.cfg (normalized again) m'.dedup_now held.dedup).0
            ≡ true =
          ap (λ (r : Bool × Index). r.0)
            (check_duplicate-eq sum32 g.cfg (normalized again) m'.dedup_now held.dedup)
          ∙ seen-later sum32 env.idempotency_key again.idempotency_key ttl m.dedup_now m'.dedup_now
              (window g.cfg (normalized again) held.dedup) s.dedup held.dedup cs same there valid
              (sym (ap (λ (r : Bool × Index). r.0) asked) ∙ fresh) calls soon in
        let filled : (again.idempotency_key == "") ≡ false =
          rw same (ground (arith, eq_iff env.idempotency_key "")) in
        let answer : SendResponse × State B F
            → (Option GatewayError × Option SendResponse) × State B F =
          λ r. ((none, some r.0), r.1) in
        elim (admit-Admitted store sum forwarder sum32 g (normalized again) m' held) [
          | as_dummy dummy e ↦ absurd (cc (dummy, real'))
          | as_duplicate r s e ↦ (
            _,
            _,
            send-keyed store sum forwarder sum32 g again m' held filled ∙ ap answer e,
            refl,
            refl,
          )
          | as_fresh r unseen e ↦ absurd (cc (seen, unseen))
        ]
