-- ===== src/Policy/Verdict.antt =====
-- internal/policy/engine.go: `Evaluate`, against a specification without the order of its guards.
use mrmi_gateway.Prelude.{
  if◌then◌else◌, not, ◌&&◌, ◌≤◌, ℤ, String, Bool, true, false, none, some, Option, ◌≡◌, ◌≢◌, refl,
  ◌⊎◌, ◌↔◌, [], ◌∷◌, ◌++◌, arith, ◌==◌, eq_iff,
}
use mrmi_gateway.Prelude.Text.{codes, codes_eq, to_lower, contains, equal_fold}
use mrmi_gateway.Config.{Config, JurisdictionIsolationRule}
use mrmi_gateway.Schema.{normalize, hl7_fhir, edifact}
use mrmi_gateway.Audit.{AuditStore, Payload, Entry, Log, append, append_entry, draft_payload}
use mrmi_gateway.Policy.{
  allow, deny, Result, Request, Engine, decision_text, allowed, revoked, is_local, is_empty,
  has_isolation_rule, enforce_hl7_fhir_policy, enforce_edifact_defaults,
  evaluate_jurisdiction_isolation, else_deny, decide, append_audit, audit_draft, evaluate,
}
use mrmi_gateway.Policy.Isolation.{
  is_empty_iff, evaluate_jurisdiction_isolation-deny, FirstMatch, RuleAllows,
  evaluate_jurisdiction_isolation_iff,
}

-- Health data stays on regional nodes with the strict profile.
abbrev pub HealthAllowed : Config → Type 0
HealthAllowed cfg =
    (cfg.node.node_scope ≡ "regional") × (equal_fold cfg.profile.name "strict" ≡ true)

-- The defaults for logistics: no global node, and at least the balanced profile.
abbrev pub LogisticsAllowed : Config → Type 0
LogisticsAllowed cfg =
    ((cfg.node.node_scope ≡ "regional") ⊎ (cfg.node.node_scope ≡ "alliance"))
    × ((codes_eq (to_lower cfg.profile.name) (codes "balanced") ≡ true)
        ⊎ (codes_eq (to_lower cfg.profile.name) (codes "strict") ≡ true))

pub record Permitted (e : Engine) (req : Request) : Type 0 where
  pub not_revoked : revoked e.crl_store req.sender_node_id ≡ false
  pub trusted : e.cfg.policy.inbound.min_trust_tier ≤ req.trust_tier
  pub not_denied : contains e.cfg.policy.outbound.deny_to req.recipient_region ≡ false
  pub routed :
      ((e.cfg.node.region ≢ "") × (req.recipient_region ≡ e.cfg.node.region))
      ⊎ (e.cfg.policy.outbound.allow_to ≡ [])
      ⊎ (contains e.cfg.policy.outbound.allow_to req.recipient_region ≡ true)
  pub health : normalize req.schema_type ≡ hl7_fhir → HealthAllowed e.cfg
  pub logistics :
      normalize req.schema_type ≡ edifact
      → (has_isolation_rule e.cfg.policy.jurisdiction_isolation edifact ≡ true)
        ⊎ LogisticsAllowed e.cfg
  pub isolated :
      (q : JurisdictionIsolationRule)
      → FirstMatch (normalize req.schema_type) e.cfg.policy.jurisdiction_isolation q
      → RuleAllows e.cfg req q

enforce_hl7_fhir_policy_iff :
    (cfg : Config) → (enforce_hl7_fhir_policy cfg ≡ none) ↔ HealthAllowed cfg
unfolding enforce_hl7_fhir_policy
enforce_hl7_fhir_policy_iff cfg = ground (arith, eq_iff cfg.node.node_scope "regional")

enforce_edifact_defaults_iff :
    (cfg : Config) → (enforce_edifact_defaults cfg ≡ none) ↔ LogisticsAllowed cfg
unfolding enforce_edifact_defaults
enforce_edifact_defaults_iff cfg =
    ground (arith, eq_iff cfg.node.node_scope "regional", eq_iff cfg.node.node_scope "alliance")

-- Every denial of the three schema checks is a denial.
hl7-deny : (cfg : Config) (r : Result) → enforce_hl7_fhir_policy cfg ≡ some r → r.decision ≡ deny
unfolding enforce_hl7_fhir_policy
hl7-deny cfg r h = ground arith

edifact-deny :
    (cfg : Config) (r : Result) → enforce_edifact_defaults cfg ≡ some r → r.decision ≡ deny
unfolding enforce_edifact_defaults
edifact-deny cfg r h = ground arith

-- The checks as `decide` makes them.
record Passed (e : Engine) (req : Request) : Type 0 where
  not_revoked : revoked e.crl_store req.sender_node_id ≡ false
  trusted : e.cfg.policy.inbound.min_trust_tier ≤ req.trust_tier
  not_denied : contains e.cfg.policy.outbound.deny_to req.recipient_region ≡ false
  routed :
      (is_local e.cfg req ≡ true)
      ⊎ (is_empty e.cfg.policy.outbound.allow_to ≡ true)
      ⊎ (contains e.cfg.policy.outbound.allow_to req.recipient_region ≡ true)
  health : (normalize req.schema_type == hl7_fhir) ≡ true → enforce_hl7_fhir_policy e.cfg ≡ none
  logistics :
      (normalize req.schema_type == edifact) ≡ true
      → has_isolation_rule e.cfg.policy.jurisdiction_isolation edifact ≡ false
      → enforce_edifact_defaults e.cfg ≡ none
  isolated : evaluate_jurisdiction_isolation e.cfg req ≡ none

module _ (e : Engine) (req : Request) where
  -- `else_deny`, where the denial denies.
  else_deny-allow :
      (o : Option Result) (r : Result)
      → ((d : Result) → o ≡ some d → d.decision ≡ deny)
      → ((else_deny o r).decision ≡ allow) ↔ ((o ≡ none) × (r.decision ≡ allow))
  unfolding else_deny
  else_deny-allow none r h = ground arith
  else_deny-allow (some d) r h = ground (arith, h d refl)

  if-deny :
      (b : Bool) (o : Option Result)
      → ((d : Result) → o ≡ some d → d.decision ≡ deny)
      → (d : Result) → (if b then o else none) ≡ some d
      → d.decision ≡ deny
  if-deny true o h d k = h d k
  if-deny false o h d k = cc

  decide-Passed : ((decide e req).decision ≡ allow) ↔ Passed e req
  unfolding decide
  decide-Passed =
      let isolation = evaluate_jurisdiction_isolation e.cfg req in
      let accepted = allowed e.cfg "POLICY_ACCEPTED" in
      let is_edifact =
        normalize req.schema_type == edifact
        && not (has_isolation_rule e.cfg.policy.jurisdiction_isolation edifact) in
      let logistics = if is_edifact then enforce_edifact_defaults e.cfg else none in
      let is_health = normalize req.schema_type == hl7_fhir in
      let health = if is_health then enforce_hl7_fhir_policy e.cfg else none in
      ground (
        arith,
        else_deny-allow health (else_deny logistics (else_deny isolation accepted))
            (if-deny is_health (enforce_hl7_fhir_policy e.cfg) (hl7-deny e.cfg)),
        else_deny-allow logistics (else_deny isolation accepted)
            (if-deny is_edifact (enforce_edifact_defaults e.cfg) (edifact-deny e.cfg)),
        else_deny-allow isolation accepted (evaluate_jurisdiction_isolation-deny e.cfg req),
      )

  routed_iff :
      ((is_local e.cfg req ≡ true)
        ⊎ (is_empty e.cfg.policy.outbound.allow_to ≡ true)
        ⊎ (contains e.cfg.policy.outbound.allow_to req.recipient_region ≡ true))
      ↔ (((e.cfg.node.region ≢ "") × (req.recipient_region ≡ e.cfg.node.region))
          ⊎ (e.cfg.policy.outbound.allow_to ≡ [])
          ⊎ (contains e.cfg.policy.outbound.allow_to req.recipient_region ≡ true))
  unfolding is_local
  routed_iff = ground (
    arith,
    is_empty_iff e.cfg.policy.outbound.allow_to,
    eq_iff e.cfg.node.region "",
    eq_iff req.recipient_region e.cfg.node.region,
  )

  Passed-Permitted : Passed e req → Permitted e req
  Passed-Permitted p = record {
    not_revoked = p.not_revoked;
    trusted = p.trusted;
    not_denied = p.not_denied;
    routed = routed_iff.0 p.routed;
    health = λ h. (enforce_hl7_fhir_policy_iff e.cfg).0 (p.health ((eq_iff _ _).1 h));
    logistics =
        λ h. ground (arith, p.logistics ((eq_iff _ _).1 h), enforce_edifact_defaults_iff e.cfg);
    isolated = (evaluate_jurisdiction_isolation_iff e.cfg req).0 p.isolated;
  }

  Permitted-Passed : Permitted e req → Passed e req
  Permitted-Passed p = record {
    not_revoked = p.not_revoked;
    trusted = p.trusted;
    not_denied = p.not_denied;
    routed = routed_iff.1 p.routed;
    health = λ h. (enforce_hl7_fhir_policy_iff e.cfg).1 (p.health ((eq_iff _ _).0 h));
    logistics =
        λ h k. ground (arith, p.logistics ((eq_iff _ _).0 h), enforce_edifact_defaults_iff e.cfg);
    isolated = (evaluate_jurisdiction_isolation_iff e.cfg req).1 p.isolated;
  }

module _ {B : Type 0} (store : AuditStore B) (sum : Payload → String) where
  -- `Evaluate` allows exactly the requests from a sender that is not revoked, with enough trust,
  -- to a region that is not denied and is local or allowed, where health data meets a regional
  -- node with the strict profile, logistics data has a rule of the operator or meets the defaults,
  -- and the first isolation rule for the schema type, if any, allows the request.
  pub evaluate-allow_iff :
      (e : Engine) (req : Request) (now : ℤ) (log : Option (Log B))
      → ((evaluate store sum e req now log).0.decision ≡ allow) ↔ Permitted e req
  unfolding evaluate
  evaluate-allow_iff e req now log = (
    λ h. Passed-Permitted e req ((decide-Passed e req).0 h),
    λ p. (decide-Passed e req).1 (Permitted-Passed e req p),
  )

  -- With a log, every evaluation appends one entry at the end and leaves the others: the entry has
  -- the decision and the reason that the caller gets, the request's tier, regions and schema, and
  -- the engine's profile.
  evaluate-audits :
      (e : Engine) (req : Request) (now : ℤ) (l : Log B)
      → (entry : Entry) × (l' : Log B) × ((evaluate store sum e req now (some l)).1 ≡ some l')
        × (l'.entries ≡ l.entries ++ entry ∷ [])
        × (entry.decision ≡ decision_text (evaluate store sum e req now (some l)).0.decision)
        × (entry.reason ≡ (evaluate store sum e req now (some l)).0.reason)
        × (entry.profile ≡ e.cfg.profile.name)
        × (entry.trust_tier ≡ req.trust_tier)
        × (entry.sender_region ≡ req.sender_region)
        × (entry.recipient_region ≡ req.recipient_region)
        × (entry.schema_type ≡ req.schema_type)
  unfolding evaluate append_audit audit_draft append append_entry draft_payload
  evaluate-audits e req now l =
      let (entry, l') = append store sum e.cfg (audit_draft (decide e req) req) now l in
      (entry, l', refl, refl, refl, refl, refl, refl, refl, refl, refl)
