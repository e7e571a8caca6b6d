-- ===== src/Policy.antt =====
-- internal/policy/engine.go: the policy engine. The engine's audit log is shared with the gateway,
-- so it is passed in and returned beside the result (`none` is a nil log); `now` is the time that
-- the log takes.
pub mod Isolation
pub mod Verdict
pub mod Loaded
pub mod Discovery
mod Examples
use mrmi_gateway.Prelude.{
  ℕ, ℤ, ltb, String, Bool, true, false, not, ◌&&◌, ◌||◌, Option, none, some, List, [], ◌∷◌, ◌==◌,
  if◌then◌else◌,
}
use mrmi_gateway.Prelude.Text.{
  codes, codes_eq, to_lower, to_upper, trim_space, equal_fold, contains,
}
use mrmi_gateway.Config.{Config, JurisdictionIsolationRule}
use mrmi_gateway.Config.Validate.{ConfigError, validate}
use mrmi_gateway.Schema.{normalize, hl7_fhir, edifact}
use mrmi_gateway.Audit.{AuditStore, Payload, Draft, Log, append}
use mrmi_gateway.Crl
use mrmi_gateway.Crl.{is_revoked}

pub data Decision : Type 0 where
  allow deny : Decision

pub record Result : Type 0 where
  pub decision : Decision
  pub reason : String
  pub profile : String

pub record Request : Type 0 where
  pub sender_node_id : String
  pub sender_region : String
  pub recipient_region : String
  pub trust_tier : ℕ
  pub schema_type : String
  pub schema_version : String

pub record DiscoveryRequest : Type 0 where
  pub origin_app_id : String
  pub node_app_id : String

pub record Engine : Type 0 where
  pub cfg : Config
  pub crl_store : Option Crl.Store

-- string(result.Decision)
abbrev pub decision_text : Decision → String
decision_text allow = "ALLOW"
decision_text deny = "DENY"

abbrev pub denied : Config → String → Result
denied cfg reason = record { decision = deny; reason = reason; profile = cfg.profile.name }

abbrev pub allowed : Config → String → Result
allowed cfg reason = record { decision = allow; reason = reason; profile = cfg.profile.name }

unfoldable pub is_empty : List String → Bool
is_empty [] = true
is_empty (_ ∷ _) = false

-- hasIsolationRule, on the rules
unfoldable pub has_isolation_rule : List JurisdictionIsolationRule → String → Bool
has_isolation_rule [] schema_type = false
has_isolation_rule (rule ∷ rules) schema_type =
    rule.schema_type == schema_type || has_isolation_rule rules schema_type

-- Engine.enforceHl7FhirPolicy: the denial, or none.
unfoldable pub enforce_hl7_fhir_policy : Config → Option Result
enforce_hl7_fhir_policy cfg =
    if not (cfg.node.node_scope == "regional")
    then some (denied cfg "HL7FHIR_NON_REGIONAL_NODE")
    else if not (equal_fold cfg.profile.name "strict")
    then some (denied cfg "HL7FHIR_REQUIRES_STRICT_PROFILE")
    else none

-- Engine.enforceEdifactDefaults: the denial, or none.
unfoldable pub enforce_edifact_defaults : Config → Option Result
enforce_edifact_defaults cfg =
    if not (cfg.node.node_scope == "regional") && not (cfg.node.node_scope == "alliance")
    then some (denied cfg "EDIFACT_NODE_TIER_DENIED")
    else if not (codes_eq (to_lower cfg.profile.name) (codes "balanced"))
        && not (codes_eq (to_lower cfg.profile.name) (codes "strict"))
    then some (denied cfg "EDIFACT_REQUIRES_BALANCED_PROFILE")
    else none

-- The body of the loop of `evaluateJurisdictionIsolation`, for a rule that matches.
unfoldable pub apply_rule : Config → Request → JurisdictionIsolationRule → Option Result
unfolding is_empty
apply_rule cfg req rule =
    if not (is_empty rule.allow_tiers) && not (contains rule.allow_tiers cfg.node.node_scope)
    then some (denied cfg "JURISDICTION_ISOLATION_TIER_DENIED")
    else if not (is_empty rule.allow_jurisdictions)
        && (not (contains rule.allow_jurisdictions req.sender_region)
            || not (contains rule.allow_jurisdictions req.recipient_region))
    then some (denied cfg "JURISDICTION_ISOLATION_REGION_DENIED")
    else if not (rule.require_profile == "")
        && not (equal_fold cfg.profile.name rule.require_profile)
    then some (denied cfg "JURISDICTION_ISOLATION_PROFILE_MISMATCH")
    else none

-- The loop: rules for other schema types are skipped, and the first match decides.
unfoldable pub isolate : Config → Request → String → List JurisdictionIsolationRule → Option Result
unfolding apply_rule
isolate cfg req schema_type [] = none
isolate cfg req schema_type (rule ∷ rules) =
    let rest = isolate cfg req schema_type rules in
    if not (rule.schema_type == schema_type) then rest else apply_rule cfg req rule

-- Engine.evaluateJurisdictionIsolation: the denial, or none.
unfoldable pub evaluate_jurisdiction_isolation : Config → Request → Option Result
evaluate_jurisdiction_isolation cfg req =
    isolate cfg req (normalize req.schema_type) cfg.policy.jurisdiction_isolation

unfoldable pub revoked : Option Crl.Store → String → Bool
revoked none node_id = false
revoked (some s) node_id = is_revoked node_id s

-- allow_to does not bind an envelope that is at its destination.
unfoldable pub is_local : Config → Request → Bool
is_local cfg req = not (cfg.node.region == "") && req.recipient_region == cfg.node.region

unfoldable pub else_deny : Option Result → Result → Result
else_deny none r = r
else_deny (some d) r = d

-- The guards of `Evaluate` in their order; each returns its result.
unfoldable pub decide : Engine → Request → Result
decide e req =
    if revoked e.crl_store req.sender_node_id
    then denied e.cfg "NODE_REVOKED"
    else if ltb req.trust_tier e.cfg.policy.inbound.min_trust_tier
    then denied e.cfg "TRUST_TIER_BELOW_MINIMUM"
    else if contains e.cfg.policy.outbound.deny_to req.recipient_region
    then denied e.cfg "RECIPIENT_REGION_DENIED"
    else if not (is_local e.cfg req)
        && not (is_empty e.cfg.policy.outbound.allow_to)
        && not (contains e.cfg.policy.outbound.allow_to req.recipient_region)
    then denied e.cfg "RECIPIENT_REGION_NOT_IN_ALLOW_LIST"
    else else_deny
        (if normalize req.schema_type == hl7_fhir then enforce_hl7_fhir_policy e.cfg else none)
        (else_deny
          (if normalize req.schema_type == edifact
              && not (has_isolation_rule e.cfg.policy.jurisdiction_isolation edifact)
            then enforce_edifact_defaults e.cfg
            else none)
          (else_deny (evaluate_jurisdiction_isolation e.cfg req) (allowed e.cfg "POLICY_ACCEPTED")))

-- What `appendAudit` passes to the log.
unfoldable pub audit_draft : Result → Request → Draft
audit_draft r req = record {
  decision = decision_text r.decision;
  reason = r.reason;
  trust_tier = req.trust_tier;
  sender_region = req.sender_region;
  recipient_region = req.recipient_region;
  schema_type = req.schema_type;
  schema_version = req.schema_version;
}

module _ {B : Type 0} (store : AuditStore B) (sum : Payload → String) where
  -- Engine.appendAudit
  unfoldable pub append_audit : Config → Result → Request → ℤ → Option (Log B) → Option (Log B)
  append_audit cfg r req now none = none
  append_audit cfg r req now (some l) = some (append store sum cfg (audit_draft r req) now l).1

  -- Engine.Evaluate: every return is preceded by `appendAudit` of what it returns.
  unfoldable pub evaluate : Engine → Request → ℤ → Option (Log B) → Result × Option (Log B)
  evaluate e req now log = let r = decide e req in (r, append_audit e.cfg r req now log)

refuse_or : Option ConfigError → Engine → Option ConfigError × Option Engine
refuse_or none e = (none, some e)
refuse_or (some err) e = (some err, none)

-- NewEngine
unfoldable pub new_engine : Config → Option Crl.Store → Option ConfigError × Option Engine
unfolding refuse_or
new_engine cfg crl_store = refuse_or (validate cfg) (record { cfg = cfg; crl_store = crl_store })

keep_or_reload : Option ConfigError → Config → Engine → Option ConfigError × Engine
keep_or_reload none cfg e = (none, record e { cfg = cfg })
keep_or_reload (some err) cfg e = (some err, e)

-- Engine.Reload: an invalid configuration leaves the old one in place.
unfoldable pub reload : Config → Engine → Option ConfigError × Engine
unfolding keep_or_reload
reload cfg e = keep_or_reload (validate cfg) cfg e

isolation_mode : Config → List ℕ
isolation_mode cfg =
    if trim_space cfg.policy.discovery.app_isolation == ""
    then codes "SAME_APP_ONLY"
    else to_upper (trim_space cfg.policy.discovery.app_isolation)

-- Engine.EvaluateDiscovery
unfoldable pub evaluate_discovery : Engine → DiscoveryRequest → Result
unfolding isolation_mode
evaluate_discovery e req =
    let mode = isolation_mode e.cfg in
    let ok =
      (if codes_eq mode (codes "OPEN")
        then true
        else if codes_eq mode (codes "WHITELIST")
        then contains e.cfg.policy.discovery.allowed_app_ids req.origin_app_id
        else equal_fold req.origin_app_id req.node_app_id) in
    if not ok
    then denied e.cfg "APP_ISOLATION_VIOLATION"
    else allowed e.cfg "DISCOVERY_POLICY_ACCEPTED"
