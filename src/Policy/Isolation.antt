-- ===== src/Policy/Isolation.antt =====
-- internal/policy/engine.go: `evaluateJurisdictionIsolation` and the rule that decides.
use mrmi_gateway.Prelude.{
  String, true, none, some, ◌≡◌, ◌≢◌, refl, ◌⊎◌, ◌↔◌, List, [], ◌∷◌, arith, ◌==◌, eq_iff, inl, inr,
  Bool-cases,
}
use mrmi_gateway.Prelude.Text.{contains, equal_fold}
use mrmi_gateway.Config.{Config, JurisdictionIsolationRule}
use mrmi_gateway.Schema.{normalize}
use mrmi_gateway.Policy.{
  Request, Result, deny, is_empty, apply_rule, isolate, evaluate_jurisdiction_isolation,
}

pub is_empty_iff : (l : List String) → (is_empty l ≡ true) ↔ (l ≡ [])
unfolding is_empty
is_empty_iff [] = (λ _. refl, λ _. refl)
is_empty_iff (x ∷ l) = (λ h. cc, λ h. cc)

-- `q` is the first of the rules with this schema type.
pub data FirstMatch (s : String)
    : List JurisdictionIsolationRule → JurisdictionIsolationRule → Type 0 where
  here :
      {q : JurisdictionIsolationRule} {rules : List JurisdictionIsolationRule}
      → q.schema_type ≡ s
      → FirstMatch s (q ∷ rules) q
  there :
      {r q : JurisdictionIsolationRule} {rules : List JurisdictionIsolationRule}
      → r.schema_type ≢ s
      → FirstMatch s rules q
      → FirstMatch s (r ∷ rules) q

-- The node's tier, both regions and the node's profile satisfy the rule; an empty list or an empty
-- profile name of the rule asks for nothing.
pub record RuleAllows (cfg : Config) (req : Request) (r : JurisdictionIsolationRule) : Type 0 where
  pub tier : (r.allow_tiers ≡ []) ⊎ (contains r.allow_tiers cfg.node.node_scope ≡ true)
  pub regions :
      (r.allow_jurisdictions ≡ [])
      ⊎ ((contains r.allow_jurisdictions req.sender_region ≡ true)
          × (contains r.allow_jurisdictions req.recipient_region ≡ true))
  pub profile : (r.require_profile ≡ "") ⊎ (equal_fold cfg.profile.name r.require_profile ≡ true)

module _ (cfg : Config) (req : Request) where
  apply_rule_iff :
      (r : JurisdictionIsolationRule) → (apply_rule cfg req r ≡ none) ↔ RuleAllows cfg req r
  unfolding apply_rule
  apply_rule_iff r = ground (
    arith,
    is_empty_iff r.allow_tiers,
    is_empty_iff r.allow_jurisdictions,
    eq_iff r.require_profile "",
  )

  apply_rule-deny :
      (r : JurisdictionIsolationRule) (d : Result)
      → apply_rule cfg req r ≡ some d
      → d.decision ≡ deny
  unfolding apply_rule
  apply_rule-deny r d h = ground arith

  isolate-deny :
      (s : String) (rules : List JurisdictionIsolationRule) (d : Result)
      → isolate cfg req s rules ≡ some d
      → d.decision ≡ deny
  unfolding isolate
  isolate-deny s [] d h = cc
  isolate-deny s (r ∷ rules) d h = ground (arith, apply_rule-deny r d, isolate-deny s rules d)

  pub evaluate_jurisdiction_isolation-deny :
      (d : Result) → evaluate_jurisdiction_isolation cfg req ≡ some d → d.decision ≡ deny
  unfolding evaluate_jurisdiction_isolation
  evaluate_jurisdiction_isolation-deny d h =
      isolate-deny (normalize req.schema_type) cfg.policy.jurisdiction_isolation d h

  first_decides :
      (s : String) (r q : JurisdictionIsolationRule) (rules : List JurisdictionIsolationRule)
      → RuleAllows cfg req r
      → r.schema_type ≡ s
      → FirstMatch s (r ∷ rules) q
      → RuleAllows cfg req q
  first_decides s r q rules ok same (here _) = ok
  first_decides s r q rules ok same (there other _) = absurd (other same)

  later_decides :
      (s : String) (r q : JurisdictionIsolationRule) (rules : List JurisdictionIsolationRule)
      → ((p : JurisdictionIsolationRule) → FirstMatch s rules p → RuleAllows cfg req p)
      → r.schema_type ≢ s
      → FirstMatch s (r ∷ rules) q
      → RuleAllows cfg req q
  later_decides s r q rules all other (here same) = absurd (other same)
  later_decides s r q rules all other (there _ m) = all q m

  isolate_iff :
      (s : String) (rules : List JurisdictionIsolationRule)
      → (isolate cfg req s rules ≡ none)
        ↔ ((q : JurisdictionIsolationRule) → FirstMatch s rules q → RuleAllows cfg req q)
  unfolding isolate
  isolate_iff s [] = (λ h q m. elim m [ ], λ h. refl)
  isolate_iff s (r ∷ rules) = elim (Bool-cases (r.schema_type == s)) [
    | inl e ↦
        let same = (eq_iff r.schema_type s).0 e in
        rw e (
          λ h q m. first_decides s r q rules ((apply_rule_iff r).0 h) same m,
          λ all. (apply_rule_iff r).1 (all r (here same)),
        )
    | inr e ↦
        let other : r.schema_type ≢ s = ground (arith, eq_iff r.schema_type s) in
        rw e (
          λ h q m. later_decides s r q rules ((isolate_iff s rules).0 h) other m,
          λ all. (isolate_iff s rules).1 (λ q m. all q (there other m)),
        )
  ]

  -- The isolation check passes exactly if the first rule for the normalised schema type, where
  -- there is one, allows the envelope; rules behind it are not looked at.
  pub evaluate_jurisdiction_isolation_iff : (evaluate_jurisdiction_isolation cfg req ≡ none) ↔ (
      (q : JurisdictionIsolationRule)
      → FirstMatch (normalize req.schema_type) cfg.policy.jurisdiction_isolation q
      → RuleAllows cfg req q)
  unfolding evaluate_jurisdiction_isolation
  evaluate_jurisdiction_isolation_iff =
      isolate_iff (normalize req.schema_type) cfg.policy.jurisdiction_isolation
