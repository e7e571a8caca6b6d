-- ===== src/Policy/Loaded.antt =====
-- internal/config/config.go and internal/policy/engine.go: what `Evaluate` allows for a configuration
-- that `Load` made of a file, in terms of the file.
use mrmi_gateway.Prelude.{
  ℕ, ◌≤◌, ℤ, String, true, false, Option, Option-cases, none, some, List, [], ◌∷◌, ◌≡◌, ◌≢◌, refl,
  ◌⊎◌, ◌↔◌, inl, inr, eq_iff, arith,
}
use mrmi_gateway.Prelude.Text.{codes, codes_eq, to_lower, contains, equal_fold, trim_space}
use mrmi_gateway.Config.{Config, JurisdictionIsolationRule}
use mrmi_gateway.Config.Presets.{default_config_for_profile}
use mrmi_gateway.Config.Validate.{validate, is_blank}
use mrmi_gateway.Config.Toml.{RawToml}
use mrmi_gateway.Config.Toml.Apply.{
  text_or, given_or, some_or, profile_name, apply_node, apply_profile, apply_policy, apply, checked,
  decoded, load,
}
use mrmi_gateway.Crl
use mrmi_gateway.Schema.{normalize, hl7_fhir, edifact}
use mrmi_gateway.Audit.{AuditStore, Payload, Log}
use mrmi_gateway.Policy.{allow, Request, Engine, revoked, has_isolation_rule, evaluate}
use mrmi_gateway.Policy.Isolation.{FirstMatch, RuleAllows}
use mrmi_gateway.Policy.Verdict.{Permitted, evaluate-allow_iff}

-- The settings that a decision depends on.
pub record Settings : Type 0 where
  pub profile : String
  pub scope : String
  pub home : String
  pub min_tier : ℕ
  pub denied : List String
  pub allowed : List String
  pub rules : List JurisdictionIsolationRule

-- A setting is the file's where the file gives one, and the preset's otherwise. A text is given if it
-- is more than spaces, which are cut off at its ends; rules are given if there are any.
pub data Chosen {ℓ} {A : Type ℓ} (given : Option A) (preset : A) (a : A) : Type ℓ where
  from_file : given ≡ some a → Chosen given preset a
  from_preset : given ≡ none → a ≡ preset → Chosen given preset a

pub data ChosenText (given preset text : String) : Type 0 where
  from_file : trim_space given ≢ "" → text ≡ trim_space given → ChosenText given preset text
  from_preset : trim_space given ≡ "" → text ≡ preset → ChosenText given preset text

pub data ChosenRules (given preset rules : List JurisdictionIsolationRule) : Type 0 where
  from_file : given ≢ [] → rules ≡ given → ChosenRules given preset rules
  from_preset : given ≡ [] → rules ≡ preset → ChosenRules given preset rules

-- The settings that a file asks for, over the preset of the profile that it names.
pub record AsksFor (r : RawToml) (x : Settings) : Type 0 where
  pub profile : ChosenText r.profile_name "balanced" x.profile
  pub scope :
      ChosenText r.node.node_scope (default_config_for_profile x.profile).node.node_scope x.scope
  pub home : ChosenText r.node.region (default_config_for_profile x.profile).node.region x.home
  pub min_tier :
      Chosen r.policy.min_trust_tier
        (default_config_for_profile x.profile).policy.inbound.min_trust_tier
        x.min_tier
  pub denied :
      Chosen r.policy.deny_to
        (default_config_for_profile x.profile).policy.outbound.deny_to
        x.denied
  pub allowed :
      Chosen r.policy.allow_to
        (default_config_for_profile x.profile).policy.outbound.allow_to
        x.allowed
  pub rules :
      ChosenRules r.policy.rules
        (default_config_for_profile x.profile).policy.jurisdiction_isolation
        x.rules

-- A request meets an isolation rule under the settings.
pub record Obeys (x : Settings) (req : Request) (q : JurisdictionIsolationRule) : Type 0 where
  pub tier : (q.allow_tiers ≡ []) ⊎ (contains q.allow_tiers x.scope ≡ true)
  pub regions :
      (q.allow_jurisdictions ≡ [])
      ⊎ ((contains q.allow_jurisdictions req.sender_region ≡ true)
          × (contains q.allow_jurisdictions req.recipient_region ≡ true))
  pub profile : (q.require_profile ≡ "") ⊎ (equal_fold x.profile q.require_profile ≡ true)

-- A request is one that the settings allow.
pub record Follows (x : Settings) (crl : Option Crl.Store) (req : Request) : Type 0 where
  pub not_revoked : revoked crl req.sender_node_id ≡ false
  pub trusted : x.min_tier ≤ req.trust_tier
  pub not_denied : contains x.denied req.recipient_region ≡ false
  pub routed :
      ((x.home ≢ "") × (req.recipient_region ≡ x.home))
      ⊎ (x.allowed ≡ [])
      ⊎ (contains x.allowed req.recipient_region ≡ true)
  pub health :
      normalize req.schema_type ≡ hl7_fhir
      → (x.scope ≡ "regional") × (equal_fold x.profile "strict" ≡ true)
  pub logistics :
      normalize req.schema_type ≡ edifact
      → (has_isolation_rule x.rules edifact ≡ true)
        ⊎ (((x.scope ≡ "regional") ⊎ (x.scope ≡ "alliance"))
            × ((codes_eq (to_lower x.profile) (codes "balanced") ≡ true)
                ⊎ (codes_eq (to_lower x.profile) (codes "strict") ≡ true)))
  pub isolated :
      (q : JurisdictionIsolationRule)
      → FirstMatch (normalize req.schema_type) x.rules q
      → Obeys x req q

-- The settings of a configuration.
abbrev settings : Config → Settings
settings cfg = record {
  profile = cfg.profile.name;
  scope = cfg.node.node_scope;
  home = cfg.node.region;
  min_tier = cfg.policy.inbound.min_trust_tier;
  denied = cfg.policy.outbound.deny_to;
  allowed = cfg.policy.outbound.allow_to;
  rules = cfg.policy.jurisdiction_isolation;
}

obeys :
    (cfg : Config) (req : Request) (q : JurisdictionIsolationRule)
    → RuleAllows cfg req q ↔ Obeys (settings cfg) req q
obeys cfg req q = (
  λ h. record { tier = h.tier; regions = h.regions; profile = h.profile },
  λ h. record { tier = h.tier; regions = h.regions; profile = h.profile },
)

Permitted-Follows :
    (e : Engine) (req : Request) → Permitted e req ↔ Follows (settings e.cfg) e.crl_store req
Permitted-Follows e req = (
  λ p. record {
    not_revoked = p.not_revoked;
    trusted = p.trusted;
    not_denied = p.not_denied;
    routed = p.routed;
    health = p.health;
    logistics = p.logistics;
    isolated = λ q m. (obeys e.cfg req q).0 (p.isolated q m);
  },
  λ p. record {
    not_revoked = p.not_revoked;
    trusted = p.trusted;
    not_denied = p.not_denied;
    routed = p.routed;
    health = p.health;
    logistics = p.logistics;
    isolated = λ q m. (obeys e.cfg req q).1 (p.isolated q m);
  },
)

Chosen-given_or {ℓ} :
    {A : Type ℓ} (given : Option A) (preset a : A)
    → Chosen given preset a
    → given_or given preset ≡ a
unfolding given_or
Chosen-given_or none preset a (from_file e) = absurd (cc e)
Chosen-given_or none preset a (from_preset _ e) = cc e
Chosen-given_or (some b) preset a (from_file e) = cc e
Chosen-given_or (some b) preset a (from_preset e _) = absurd (cc e)

ChosenText-text_or :
    (given preset text : String) → ChosenText given preset text → text_or given preset ≡ text
unfolding text_or is_blank
ChosenText-text_or given preset text (from_file full e) =
    ground (arith, eq_iff (trim_space given) "")
ChosenText-text_or given preset text (from_preset empty e) =
    ground (arith, eq_iff (trim_space given) "")

ChosenRules-some_or :
    (given preset rules : List JurisdictionIsolationRule)
    → ChosenRules given preset rules
    → some_or given given preset ≡ rules
unfolding some_or
ChosenRules-some_or [] preset rules (from_file full e) = absurd (full refl)
ChosenRules-some_or [] preset rules (from_preset _ e) = cc e
ChosenRules-some_or (_ ∷ _) preset rules (from_file _ e) = cc e
ChosenRules-some_or (_ ∷ _) preset rules (from_preset e _) = absurd (cc e)

module _ (decimal : ℤ → String) where
  AsksFor-settings :
      (r : RawToml) (x : Settings)
      → AsksFor r x
      → settings (apply decimal r (default_config_for_profile (profile_name r))) ≡ x
  unfolding apply apply_node apply_profile apply_policy profile_name
  AsksFor-settings r x a =
      let named = ChosenText-text_or r.profile_name "balanced" x.profile a.profile in
      rw named (
        cc (
          ChosenText-text_or _ _ _ a.scope,
          ChosenText-text_or _ _ _ a.home,
          Chosen-given_or _ _ _ a.min_tier,
          Chosen-given_or _ _ _ a.denied,
          Chosen-given_or _ _ _ a.allowed,
          ChosenRules-some_or _ _ _ a.rules,
        ))

  checked-some : (c cfg : Config) → checked decimal c ≡ (none, some cfg) → c ≡ cfg
  unfolding checked
  checked-some c cfg e = elim (Option-cases (validate c)) [
    | inl fine ↦ cc (rw (fine, checked) at e)
    | inr (err, broken) ↦ absurd (cc (rw (broken, checked) at e))
  ]

  load-some :
      (r : RawToml) (cfg : Config)
      → load decimal (decoded r) ≡ (none, some cfg)
      → apply decimal r (default_config_for_profile (profile_name r)) ≡ cfg
  unfolding load
  load-some r cfg e =
      checked-some (apply decimal r (default_config_for_profile (profile_name r))) cfg e

  module _ {B : Type 0} (store : AuditStore B) (sum : Payload → String) where
    -- With the configuration that `Load` made of a file, `Evaluate` allows exactly the requests that
    -- follow the settings the file asks for: its own trust tier, regions, lists and rules where it
    -- gives them, and those of the preset of the profile it names where it does not.
    pub load-Follows :
        (r : RawToml) (cfg : Config) (x : Settings) (crl : Option Crl.Store) (req : Request)
        (now : ℤ) (log : Option (Log B))
        → load decimal (decoded r) ≡ (none, some cfg)
        → AsksFor r x
        → ((evaluate store sum (record { cfg = cfg; crl_store = crl }) req now log).0.decision
            ≡ allow)
          ↔ Follows x crl req
    load-Follows r cfg x crl req now log loaded asks =
        let e : Engine = record { cfg = cfg; crl_store = crl } in
        let same : settings cfg ≡ x = rw⁻¹ (load-some r cfg loaded) (AsksFor-settings r x asks) in
        let verdict = evaluate-allow_iff store sum e req now log in
        let spec : Permitted e req ↔ Follows x crl req = rw⁻¹ same (Permitted-Follows e req) in
        (λ h. spec.0 (verdict.0 h), λ h. verdict.1 (spec.1 h))
