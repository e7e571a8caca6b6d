-- ===== src/Config/Validate/Laws.antt =====
-- internal/config/config.go: `Validate`, against a specification without the order of its checks.
use text.Mathlib.Text.{starts_with}
use mrmi_gateway.Prelude.{
  pos, String, true, false, ◌≡◌, ◌≢◌, refl, ◌⊎◌, ◌↔◌, inl, inr, none, List, [], ◌∷◌, arith, ◌==◌,
  eq_iff, Bool-cases, All,
}
use mrmi_gateway.Prelude.Int.{◌<ℤ◌}
use mrmi_gateway.Prelude.Map.{Map}
use mrmi_gateway.Config.{Config, NodeConfig, PeerConfig, AdapterConfig, JurisdictionIsolationRule}
use mrmi_gateway.Config.Presets.{default_config_for_profile}
use mrmi_gateway.Config.Validate.{
  is_blank, is_empty, is_tier, check_required, check_scope, check_allow_via, check_peer,
  check_peers, is_valid_schema_type, check_adapters, check_rule_tiers, check_rules, validate,
}

abbrev pub IsTier : String → Type 0
IsTier s = (s ≡ "regional") ⊎ (s ≡ "alliance") ⊎ (s ≡ "global")

abbrev pub IsText : String → Type 0
IsText s = is_blank s ≡ false

pub record HasRequired (c : Config) : Type 0 where
  pub node_id : IsText c.node.node_id
  pub node_scope : IsTier c.node.node_scope
  pub operator_id : IsText c.node.operator_id
  pub policy_version : IsText c.node.policy_version
  pub applicable_law : IsText c.node.applicable_law
  pub signed_by : starts_with c.node.signed_by "ed25519:" ≡ true
  pub profile_name : IsText c.profile.name
  pub dedup_ttl : pos 0 <ℤ c.profile.dedup_ttl
  pub http : IsText c.network.http_listen_addr
  pub grpc : IsText c.network.grpc_listen_addr

-- Regional and global nodes have a region; alliance nodes have regions and an agreement.
abbrev pub IsLocated : NodeConfig → Type 0
IsLocated n =
    ((n.node_scope ≡ "alliance") × (n.regions ≢ []) × IsText n.alliance_id)
    ⊎ ((n.node_scope ≢ "alliance") × IsText n.region)

pub record IsPeer (p : PeerConfig) : Type 0 where
  pub addr : IsText p.addr
  pub scope : (p.node_scope ≡ "") ⊎ IsTier p.node_scope
  pub regions : p.node_scope ≡ "alliance" → p.regions ≢ []

pub record IsAdapter (a : AdapterConfig) : Type 0 where
  pub known : is_valid_schema_type a.type ≡ true
  pub type : IsText a.type
  pub version : IsText a.version

pub record IsRule (r : JurisdictionIsolationRule) : Type 0 where
  pub schema_type : IsText r.schema_type
  pub tiers : All IsTier r.allow_tiers

pub record IsValid (c : Config) : Type 0 where
  pub required : HasRequired c
  pub located : IsLocated c.node
  pub allow_via : All IsTier c.policy.routing.allow_via
  pub peers : All (λ e. IsPeer e.1) c.network.peers
  pub adapters : All IsAdapter c.schema_registry.adapters
  pub rules : All IsRule c.policy.jurisdiction_isolation

is_tier-IsTier : (s : String) → is_tier s ≡ true → IsTier s
unfolding is_tier
is_tier-IsTier s h = ground (arith, eq_iff s "regional", eq_iff s "alliance", eq_iff s "global")

IsTier-is_tier : (s : String) → IsTier s → is_tier s ≡ true
unfolding is_tier
IsTier-is_tier s h = ground (arith, eq_iff s "regional", eq_iff s "alliance", eq_iff s "global")

check_allow_via_iff : (l : List String) → (check_allow_via l ≡ none) ↔ All IsTier l
unfolding check_allow_via
check_allow_via_iff [] = (λ _. tt, λ _. refl)
check_allow_via_iff (t ∷ l) =
    ground (arith, is_tier-IsTier t, IsTier-is_tier t, check_allow_via_iff l)

check_rule_tiers_iff : (l : List String) → (check_rule_tiers l ≡ none) ↔ All IsTier l
unfolding check_rule_tiers
check_rule_tiers_iff [] = (λ _. tt, λ _. refl)
check_rule_tiers_iff (t ∷ l) =
    ground (arith, is_tier-IsTier t, IsTier-is_tier t, check_rule_tiers_iff l)

IsTier-IsText : (s : String) → IsTier s → IsText s
unfolding is_blank
IsTier-IsText s (inl h) = rw h
IsTier-IsText s (inr (inl h)) = rw h
IsTier-IsText s (inr (inr h)) = rw h

check_required-HasRequired : (c : Config) → check_required c ≡ none → HasRequired c
unfolding check_required
check_required-HasRequired c h = ground (arith, is_tier-IsTier c.node.node_scope)

HasRequired-check_required : (c : Config) → HasRequired c → check_required c ≡ none
unfolding check_required
HasRequired-check_required c h =
    ground (arith, IsTier-is_tier c.node.node_scope, IsTier-IsText c.node.node_scope h.node_scope)

nonempty_iff : (l : List String) → (is_empty l ≡ false) ↔ (l ≢ [])
unfolding is_empty
nonempty_iff [] = (λ h. cc, λ h. absurd (h refl))
nonempty_iff (x ∷ l) = (λ h e. cc, λ h. refl)

tiers_differ : (◌≢◌ {A = String} "regional" "alliance") × (◌≢◌ {A = String} "global" "alliance")
tiers_differ = ground (arith, eq_iff "regional" "alliance", eq_iff "global" "alliance")

check_scope_iff : (n : NodeConfig) → IsTier n.node_scope → (check_scope n ≡ none) ↔ IsLocated n
unfolding check_scope
check_scope_iff n t = ground (
  arith,
  eq_iff n.node_scope "regional",
  eq_iff n.node_scope "alliance",
  eq_iff n.node_scope "global",
  nonempty_iff n.regions,
  tiers_differ,
)

check_peer_iff : (k : String) (p : PeerConfig) → (check_peer k p ≡ none) ↔ IsPeer p
unfolding check_peer
check_peer_iff k p = ground (
  arith,
  eq_iff p.node_scope "",
  eq_iff p.node_scope "alliance",
  is_tier-IsTier p.node_scope,
  IsTier-is_tier p.node_scope,
  nonempty_iff p.regions,
)

check_peers_iff : (m : Map PeerConfig) → (check_peers m ≡ none) ↔ All (λ e. IsPeer e.1) m
unfolding check_peers
check_peers_iff [] = (λ _. tt, λ _. refl)
check_peers_iff ((k, p) ∷ m) = ground (arith, check_peer_iff k p, check_peers_iff m)

check_adapters_iff : (l : List AdapterConfig) → (check_adapters l ≡ none) ↔ All IsAdapter l
unfolding check_adapters
check_adapters_iff [] = (λ _. tt, λ _. refl)
check_adapters_iff (a ∷ l) = ground (arith, check_adapters_iff l)

check_rules_iff : (l : List JurisdictionIsolationRule) → (check_rules l ≡ none) ↔ All IsRule l
unfolding check_rules
check_rules_iff [] = (λ _. tt, λ _. refl)
check_rules_iff (r ∷ l) = ground (arith, check_rule_tiers_iff r.allow_tiers, check_rules_iff l)

-- `Validate` accepts exactly the configurations with every required field, a known tier, a region
-- (or, for alliance nodes, regions and an agreement), known tiers in `allow_via`, well-formed
-- peers, adapters with a known type and a version, and isolation rules with a type and known tiers.
pub validate-eq-none_iff : (c : Config) → (validate c ≡ none) ↔ IsValid c
unfolding validate
validate-eq-none_iff c = (
  λ h. ground (
    arith,
    check_required-HasRequired c,
    λ (r : HasRequired c). check_scope_iff c.node r.node_scope,
    check_allow_via_iff c.policy.routing.allow_via,
    check_peers_iff c.network.peers,
    check_adapters_iff c.schema_registry.adapters,
    check_rules_iff c.policy.jurisdiction_isolation,
  ),
  λ v. ground (
    arith,
    HasRequired-check_required c,
    check_scope_iff c.node v.required.node_scope,
    check_allow_via_iff c.policy.routing.allow_via,
    check_peers_iff c.network.peers,
    check_adapters_iff c.schema_registry.adapters,
    check_rules_iff c.policy.jurisdiction_isolation,
  ),
)

-- The built-in configuration of every profile name, known or not, passes `Validate`.
pub default_config_for_profile-IsValid :
    (name : String) → validate (default_config_for_profile name) ≡ none
unfolding validate default_config_for_profile check_required check_scope check_allow_via check_peers
    check_adapters check_rules is_blank
default_config_for_profile-IsValid name = elim (Bool-cases (name == "strict")) [
  | inl s ↦ rw (s, default_config_for_profile)
  | inr s ↦ elim (Bool-cases (name == "performance")) [
    | inl p ↦ rw (s, p, default_config_for_profile)
    | inr p ↦ rw (s, p, default_config_for_profile)
  ]
]
