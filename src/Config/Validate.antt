-- ===== src/Config/Validate.antt =====
-- internal/config/config.go: `Config.Validate`. An error value is a constructor for each message;
-- `none` is nil.
pub mod Laws
use text.Mathlib.Text.{starts_with}
use mrmi_gateway.Prelude.{
  ℤ, pos, leb_ℤ, String, Bool, true, false, not, ◌&&◌, ◌||◌, Option, none, some, List, [], ◌∷◌,
  ◌==◌, if◌then◌else◌,
}
use mrmi_gateway.Prelude.Map.{Map}
use mrmi_gateway.Prelude.Text.{trim_space}
use mrmi_gateway.Config.{Config, NodeConfig, PeerConfig, AdapterConfig, JurisdictionIsolationRule}

pub data ConfigError : Type 0 where
  node_id_required node_scope_required node_scope_invalid : ConfigError
  operator_id_required policy_version_required applicable_law_required : ConfigError
  signed_by_format profile_name_required dedup_ttl_not_positive : ConfigError
  http_listen_addr_required grpc_listen_addr_required : ConfigError
  region_required regions_required alliance_id_required : ConfigError
  allow_via_tier : String → ConfigError
  peer_addr_empty peer_scope_invalid peer_regions_required : String → ConfigError
  adapter_type_required adapter_type_invalid adapter_version_required : ConfigError
  rule_schema_type_required rule_tier_invalid : ConfigError

-- The next check runs if this one found nothing.
infixr 20 ◌<|>◌
abbrev pub ◌<|>◌ : Option ConfigError → Option ConfigError → Option ConfigError
none <|> e = e
some e <|> _ = some e

abbrev pub fail_if : Bool → ConfigError → Option ConfigError
fail_if b e = if b then some e else none

-- strings.TrimSpace(s) == ""
unfoldable pub is_blank : String → Bool
unfolding trim_space
is_blank s = trim_space s == ""

unfoldable pub is_tier : String → Bool
is_tier s = s == "regional" || s == "alliance" || s == "global"

-- The first `switch` of `Validate`.
unfoldable pub check_required : Config → Option ConfigError
unfolding is_tier
check_required c =
    fail_if (is_blank c.node.node_id) node_id_required
    <|> fail_if (is_blank c.node.node_scope) node_scope_required
    <|> fail_if (not (is_tier c.node.node_scope)) node_scope_invalid
    <|> fail_if (is_blank c.node.operator_id) operator_id_required
    <|> fail_if (is_blank c.node.policy_version) policy_version_required
    <|> fail_if (is_blank c.node.applicable_law) applicable_law_required
    <|> fail_if (not (starts_with c.node.signed_by "ed25519:")) signed_by_format
    <|> fail_if (is_blank c.profile.name) profile_name_required
    <|> fail_if (leb_ℤ c.profile.dedup_ttl (pos 0)) dedup_ttl_not_positive
    <|> fail_if (is_blank c.network.http_listen_addr) http_listen_addr_required
    <|> fail_if (is_blank c.network.grpc_listen_addr) grpc_listen_addr_required

is_empty : List String → Bool
is_empty [] = true
is_empty (_ ∷ _) = false

-- The second `switch`, on the node's scope.
unfoldable pub check_scope : NodeConfig → Option ConfigError
unfolding is_empty
check_scope n =
    if n.node_scope == "regional" || n.node_scope == "global"
    then fail_if (is_blank n.region) region_required
    else if n.node_scope == "alliance"
    then fail_if (is_empty n.regions) regions_required
      <|> fail_if (is_blank n.alliance_id) alliance_id_required
    else none

unfoldable pub check_allow_via : List String → Option ConfigError
unfolding is_tier
check_allow_via [] = none
check_allow_via (tier ∷ rest) =
    fail_if (not (is_tier tier)) (allow_via_tier tier) <|> check_allow_via rest

unfoldable pub check_peer : String → PeerConfig → Option ConfigError
unfolding is_tier is_empty
check_peer key p =
    fail_if (is_blank p.addr) (peer_addr_empty key)
    <|> fail_if (not (p.node_scope == "") && not (is_tier p.node_scope)) (peer_scope_invalid key)
    <|> fail_if (p.node_scope == "alliance" && is_empty p.regions) (peer_regions_required key)

unfoldable pub check_peers : Map PeerConfig → Option ConfigError
check_peers [] = none
check_peers ((key, p) ∷ rest) = check_peer key p <|> check_peers rest

-- isValidSchemaType
unfoldable pub is_valid_schema_type : String → Bool
is_valid_schema_type s =
    if s == "messaging" || s == "iso20022" || s == "hl7fhir" || s == "edifact"
    then true
    else starts_with s "custom:"

unfoldable pub check_adapters : List AdapterConfig → Option ConfigError
unfolding is_valid_schema_type
check_adapters [] = none
check_adapters (a ∷ rest) =
    fail_if (is_blank a.type) adapter_type_required
    <|> fail_if (not (is_valid_schema_type a.type)) adapter_type_invalid
    <|> fail_if (is_blank a.version) adapter_version_required
    <|> check_adapters rest

unfoldable pub check_rule_tiers : List String → Option ConfigError
unfolding is_tier
check_rule_tiers [] = none
check_rule_tiers (tier ∷ rest) =
    fail_if (not (is_tier tier)) rule_tier_invalid <|> check_rule_tiers rest

unfoldable pub check_rules : List JurisdictionIsolationRule → Option ConfigError
check_rules [] = none
check_rules (r ∷ rest) =
    fail_if (is_blank r.schema_type) rule_schema_type_required
    <|> check_rule_tiers r.allow_tiers
    <|> check_rules rest

-- Config.Validate
unfoldable pub validate : Config → Option ConfigError
validate c =
    check_required c
    <|> check_scope c.node
    <|> check_allow_via c.policy.routing.allow_via
    <|> check_peers c.network.peers
    <|> check_adapters c.schema_registry.adapters
    <|> check_rules c.policy.jurisdiction_isolation
