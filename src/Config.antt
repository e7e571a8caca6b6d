-- ===== src/Config.antt =====
-- internal/config/config.go: the configuration of a node. Maps are association lists, slices are
-- lists (the code never tells nil from empty in what is modelled), int and time.Duration are
-- signed, durations count nanoseconds.
pub mod Validate
pub mod Presets
pub mod Toml
mod Examples
use mrmi_gateway.Prelude.{ℕ, ℤ, pos, String, Bool, List, ◌*◌}
use mrmi_gateway.Prelude.Map.{Map}

pub record NodeConfig : Type 0 where
  pub node_id : String
  pub node_scope : String
  pub region : String
  pub regions : List String
  pub alliance_id : String
  pub disclaimer : String
  pub operator_id : String
  pub policy_version : String
  pub applicable_law : String
  pub signed_by : String
  pub discovery_token_ttl : ℤ
  pub log_level : String
  pub log_format : String

pub record ProfileConfig : Type 0 where
  pub name : String
  pub dedup_ttl : ℤ
  pub timing_jitter_max : ℤ
  pub padding_bucket : ℤ
  pub dummy_traffic_rate : ℤ
  pub transit_cache_ttl : ℤ

pub record JurisdictionIsolationRule : Type 0 where
  pub schema_type : String
  pub allow_tiers : List String
  pub allow_jurisdictions : List String
  pub require_profile : String

pub record DiscoveryPolicy : Type 0 where
  pub app_isolation : String
  pub allowed_app_ids : List String

pub record ConnectPolicy : Type 0 where
  pub auto_accept : String
  pub trusted_nodes : List String

pub record RoutingPolicy : Type 0 where
  pub allow_via : List String

pub record OutboundPolicy : Type 0 where
  pub allow_to : List String
  pub deny_to : List String
  pub store_locally : Bool

pub record InboundPolicy : Type 0 where
  pub min_trust_tier : ℕ

pub record AuditPolicy : Type 0 where
  pub log_all_decisions : Bool
  pub log_backend : String
  pub export_to_operator : Bool
  pub dns_txt_publish : Bool
  pub dns_txt_interval : ℤ
  pub https_well_known : Bool
  pub root_hash_gossip : Bool

pub record PolicyConfig : Type 0 where
  pub outbound : OutboundPolicy
  pub inbound : InboundPolicy
  pub audit : AuditPolicy
  pub routing : RoutingPolicy
  pub discovery : DiscoveryPolicy
  pub connect : ConnectPolicy
  pub jurisdiction_isolation : List JurisdictionIsolationRule

pub record PeerConfig : Type 0 where
  pub region : String
  pub addr : String
  pub node_scope : String
  pub regions : List String

pub record NetworkConfig : Type 0 where
  pub grpc_listen_addr : String
  pub http_listen_addr : String
  pub metrics_addr : String
  pub shutdown_timeout : ℤ
  pub peers : Map PeerConfig
  pub bootstrap_nodes : List String
  pub peer_gossip_interval : ℤ

pub record TlsConfig : Type 0 where
  pub cert : String
  pub key : String
  pub ca : String
  pub insecure : Bool

pub record ApiConfig : Type 0 where
  pub api_key : String
  pub jwt_secret : String

pub record StorageConfig : Type 0 where
  pub backend : String
  pub path : String
  pub redis_url : String
  pub key_prefix : String

pub record UserConfig : Type 0 where
  pub display_hint : String
  pub region : String

pub record AppConfig : Type 0 where
  pub webhook_url : String
  pub webhook_secret : String
  pub webhook_timeout : ℤ
  pub auto_accept : String
  pub users : Map UserConfig

pub record AdapterConfig : Type 0 where
  pub type : String
  pub version : String
  pub enabled : Bool
  pub description : String
  pub jurisdiction_policy : String
  pub allow_tiers : List String
  pub contact : String

pub record CutoffWindow : Type 0 where
  pub opens : String
  pub closes : String
  pub tz : String

pub record Iso20022AdapterConfig : Type 0 where
  pub dedup_ttl_h : ℤ
  pub settlement_finality : Bool
  pub retain_long : Bool
  pub cutoff_windows : Map CutoffWindow

pub record SchemaRegistryConfig : Type 0 where
  pub adapters : List AdapterConfig
  pub iso20022 : Iso20022AdapterConfig

pub record Config : Type 0 where
  pub node : NodeConfig
  pub profile : ProfileConfig
  pub policy : PolicyConfig
  pub network : NetworkConfig
  pub tls : TlsConfig
  pub api : ApiConfig
  pub storage : StorageConfig
  pub schema_registry : SchemaRegistryConfig
  pub apps : Map AppConfig

-- time.Millisecond, time.Second, time.Minute and time.Hour
abbrev pub milliseconds : ℕ → ℤ
milliseconds n = pos (n * 1_000_000)

abbrev pub seconds : ℕ → ℤ
seconds n = pos (n * 1_000_000_000)

abbrev pub minutes : ℕ → ℤ
minutes n = pos (n * 60_000_000_000)

abbrev pub hours : ℕ → ℤ
hours n = pos (n * 3_600_000_000_000)
