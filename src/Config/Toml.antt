-- ===== src/Config/Toml.antt =====
-- internal/config/config.go: the configuration file as it is decoded (`rawTOML`). A pointer and a
-- slice that may be nil are options; the TOML library that fills the record is outside.
pub mod Apply
use mrmi_gateway.Prelude.{ℕ, ℤ, String, Bool, Option, List}
use mrmi_gateway.Prelude.Map.{Map}
use mrmi_gateway.Config.{JurisdictionIsolationRule, UserConfig, CutoffWindow}

pub record RawNode : Type 0 where
  pub node_id : String
  pub node_scope : String
  pub region : String
  pub regions : Option (List String)
  pub alliance_id : String
  pub disclaimer : String
  pub operator_id : String
  pub policy_version : String
  pub applicable_law : String
  pub signed_by : String
  pub discovery_token_ttl_s : ℤ
  pub log_level : String
  pub log_format : String

pub record RawOverride : Type 0 where
  pub padding_bucket_bytes : ℤ
  pub timing_jitter_max_ms : ℤ
  pub dedup_ttl_h : ℤ
  pub dummy_traffic_interval_s : ℤ
  pub transit_cache_ttl_s : ℤ

pub record RawPolicy : Type 0 where
  pub allow_to : Option (List String)
  pub deny_to : Option (List String)
  pub store_locally : Option Bool
  pub min_trust_tier : Option ℕ
  pub log_all_decisions : Option Bool
  pub log_backend : String
  pub export_to_operator : Option Bool
  pub dns_txt_publish : Option Bool
  pub dns_txt_interval_s : ℤ
  pub https_well_known : Option Bool
  pub root_hash_gossip : Option Bool
  pub allow_via : Option (List String)
  pub app_isolation : String
  pub allowed_app_ids : Option (List String)
  pub auto_accept : String
  pub trusted_nodes : Option (List String)
  pub rules : List JurisdictionIsolationRule

pub record RawNetwork : Type 0 where
  pub grpc_listen_addr : String
  pub listen_addr : String
  pub grpc_port : ℤ
  pub http_listen_addr : String
  pub http_port : ℤ
  pub metrics_addr : String
  pub metrics_port : ℤ
  pub shutdown_timeout_s : ℤ
  pub bootstrap_nodes : Option (List String)
  pub peer_gossip_interval_s : ℤ

pub record RawPeer : Type 0 where
  pub addr : String
  pub node_scope : String
  pub regions : List String

pub record RawTls : Type 0 where
  pub cert : String
  pub key : String
  pub ca : String
  pub insecure : Bool

pub record RawStorage : Type 0 where
  pub backend : String
  pub path : String
  pub redis_url : String
  pub key_prefix : String

pub record RawApp : Type 0 where
  pub webhook_url : String
  pub webhook_secret : String
  pub webhook_timeout_s : ℤ
  pub auto_accept : String
  pub users : Map UserConfig

pub record RawAdapter : Type 0 where
  pub type : String
  pub version : String
  pub enabled : Option Bool
  pub description : String
  pub jurisdiction_policy : String
  pub allow_tiers : List String
  pub contact : String

pub record RawIso20022 : Type 0 where
  pub dedup_ttl_h : ℤ
  pub settlement_finality : Bool
  pub retain_long : Bool
  pub cutoff_windows : Map CutoffWindow

pub record RawToml : Type 0 where
  pub node : RawNode
  pub profile_name : String
  pub profile_override : RawOverride
  pub policy : RawPolicy
  pub network : RawNetwork
  pub peers : Option (Map RawPeer)
  pub tls : RawTls
  pub api_key : String
  pub jwt_secret : String
  pub storage : RawStorage
  pub apps : Option (Map RawApp)
  pub adapters : List RawAdapter
  pub iso20022 : RawIso20022
