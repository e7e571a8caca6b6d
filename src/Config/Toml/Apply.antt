-- ===== src/Config/Toml/Apply.antt =====
-- internal/config/config.go: `profileName`, `apply` and `Load`. The text of a port number
-- (fmt.Sprintf) is a parameter, as is what reading and decoding the file gives.
use mrmi_gateway.Prelude.{
  ℕ, ◌*◌, ℤ, pos, ltb_ℤ, leb_ℤ, String, Bool, true, not, ◌||◌, Option, none, some, List, [], ◌∷◌,
  map, ◌==◌, if◌then◌else◌,
}
use Prim.Native.String.{◌++◌ as append_text}
use mrmi_gateway.Prelude.Int.{pos_part, to_int64}
use mrmi_gateway.Prelude.Map.{Map}
use mrmi_gateway.Prelude.Text.{trim_space}
use mrmi_gateway.Config.{
  Config, NodeConfig, ProfileConfig, PolicyConfig, NetworkConfig, TlsConfig, StorageConfig,
  PeerConfig, AppConfig, AdapterConfig, SchemaRegistryConfig,
}
use mrmi_gateway.Config.Presets.{default_config_for_profile, default_balanced_config}
use mrmi_gateway.Config.Validate.{ConfigError, validate, is_blank}
use mrmi_gateway.Config.Toml.{
  RawToml, RawNode, RawOverride, RawPolicy, RawNetwork, RawPeer, RawTls, RawStorage, RawApp,
  RawAdapter, RawIso20022,
}

-- if v := strings.TrimSpace(raw); v != "" { old = v }
unfoldable pub text_or : String → String → String
text_or raw old = if is_blank raw then old else trim_space raw

-- if raw != nil { old = raw }
unfoldable pub given_or {ℓ} : {A : Type ℓ} → Option A → A → A
given_or none old = old
given_or (some a) old = a

-- if raw > 0 { old = time.Duration(raw) * unit }
unfoldable pub duration_or : ℕ → ℤ → ℤ → ℤ
duration_or unit raw old = if ltb_ℤ (pos 0) raw then to_int64 (pos_part raw * unit) else old

-- if raw > 0 { old = raw }
unfoldable pub positive_or : ℤ → ℤ → ℤ
positive_or raw old = if ltb_ℤ (pos 0) raw then raw else old

-- if len(raw) > 0 { old = … }
unfoldable pub some_or {ℓ κ} : {A : Type ℓ} {B : Type κ} → List A → B → B → B
some_or [] new old = old
some_or (_ ∷ _) new old = new

-- rawTOML.profileName
unfoldable pub profile_name : RawToml → String
unfolding text_or
profile_name r = text_or r.profile_name "balanced"

unfoldable pub apply_node : RawNode → NodeConfig → NodeConfig
unfolding text_or given_or duration_or
apply_node r c = record {
  node_id = text_or r.node_id c.node_id;
  node_scope = text_or r.node_scope c.node_scope;
  region = text_or r.region c.region;
  regions = given_or r.regions c.regions;
  alliance_id = text_or r.alliance_id c.alliance_id;
  disclaimer = text_or r.disclaimer c.disclaimer;
  operator_id = text_or r.operator_id c.operator_id;
  policy_version = text_or r.policy_version c.policy_version;
  applicable_law = text_or r.applicable_law c.applicable_law;
  signed_by = text_or r.signed_by c.signed_by;
  discovery_token_ttl = duration_or 1_000_000_000 r.discovery_token_ttl_s c.discovery_token_ttl;
  log_level = text_or r.log_level c.log_level;
  log_format = text_or r.log_format c.log_format;
}

unfoldable pub apply_profile : String → RawOverride → ProfileConfig → ProfileConfig
apply_profile name r c = record {
  name = name;
  dedup_ttl = duration_or 3_600_000_000_000 r.dedup_ttl_h c.dedup_ttl;
  timing_jitter_max = duration_or 1_000_000 r.timing_jitter_max_ms c.timing_jitter_max;
  padding_bucket = positive_or r.padding_bucket_bytes c.padding_bucket;
  dummy_traffic_rate = duration_or 1_000_000_000 r.dummy_traffic_interval_s c.dummy_traffic_rate;
  transit_cache_ttl = duration_or 1_000_000_000 r.transit_cache_ttl_s c.transit_cache_ttl;
}

unfoldable pub apply_policy : RawPolicy → PolicyConfig → PolicyConfig
apply_policy r c = record {
  outbound = record {
    allow_to = given_or r.allow_to c.outbound.allow_to;
    deny_to = given_or r.deny_to c.outbound.deny_to;
    store_locally = given_or r.store_locally c.outbound.store_locally;
  };
  inbound = record { min_trust_tier = given_or r.min_trust_tier c.inbound.min_trust_tier };
  audit = record {
    log_all_decisions = given_or r.log_all_decisions c.audit.log_all_decisions;
    log_backend = text_or r.log_backend c.audit.log_backend;
    export_to_operator = given_or r.export_to_operator c.audit.export_to_operator;
    dns_txt_publish = given_or r.dns_txt_publish c.audit.dns_txt_publish;
    dns_txt_interval = duration_or 1_000_000_000 r.dns_txt_interval_s c.audit.dns_txt_interval;
    https_well_known = given_or r.https_well_known c.audit.https_well_known;
    root_hash_gossip = given_or r.root_hash_gossip c.audit.root_hash_gossip;
  };
  routing = record { allow_via = given_or r.allow_via c.routing.allow_via };
  discovery = record {
    app_isolation = text_or r.app_isolation c.discovery.app_isolation;
    allowed_app_ids = given_or r.allowed_app_ids c.discovery.allowed_app_ids;
  };
  connect = record {
    auto_accept = text_or r.auto_accept c.connect.auto_accept;
    trusted_nodes = given_or r.trusted_nodes c.connect.trusted_nodes;
  };
  jurisdiction_isolation = some_or r.rules r.rules c.jurisdiction_isolation;
}

-- The entries of a map, built anew from those of the file.
unfoldable pub each {ℓ κ} : {A : Type ℓ} {B : Type κ} → (String → A → B) → Map A → Map B
each f [] = []
each f ((k, a) ∷ m) = (k, f k a) ∷ each f m

unfoldable pub peer_of : String → RawPeer → PeerConfig
peer_of key r = record {
  region = key;
  addr = r.addr;
  node_scope = r.node_scope;
  regions = r.regions;
}

unfoldable pub app_of : String → RawApp → AppConfig
app_of _ r = record {
  webhook_url = r.webhook_url;
  webhook_secret = r.webhook_secret;
  webhook_timeout = if leb_ℤ r.webhook_timeout_s (pos 0) then pos 5 else r.webhook_timeout_s;
  auto_accept = if r.auto_accept == "" then "manual" else r.auto_accept;
  users = r.users;
}

unfoldable pub adapter_of : RawAdapter → AdapterConfig
adapter_of r = record {
  type = r.type;
  version = r.version;
  enabled = given_or r.enabled true;
  description = r.description;
  jurisdiction_policy = r.jurisdiction_policy;
  allow_tiers = r.allow_tiers;
  contact = r.contact;
}

unfoldable pub map_given {ℓ κ} : {A : Type ℓ} {B : Type κ} → (A → B) → Option A → Option B
map_given f none = none
map_given f (some a) = some (f a)

module _ (decimal : ℤ → String) where
  -- The text of a listen address, from the port if there is no text.
  unfoldable pub port_or : ℤ → String → String
  port_or port old = if ltb_ℤ (pos 0) port then append_text ":" (decimal port) else old

  unfoldable pub apply_network : RawNetwork → Option (Map RawPeer) → NetworkConfig → NetworkConfig
  unfolding port_or map_given each peer_of
  apply_network r peers c = record {
    grpc_listen_addr =
        text_or r.grpc_listen_addr (text_or r.listen_addr (port_or r.grpc_port c.grpc_listen_addr));
    http_listen_addr = text_or r.http_listen_addr (port_or r.http_port c.http_listen_addr);
    metrics_addr = text_or r.metrics_addr (port_or r.metrics_port c.metrics_addr);
    shutdown_timeout = duration_or 1_000_000_000 r.shutdown_timeout_s c.shutdown_timeout;
    peers = given_or (map_given (each peer_of) peers) c.peers;
    bootstrap_nodes = given_or r.bootstrap_nodes c.bootstrap_nodes;
    peer_gossip_interval =
        duration_or 1_000_000_000 r.peer_gossip_interval_s c.peer_gossip_interval;
  }

unfoldable pub apply_tls : RawTls → TlsConfig → TlsConfig
apply_tls r c = record {
  cert = text_or r.cert c.cert;
  key = text_or r.key c.key;
  ca = text_or r.ca c.ca;
  insecure = r.insecure;
}

unfoldable pub apply_storage : RawStorage → StorageConfig → StorageConfig
apply_storage r c = record {
  backend = text_or r.backend c.backend;
  path = text_or r.path c.path;
  redis_url = text_or r.redis_url c.redis_url;
  key_prefix = text_or r.key_prefix c.key_prefix;
}

-- Whether the file says anything of iso20022, which then replaces all of it.
unfoldable pub says_iso20022 : RawIso20022 → Bool
says_iso20022 r =
    ltb_ℤ (pos 0) r.dedup_ttl_h
    || r.settlement_finality
    || r.retain_long
    || some_or r.cutoff_windows true (not true)

unfoldable pub apply_schemas :
    List RawAdapter → RawIso20022 → SchemaRegistryConfig → SchemaRegistryConfig
unfolding adapter_of
apply_schemas adapters iso c = record {
  adapters = some_or adapters (map adapter_of adapters) c.adapters;
  iso20022 =
      if says_iso20022 iso
      then record {
        dedup_ttl_h = iso.dedup_ttl_h;
        settlement_finality = iso.settlement_finality;
        retain_long = iso.retain_long;
        cutoff_windows = iso.cutoff_windows;
      }
      else c.iso20022;
}

-- What the file can be: not given, not readable (no such file, a directory, another format, bad
-- TOML), or decoded.
pub data Source : Type 0 where
  no_path : Source
  unreadable : String → Source
  decoded : RawToml → Source

pub data LoadError : Type 0 where
  io : String → LoadError
  invalid : ConfigError → LoadError

module _ (decimal : ℤ → String) where
  -- rawTOML.apply
  unfoldable pub apply : RawToml → Config → Config
  unfolding map_given each app_of
  apply r c = record {
    node = apply_node r.node c.node;
    profile = apply_profile (profile_name r) r.profile_override c.profile;
    policy = apply_policy r.policy c.policy;
    network = apply_network decimal r.network r.peers c.network;
    tls = apply_tls r.tls c.tls;
    api = record {
      api_key = text_or r.api_key c.api.api_key;
      jwt_secret = text_or r.jwt_secret c.api.jwt_secret;
    };
    storage = apply_storage r.storage c.storage;
    schema_registry = apply_schemas r.adapters r.iso20022 c.schema_registry;
    apps = given_or (map_given (each app_of) r.apps) c.apps;
  }

  unfoldable pub checked : Config → Option LoadError × Option Config
  checked c = elim (validate c) [ none ↦ (none, some c) | some e ↦ (some (invalid e), none) ]

  -- Load
  unfoldable pub load : Source → Option LoadError × Option Config
  unfolding checked
  load no_path = (none, some default_balanced_config)
  load (unreadable e) = (some (io e), none)
  load (decoded r) = checked (apply r (default_config_for_profile (profile_name r)))
