-- ===== src/Config/Presets.antt =====
-- internal/config/presets.go: the built-in profiles.
use mrmi_gateway.Prelude.{pos, String, true, false, [], ◌∷◌, ◌==◌, if◌then◌else◌}
use mrmi_gateway.Config.{Config, ProfileConfig, PolicyConfig, milliseconds, seconds, minutes, hours}

-- version.App
abbrev pub app_version : String
app_version = "0.1.0"

-- The literal that `DefaultConfigForProfile` starts from; fields that it leaves out are zero.
unfoldable pub base_config : Config
base_config = record {
  node = record {
    node_id = "rs-node-01";
    node_scope = "regional";
    region = "RS";
    regions = [];
    alliance_id = "";
    disclaimer = "";
    operator_id = "example-operator";
    policy_version = app_version;
    applicable_law = "RS-GDPR";
    signed_by = "ed25519:REPLACE_ME";
    discovery_token_ttl = minutes 5;
    log_level = "";
    log_format = "";
  };
  profile = record {
    name = "";
    dedup_ttl = pos 0;
    timing_jitter_max = pos 0;
    padding_bucket = pos 0;
    dummy_traffic_rate = pos 0;
    transit_cache_ttl = pos 0;
  };
  policy = record {
    outbound = record {
      allow_to = "RU" ∷ "BY" ∷ "KZ" ∷ "AM" ∷ [];
      deny_to = [];
      store_locally = true;
    };
    inbound = record { min_trust_tier = 0 };
    audit = record {
      log_all_decisions = true;
      log_backend = "local-merkle";
      export_to_operator = false;
      dns_txt_publish = true;
      dns_txt_interval = hours 6;
      https_well_known = true;
      root_hash_gossip = false;
    };
    routing = record { allow_via = [] };
    discovery = record { app_isolation = "SAME_APP_ONLY"; allowed_app_ids = [] };
    connect = record { auto_accept = "MANUAL"; trusted_nodes = [] };
    jurisdiction_isolation = [];
  };
  network = record {
    grpc_listen_addr = ":7777";
    http_listen_addr = ":8080";
    metrics_addr = ":9090";
    shutdown_timeout = seconds 5;
    peers = [];
    bootstrap_nodes = [];
    peer_gossip_interval = pos 0;
  };
  tls = record { cert = ""; key = ""; ca = ""; insecure = false };
  api = record { api_key = ""; jwt_secret = "" };
  storage = record { backend = ""; path = ""; redis_url = ""; key_prefix = "" };
  schema_registry = record {
    adapters = [];
    iso20022 = record {
      dedup_ttl_h = pos 0;
      settlement_finality = false;
      retain_long = false;
      cutoff_windows = [];
    };
  };
  apps = [];
}

unfoldable pub strict_profile : ProfileConfig
strict_profile = record {
  name = "strict";
  dedup_ttl = hours 72;
  timing_jitter_max = milliseconds 500;
  padding_bucket = pos 16384;
  dummy_traffic_rate = seconds 5;
  transit_cache_ttl = seconds 30;
}

unfoldable pub performance_profile : ProfileConfig
performance_profile = record {
  name = "performance";
  dedup_ttl = hours 1;
  timing_jitter_max = pos 0;
  padding_bucket = pos 0;
  dummy_traffic_rate = pos 0;
  transit_cache_ttl = pos 0;
}

unfoldable pub balanced_profile : ProfileConfig
balanced_profile = record {
  name = "balanced";
  dedup_ttl = hours 24;
  timing_jitter_max = milliseconds 100;
  padding_bucket = pos 4096;
  dummy_traffic_rate = seconds 60;
  transit_cache_ttl = seconds 30;
}

unfoldable pub strict_policy : PolicyConfig → PolicyConfig
strict_policy p = record p { audit = record p.audit { dns_txt_interval = hours 1 } }

performance_policy : PolicyConfig → PolicyConfig
performance_policy p = record p {
  audit = record p.audit {
    log_all_decisions = false;
    export_to_operator = false;
    dns_txt_publish = false;
    dns_txt_interval = pos 0;
    https_well_known = false;
  };
  outbound = record p.outbound { store_locally = false };
}

-- DefaultConfigForProfile
unfoldable pub default_config_for_profile : String → Config
unfolding base_config strict_profile performance_profile balanced_profile strict_policy
    performance_policy
default_config_for_profile name =
    if name == "strict"
    then record base_config { profile = strict_profile; policy = strict_policy base_config.policy }
    else if name == "performance"
    then record base_config {
      profile = performance_profile;
      policy = performance_policy base_config.policy;
    }
    else record base_config { profile = balanced_profile }

-- DefaultBalancedConfig
unfoldable pub default_balanced_config : Config
unfolding default_config_for_profile
default_balanced_config = default_config_for_profile "balanced"
