-- ===== src/Policy/Examples.antt =====
-- The policy theorems at a concrete engine and requests.
use mrmi_gateway.Prelude.{
  ℤ, String, true, false, refl, arith, eq_iff, pos, none, some, List, [], ◌∷◌, ◌≡◌, ◌↔◌,
}
use mrmi_gateway.Config.{Config, JurisdictionIsolationRule}
use mrmi_gateway.Prelude.Text.{trim_space, trim_left, trim_right, is_space}
use mrmi_gateway.Prelude.Int.{to_int64}
use mrmi_gateway.Config.Presets
use mrmi_gateway.Config.Validate
use mrmi_gateway.Config.Toml.Apply
use mrmi_gateway.Config.Presets.{default_config_for_profile}
use mrmi_gateway.Config.Validate.{validate}
use mrmi_gateway.Config.Toml.{RawToml, RawNode, RawPolicy}
use mrmi_gateway.Config.Toml.Apply.{apply, profile_name, checked, decoded, load}
use mrmi_gateway.Schema.{normalize}
use mrmi_gateway.Audit
use mrmi_gateway.Audit.{Entry, Log, StoreEntry}
use mrmi_gateway.Policy.{allow, evaluate, evaluate_jurisdiction_isolation}
use mrmi_gateway.Policy.Isolation.{FirstMatch, RuleAllows, evaluate_jurisdiction_isolation_iff}
use mrmi_gateway.Policy.Verdict.{Permitted, evaluate-allow_iff}
use mrmi_gateway.Policy.Loaded.{Settings, AsksFor, Follows, from_file, from_preset, load-Follows}
use mrmi_gateway.Samples.{config, engine, request, backend, digest}

abbrev isolated : Config
isolated = record config {
  policy = record config.policy {
    jurisdiction_isolation =
        (record {
          schema_type = "hl7fhir";
          allow_tiers = "regional" ∷ [];
          allow_jurisdictions = "RS" ∷ [];
          require_profile = "strict";
        })
        ∷ [];
  };
}

abbrev log : Log (List StoreEntry)
log = Audit.new

evaluate_jurisdiction_isolation_iff_example :
    (evaluate_jurisdiction_isolation isolated request ≡ none) ↔ (
      (q : JurisdictionIsolationRule)
      → FirstMatch (normalize "hl7fhir") isolated.policy.jurisdiction_isolation q
      → RuleAllows isolated request q)
evaluate_jurisdiction_isolation_iff_example = evaluate_jurisdiction_isolation_iff isolated request

evaluate-allow_iff_example :
    ((evaluate backend digest engine request (pos 9) (some log)).0.decision ≡ allow)
    ↔ Permitted engine request
evaluate-allow_iff_example = evaluate-allow_iff backend digest engine request (pos 9) (some log)

abbrev raw_node : RawNode
raw_node = record {
  node_id = " by-node-01 ";
  node_scope = "";
  region = "BY";
  regions = some ("BY" ∷ []);
  alliance_id = "";
  disclaimer = "";
  operator_id = "";
  policy_version = "";
  applicable_law = "";
  signed_by = "";
  discovery_token_ttl_s = pos 60;
  log_level = "debug";
  log_format = "";
}

abbrev raw_policy : RawPolicy
raw_policy = record {
  allow_to = none;
  deny_to = some ("US" ∷ []);
  store_locally = some false;
  min_trust_tier = some 2;
  log_all_decisions = none;
  log_backend = "";
  export_to_operator = none;
  dns_txt_publish = none;
  dns_txt_interval_s = pos 0;
  https_well_known = none;
  root_hash_gossip = none;
  allow_via = none;
  app_isolation = "";
  allowed_app_ids = none;
  auto_accept = "";
  trusted_nodes = none;
  rules = [];
}

-- A file that sets some of the fields.
abbrev raw : RawToml
raw = record {
  node = raw_node;
  profile_name = "strict";
  profile_override = record {
    padding_bucket_bytes = pos 512;
    timing_jitter_max_ms = pos 0;
    dedup_ttl_h = pos 12;
    dummy_traffic_interval_s = pos 0;
    transit_cache_ttl_s = pos 0;
  };
  policy = raw_policy;
  network = record {
    grpc_listen_addr = "";
    listen_addr = "";
    grpc_port = pos 7000;
    http_listen_addr = ":80";
    http_port = pos 0;
    metrics_addr = "";
    metrics_port = pos 0;
    shutdown_timeout_s = pos 9;
    bootstrap_nodes = none;
    peer_gossip_interval_s = pos 0;
  };
  peers = some [];
  tls = record { cert = ""; key = ""; ca = ""; insecure = true };
  api_key = "k";
  jwt_secret = "";
  storage = record { backend = "bbolt"; path = ""; redis_url = ""; key_prefix = "" };
  apps = none;
  adapters = [];
  iso20022 = record {
    dedup_ttl_h = pos 96;
    settlement_finality = true;
    retain_long = false;
    cutoff_windows = [];
  };
}

abbrev decimal : ℤ → String
decimal n = "7000"

-- What the file asks for: a denied region and a tier of its own, and the lists of the preset.
abbrev asked : Settings
asked = record {
  profile = "strict";
  scope = "regional";
  home = "BY";
  min_tier = 2;
  denied = "US" ∷ [];
  allowed = "RU" ∷ "BY" ∷ "KZ" ∷ "AM" ∷ [];
  rules = [];
}

abbrev loaded : Config
loaded = apply decimal raw (default_config_for_profile (profile_name raw))

raw-loaded : load decimal (decoded raw) ≡ (none, some loaded)
unfolding load checked validate Validate.check_required Validate.is_blank Validate.check_scope
    Validate.check_allow_via Validate.check_peers Validate.check_adapters Validate.check_rules
    Validate.is_tier apply Apply.apply_node Apply.apply_profile Apply.apply_network
    Apply.apply_policy Apply.apply_schemas Apply.apply_storage Apply.apply_tls Apply.some_or
    Apply.text_or Apply.duration_or Apply.given_or Apply.map_given Apply.each Apply.port_or
    Apply.positive_or Apply.says_iso20022 Presets.base_config Presets.strict_profile
    Presets.strict_policy default_config_for_profile profile_name to_int64 trim_space trim_left
    trim_right is_space
raw-loaded = refl

raw-AsksFor : AsksFor raw asked
unfolding trim_space trim_left trim_right is_space default_config_for_profile
raw-AsksFor = record {
  profile = from_file (ground (arith, eq_iff "strict" "")) refl;
  scope = from_preset refl refl;
  home = from_file (ground (arith, eq_iff "BY" "")) refl;
  min_tier = from_file refl;
  denied = from_file refl;
  allowed = from_preset refl refl;
  rules = from_preset refl refl;
}

load-Follows_example :
    ((evaluate backend digest
        (record { cfg = loaded; crl_store = none })
        request
        (pos 9)
        (some log)).0.decision
      ≡ allow)
    ↔ Follows asked none request
load-Follows_example =
    load-Follows decimal backend digest raw loaded asked none request (pos 9) (some log) raw-loaded
      raw-AsksFor
