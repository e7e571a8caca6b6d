-- ===== src/Samples.antt =====
-- The data that the examples share: envelopes, a configuration, a backend, a hash and a forwarder.
use Prim.Native.String.{String, ◌++◌ as append_text, len}
use mrmi_gateway.Prelude.{ℕ, ◌+◌, pos, true, false, none, some, List, [], ◌∷◌}
use mrmi_gateway.Config.{Config}
use mrmi_gateway.Config.Presets.{base_config}
use mrmi_gateway.Envelope.{Envelope}
use mrmi_gateway.Audit.{AuditStore, StoreEntry, Payload}
use mrmi_gateway.Policy.{Engine, Request}
use mrmi_gateway.Dedup
use mrmi_gateway.Audit
use mrmi_gateway.Config.{hours}
use mrmi_gateway.Gateway.{Gateway, Forwarder, State, Moment}

-- A letter of key `key` to region `to`.
abbrev pub envelope : String → String → Envelope
envelope key to = record {
  idempotency_key = key;
  sender_node_id = "ru-node-02";
  sender_identity = 1 ∷ [];
  recipient_identity = 2 ∷ [];
  sender_region = "RU";
  recipient_region = to;
  trust_tier = 2;
  sequence_number = 1;
  payload = 72 ∷ 105 ∷ [];
  padded_to = 0;
  timestamp = pos 1000;
  signature = [];
  is_dummy = false;
  schema_type = "iso20022";
  schema_version = "2019";
  routing_hint = "";
}

abbrev pub config : Config
config = base_config

abbrev pub engine : Engine
engine = record { cfg = config; crl_store = none }

abbrev pub request : Request
request = record {
  sender_node_id = "ru-node-02";
  sender_region = "RU";
  recipient_region = "BY";
  trust_tier = 2;
  schema_type = "hl7fhir";
  schema_version = "R4";
}

-- A backend that keeps what it gets and answers with all of it.
abbrev pub backend : AuditStore (List StoreEntry)
backend = record { audit_append = λ e b. e ∷ b; audit_latest = λ n b. some b }

abbrev pub digest : Payload → String
digest p = append_text "sha256:" p.reason

-- A forwarder that keeps what it gets and whose peer answers.
abbrev pub deliver : Forwarder (List Envelope)
deliver = record { forward = λ env sent. (some "sha256:peer", env ∷ sent) }

abbrev pub key_hash : String → ℕ
key_hash = len

abbrev pub gateway : Gateway
gateway = record {
  cfg = config;
  policy = engine;
  has_forwarder = true;
  has_on_allow = true;
  has_on_deny = true;
  has_on_duplicate = true;
  has_notifier = false;
}

abbrev pub fresh_state : State (List StoreEntry) (List Envelope)
fresh_state = record {
  audit = Audit.new;
  dedup = Dedup.new (hours 24);
  forwarder = [];
  events = [];
}

abbrev pub moment : ℕ → Moment
moment n = record {
  dedup_now = pos n;
  audit_now = pos n;
  finality_now = pos (n + 1);
  cancelled = false;
}
