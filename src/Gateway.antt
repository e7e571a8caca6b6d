-- ===== src/Gateway.antt =====
-- internal/core/gateway.go: the gateway, which takes an envelope through normalisation, the dedup
-- index, the policy engine, the audit log and the forwarder. The engine shares the gateway's log,
-- as internal/app/app.go wires them. Callbacks and the webhook notifier are events; the forwarder
-- is an interface over its own state.
pub mod Padding
pub mod Ttl
pub mod Trail
pub mod Gate
pub mod Resend
mod Examples
use mrmi_gateway.Prelude.{
  ℕ, suc, ◌+◌, ◌-◌, ◌*◌, ◌/◌, ◌%◌, ◌^◌, ltb, nat_eq, ℤ, pos, negsuc, ltb_ℤ, leb_ℤ, String, Bool,
  true, false, not, ◌&&◌, ◌||◌, Option, none, some, List, [], ◌∷◌, ◌++◌, ◌==◌, if◌then◌else◌,
  length, replicate,
}
use mrmi_gateway.Prelude.Int.{pos_part, to_int64}
use mrmi_gateway.Config.{Config}
use mrmi_gateway.Envelope.{Envelope}
use mrmi_gateway.Schema.{normalize, iso20022}
use mrmi_gateway.Dedup.{Index, seen_or_add, seen_or_add_with_ttl}
use mrmi_gateway.Audit.{
  AuditStore, Payload, Log, append, append_finality, decision_dummy, decision_duplicate,
}
use mrmi_gateway.Policy.{Engine, Request, Result, Decision, allow, deny, decision_text, evaluate}

-- core.SendResponse
pub record SendResponse : Type 0 where
  pub decision : String
  pub reason : String
  pub profile : String
  pub node_id : String
  pub audit_root_hash : String
  pub peer_audit_root_hash : String

-- core.NodeInfo
pub record NodeInfo : Type 0 where
  pub node_id : String
  pub node_scope : String
  pub region : String
  pub applicable_law : String
  pub profile : String

-- ErrEmptyIdempotencyKey
pub data GatewayError : Type 0 where
  empty_idempotency_key : GatewayError

-- core.Forwarder: the peer's root hash, or none for an error.
pub record Forwarder (F : Type 0) : Type 0 where
  pub forward : Envelope → F → Option String × F

-- The calls of the registered callbacks and of the notifier.
pub data Event : Type 0 where
  on_allow notified : Envelope → Event
  on_deny : String → Event
  on_duplicate : Event

-- core.Gateway: the parts that a call does not change, and which of the optional ones are set.
pub record Gateway : Type 0 where
  pub cfg : Config
  pub policy : Engine
  pub has_forwarder : Bool
  pub has_on_allow : Bool
  pub has_on_deny : Bool
  pub has_on_duplicate : Bool
  pub has_notifier : Bool

-- The parts that a call changes.
pub record State (B F : Type 0) : Type 0 where
  pub audit : Log B
  pub dedup : Index
  pub forwarder : F
  pub events : List Event

-- What a call reads of the world: the clock in the dedup index and in each entry of the log, and
-- whether the context is done before the jitter is over.
pub record Moment : Type 0 where
  pub dedup_now : ℤ
  pub audit_now : ℤ
  pub finality_now : ℤ
  pub cancelled : Bool

-- applyJitter: whether the forwarding goes on.
unfoldable pub apply_jitter : ℤ → Bool → Bool
apply_jitter max cancelled = if leb_ℤ max (pos 0) then true else not cancelled

-- applyPadding
unfoldable pub apply_padding : Envelope → ℤ → Envelope
apply_padding env bucket =
    let n = length env.payload in
    let b = pos_part bucket in
    let target = ((n + b - 1) / b) * b in
    if leb_ℤ bucket (pos 0) || nat_eq n 0 then env else record env {
      payload = env.payload ++ replicate (target - n) 0;
      padded_to = target % 2 ^ 32;
    }

-- The window of iso20022 keys: the configured hours, at least 72, as a duration.
unfoldable pub iso_dedup_ttl : ℤ → ℤ
unfolding to_int64
iso_dedup_ttl hours =
    to_int64 (pos_part (if ltb_ℤ hours (pos 72) then pos 72 else hours) * 3_600_000_000_000)

-- Gateway.GetNodeInfo
unfoldable pub get_node_info : Gateway → NodeInfo
get_node_info g = record {
  node_id = g.cfg.node.node_id;
  node_scope = g.cfg.node.node_scope;
  region = g.cfg.node.region;
  applicable_law = g.cfg.node.applicable_law;
  profile = g.cfg.profile.name;
}

unfoldable pub emit_if : Bool → Event → List Event → List Event
emit_if b e events = if b then events ++ e ∷ [] else events

-- The request that the engine gets.
unfoldable pub policy_request : Envelope → Request
policy_request env = record {
  sender_node_id = env.sender_node_id;
  sender_region = env.sender_region;
  recipient_region = env.recipient_region;
  trust_tier = env.trust_tier;
  schema_type = env.schema_type;
  schema_version = env.schema_version;
}

unfoldable pub or_same {ℓ} : {A : Type ℓ} → Option A → A → A
or_same none a = a
or_same (some b) a = b

hash_or_empty : Option String → String
hash_or_empty none = ""
hash_or_empty (some h) = h

module _ (sum32 : String → ℕ) where
  -- The dedup step, with the longer window for iso20022.
  unfoldable pub check_duplicate : Config → Envelope → ℤ → Index → Bool × Index
  check_duplicate cfg env now idx =
      if env.schema_type == iso20022
      then seen_or_add_with_ttl sum32 env.idempotency_key
          (iso_dedup_ttl cfg.schema_registry.iso20022.dedup_ttl_h) now idx
      else seen_or_add sum32 env.idempotency_key now idx

module _ {B : Type 0} (store : AuditStore B) (sum : Payload → String) where
  -- The entry for dummy traffic, which carries no tier and no schema.
  unfoldable pub audit_dummy : Config → Envelope → ℤ → Log B → Log B
  audit_dummy cfg env now l =
      (append store sum cfg
        (record {
          decision = decision_dummy;
          reason = "DUMMY_TRAFFIC";
          trust_tier = 0;
          sender_region = env.sender_region;
          recipient_region = env.recipient_region;
          schema_type = "";
          schema_version = "";
        })
        now l).1

  unfoldable pub audit_duplicate : Config → Envelope → ℤ → Log B → Log B
  audit_duplicate cfg env now l =
      (append store sum cfg
        (record {
          decision = decision_duplicate;
          reason = "DUPLICATE_IDEMPOTENCY_KEY";
          trust_tier = env.trust_tier;
          sender_region = env.sender_region;
          recipient_region = env.recipient_region;
          schema_type = env.schema_type;
          schema_version = env.schema_version;
        })
        now l).1

  -- The finality entry, if the envelope is one of iso20022 and finality is configured.
  unfoldable pub audit_finality : Config → Envelope → ℤ → Log B → Log B
  audit_finality cfg env now l =
      if env.schema_type == iso20022 && cfg.schema_registry.iso20022.settlement_finality
      then (append_finality store sum cfg env.sender_region env.recipient_region env.schema_version
          now l).1
      else l

  module _ {F : Type 0} (forwarder : Forwarder F) where
    -- What follows a successful ACK.
    unfoldable pub acknowledged :
        Gateway → Envelope → Moment → Option String → State B F → Option String × State B F
    acknowledged g env m none s = (none, s)
    acknowledged g env m (some hash) s =
        (some hash, record s { audit = audit_finality g.cfg env m.finality_now s.audit })

    -- The forwarding of an allowed envelope: jitter, padding, the forwarder, finality.
    unfoldable pub forward_allowed :
        Gateway → Envelope → Moment → State B F → Option String × State B F
    unfolding acknowledged
    forward_allowed g env m s =
        if g.has_forwarder && apply_jitter g.cfg.profile.timing_jitter_max m.cancelled
        then (let (ack, f) =
              forwarder.forward (apply_padding env g.cfg.profile.padding_bucket) s.forwarder in
            acknowledged g env m ack (record s { forwarder = f }))
        else (none, s)

    -- The branch on the engine's decision.
    unfoldable pub dispatch :
        Gateway → Envelope → Moment → Result → Decision → State B F → Option String × State B F
    unfolding emit_if
    dispatch g env m r allow s = forward_allowed g env m (record s {
      events =
          emit_if g.has_notifier (notified env) (emit_if g.has_on_allow (on_allow env) s.events);
    })
    dispatch g env m r deny s =
        (none, record s { events = emit_if g.has_on_deny (on_deny r.reason) s.events })

    -- The engine's verdict on an envelope that is neither dummy nor duplicate, and what follows.
    unfoldable pub process : Gateway → Envelope → Moment → State B F → SendResponse × State B F
    unfolding or_same hash_or_empty
    process g env m s =
        let (r, log) =
          evaluate store sum g.policy (policy_request env) m.audit_now (some s.audit) in
        let (peer_hash, s') =
          dispatch g env m r r.decision (record s { audit = or_same log s.audit }) in
        (
          record {
            decision = decision_text r.decision;
            reason = r.reason;
            profile = r.profile;
            node_id = g.cfg.node.node_id;
            audit_root_hash = s'.audit.root;
            peer_audit_root_hash = hash_or_empty peer_hash;
          },
          s',
        )

    unfoldable pub respond : Gateway → String → String → State B F → SendResponse × State B F
    respond g decision reason s = (
      record {
        decision = decision;
        reason = reason;
        profile = g.cfg.profile.name;
        node_id = g.cfg.node.node_id;
        audit_root_hash = s.audit.root;
        peer_audit_root_hash = "";
      },
      s,
    )

    module _ (sum32 : String → ℕ) where
      -- `SendEnvelope` for an envelope with a key and a normalised schema type.
      unfoldable pub admit : Gateway → Envelope → Moment → State B F → SendResponse × State B F
      unfolding emit_if
      admit g env m s =
          let (dup, idx) = check_duplicate sum32 g.cfg env m.dedup_now s.dedup in
          if env.is_dummy
          then respond g "ALLOW" "DUMMY_TRAFFIC"
              (record s { audit = audit_dummy g.cfg env m.audit_now s.audit })
          else if dup
          then respond g "DUPLICATE" "idempotency_key already processed" (record s {
            dedup = idx;
            audit = audit_duplicate g.cfg env m.audit_now s.audit;
            events = emit_if g.has_on_duplicate on_duplicate s.events;
          })
          else process g env m (record s { dedup = idx })

      -- Gateway.SendEnvelope
      unfoldable pub send_envelope :
          Gateway
          → Envelope
          → Moment
          → State B F
          → (Option GatewayError × Option SendResponse) × State B F
      send_envelope g env m s =
          let env' = record env { schema_type = normalize env.schema_type } in
          let (response, s') = admit g env' m s in
          if env.idempotency_key == ""
          then ((some empty_idempotency_key, none), s)
          else ((none, some response), s')
