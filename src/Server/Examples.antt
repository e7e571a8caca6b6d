-- ===== src/Server/Examples.antt =====
-- The endpoints' theorems at concrete requests.
use mrmi_gateway.Prelude.{
  ℕ, ◌+◌, pos, ◌+ℤ◌, String, false, none, some, Option, List, [], ◌∷◌, ◌≡◌, refl, arith, eq_iff,
  get_elem?,
}
use mrmi_gateway.Prelude.Map
use mrmi_gateway.Prelude.Int.{to_int64}
use mrmi_gateway.Prelude.Text.{
  trim_space, trim_left, trim_right, is_space, contains, equal_fold, codes_eq, to_lower,
  to_lower_code,
}
use mrmi_gateway.Policy
use mrmi_gateway.Gateway
use mrmi_gateway.Config.{ApiConfig, hours}
use mrmi_gateway.Config.Presets.{base_config}
use mrmi_gateway.Schema.{normalize}
use mrmi_gateway.Audit
use mrmi_gateway.Audit.{StoreEntry}
use mrmi_gateway.Dedup
use mrmi_gateway.Dedup.Laws.{new-IsValid}
use mrmi_gateway.Delivery.Dlq
use mrmi_gateway.Delivery.Dlq.{Entry, entry_for}
use mrmi_gateway.Gateway.{State, Forwarder, check_duplicate, iso_dedup_ttl}
use mrmi_gateway.Gateway.Trail.{normalized, send}
use mrmi_gateway.Gateway.Resend.{window, run}
use mrmi_gateway.Server.{Reply, bare, done, Caller, guard}
use mrmi_gateway.Server.Access.{Guarded, guard-Guarded}
use mrmi_gateway.Server.Queue.{SharedQueue, ReplayAnswer, replay}
use mrmi_gateway.Server.Queue.Replay.{Replayed, replay-Replayed, replay-duplicate}
use mrmi_gateway.Samples.{envelope, backend, digest, key_hash, gateway, moment}

-- Tokens that are their own scope.
abbrev scope_of : String → String → Option String
scope_of secret token = some token

abbrev api : ApiConfig
api = record { api_key = "k"; jwt_secret = "s" }

abbrev caller : Caller
caller = record { is_options = false; key = ""; authorization = "Bearer operator" }

abbrev count_up : ℕ → Reply Unit × ℕ
count_up n = (bare 204, n + 1)

guard-Guarded_example :
    Guarded scope_of api "operator" caller count_up 3
      (guard scope_of api "operator" caller count_up 3)
guard-Guarded_example = guard-Guarded scope_of api "operator" caller count_up 3

-- A forwarder whose peer is away: what it gets goes to the queue.
abbrev failing : Forwarder (List Entry)
failing = record { forward = λ env q. (none, Dlq.append (entry_for env "by:7777") (pos 3) q) }

abbrev queue : SharedQueue (List Entry)
queue = record { entries = λ q. q; with_entries = λ q _. q; entries-with_entries = λ _ _. refl }

abbrev start : State (List StoreEntry) (List Entry)
start = record { audit = Audit.new; dedup = Dedup.new (hours 24); forwarder = []; events = [] }

abbrev letter : Entry
letter = entry_for (envelope "z9" "BY") "by:7777"

abbrev with_letter : State (List StoreEntry) (List Entry)
with_letter = record start { forwarder = letter ∷ [] }

replay-Replayed_example :
    Replayed backend digest failing key_hash queue gateway
      (some (pos 0))
      (moment 5)
      with_letter
      (replay backend digest failing key_hash queue gateway (some (pos 0)) (moment 5) with_letter)
replay-Replayed_example =
    replay-Replayed backend digest failing key_hash queue gateway (some (pos 0)) (moment 5)
      with_letter

abbrev held : State (List StoreEntry) (List Entry)
held =
    run backend digest failing key_hash gateway []
      (send backend digest failing key_hash gateway (envelope "a1" "BY") (moment 5) start).1

-- What the forwarder has left in the queue.
abbrev dead : Entry
dead = record (entry_for (envelope "a1" "BY") "by:7777") { first_seen_unix = pos 3 }

held-dead : get_elem? held.forwarder 0 ≡ some dead
unfolding run normalize trim_space trim_left trim_right is_space Gateway.send_envelope Gateway.admit
    Gateway.process Gateway.dispatch Gateway.forward_allowed Gateway.acknowledged
    Gateway.policy_request Gateway.apply_jitter Gateway.apply_padding Gateway.or_same
    Gateway.emit_if check_duplicate Dedup.seen_or_add_with_ttl Dedup.seen_or_add
    Dedup.seen_or_add_in Dedup.live Dedup.new Dedup.shard_for iso_dedup_ttl to_int64 base_config
    ◌+ℤ◌ Map.lookup Map.insert Policy.evaluate Policy.decide Policy.is_local Policy.else_deny
    Policy.revoked Policy.is_empty Policy.evaluate_jurisdiction_isolation Policy.isolate
    Policy.append_audit contains Dlq.append entry_for equal_fold codes_eq to_lower to_lower_code
held-dead = refl

replay-duplicate_example :
    (response : ReplayAnswer) × (s' : State (List StoreEntry) (List Entry)) × (replay backend digest
        failing key_hash queue gateway
        (some (pos 0))
        (moment 7)
        held
      ≡ (done 200 response, s'))
    × (response.decision ≡ "DUPLICATE")
    × (s'.forwarder ≡ Dlq.remove (pos 0) held.forwarder)
    × (s'.forwarder ≡ Dlq.remove (pos 0) held.forwarder)
unfolding check_duplicate window normalized normalize Dedup.seen_or_add_with_ttl Dedup.seen_or_add
    Dedup.seen_or_add_in Dedup.live Dedup.new iso_dedup_ttl to_int64 base_config ◌+ℤ◌ Map.lookup
    Map.insert Dedup.shard_for entry_for
replay-duplicate_example =
    replay-duplicate backend digest failing key_hash queue gateway (envelope "a1" "BY") dead (pos 0)
      (moment 5) (moment 7) [] start (new-IsValid (hours 24)) (ground (arith, eq_iff "a1" "")) refl
      refl tt refl refl (omega arith) (omega arith) held-dead
