-- ===== src/Delivery/Examples.antt =====
-- The theorems on delivery at a concrete world, queue and configuration.
use mrmi_gateway.Prelude.{
  ℕ, zero, suc, pos, String, Option, none, some, List, [], ◌∷◌, ◌++◌, ◌≡◌, ◌↔◌, arith, All,
}
use mrmi_gateway.Prelude.Int.{◌≤ℤ◌}
use mrmi_gateway.Config.{Config, PeerConfig, seconds, minutes}
use mrmi_gateway.Delivery.Dlq.{Entry}
use mrmi_gateway.Delivery.Retry.{World, RetryPolicy, send_with_retry}
use mrmi_gateway.Delivery.Retry.Laws.{metered, start, Ends, send_with_retry-waits}
use mrmi_gateway.Prelude.{refl, ◌==◌, ◌+◌, if◌then◌else◌}
use mrmi_gateway.Prelude.Map
use mrmi_gateway.Prelude.Text.{contains}
use mrmi_gateway.Config.Presets.{base_config}
use mrmi_gateway.Delivery.Retry.{attempt_loop, give_up, note_failure}
use mrmi_gateway.Delivery.Forwarder.{
  route, route_to, try_peers, tiers_for, add_peer, order_peers, delivered, first_addr, link,
  check_cutoff_window, Net, State, peers_for, forward,
}
use mrmi_gateway.Delivery.Forwarder.Paths.{AllScope, In, IsCandidate, peers_for_lem}
use mrmi_gateway.Delivery.Forwarder.Success.{TakenBy, candidates, forward-TakenBy}
use mrmi_gateway.Delivery.Forwarder.Promise
use mrmi_gateway.Delivery.Forwarder.Promise.{forward-Ends}
use mrmi_gateway.Schema.Window.{Zone}
use mrmi_gateway.Samples.{envelope, config}

-- A world with a number of failures to come before a send succeeds.
abbrev fail_once : ℕ → Option String × ℕ
fail_once zero = (none, zero)
fail_once (suc n) = (some "unavailable", n)

abbrev flaky : World ℕ
flaky = record { send = fail_once; wait = λ d n. (none, n); now = λ n. (pos 5, n) }

abbrev entry : Entry
entry = record {
  envelope = envelope "a1" "BY";
  peer_addr = "by:7777";
  attempts = 0;
  last_err = "";
  first_seen_unix = pos 0;
  last_attempt_unix = pos 0;
  reason = "";
  next_open_unix = pos 0;
}

abbrev three_tries : RetryPolicy
three_tries = record {
  base_delay = seconds 1;
  multiply = λ d. d;
  cap_delay = minutes 5;
  max_attempts = 3;
}

send_with_retry-waits_example :
    All
      (λ d. d ≤ℤ minutes 5)
      (send_with_retry (metered flaky) three_tries (some []) entry (start 7)).world.waits
send_with_retry-waits_example =
    send_with_retry-waits flaky three_tries (some []) entry 7 (omega arith)

abbrev peer : String → String → PeerConfig
peer region scope = record {
  region = region;
  addr = region;
  node_scope = scope;
  regions = "BY" ∷ [];
}

abbrev networked : Config
networked = record config {
  network = record config.network {
    peers =
        ("BY", peer "BY" "regional")
        ∷ ("EAEU", peer "EAEU" "alliance")
        ∷ ("any", peer "any" "global")
        ∷ [];
  };
}

peers_for_lem_example :
    ((r : List PeerConfig) × (a : List PeerConfig) × (g : List PeerConfig) × (peers_for networked
          "BY"
        ≡ (r ++ a) ++ g)
      × AllScope "regional" r
      × AllScope "alliance" a
      × AllScope "global" g)
    × ((p : PeerConfig)
        → In p (peers_for networked "BY")
          ↔ IsCandidate networked.policy.routing.allow_via "BY" p networked.network.peers)
peers_for_lem_example = peers_for_lem networked "BY"

abbrev offline : Net ℕ
offline = record {
  send = λ addr env n. (("", some "unavailable"), n);
  wait = λ d n. (none, n);
  now = λ n. (pos 5, n);
}

abbrev idle : State ℕ
idle = record { dlq = some []; transit = none; world = 0 }

abbrev no_zones : String → Option Zone
no_zones name = none

forward-Ends_example :
    Promise.Ends offline three_tries networked
      (envelope "a1" "BY")
      (forward offline three_tries no_zones networked (envelope "a1" "BY") idle)
forward-Ends_example =
    forward-Ends offline three_tries no_zones networked (envelope "a1" "BY") idle
      (λ h. absurd (cc h))

-- Only the alliance peer answers.
abbrev partly : Net ℕ
partly = record {
  send = λ addr env n.
      (if addr == "EAEU" then ("sha256:eaeu", none) else ("", some "unavailable"), n + 1);
  wait = λ d n. (none, n);
  now = λ n. (pos 5, n);
}

forward-TakenBy_example :
    TakenBy partly three_tries
      (envelope "a1" "BY")
      (candidates partly three_tries networked (envelope "a1" "BY"))
      (forward partly three_tries no_zones networked (envelope "a1" "BY") idle).0.0
unfolding forward route route_to try_peers peers_for tiers_for add_peer order_peers delivered
    first_addr link check_cutoff_window send_with_retry attempt_loop give_up note_failure contains
    base_config Map.lookup
forward-TakenBy_example =
    forward-TakenBy partly three_tries no_zones networked (envelope "a1" "BY") idle (omega arith)
      refl
