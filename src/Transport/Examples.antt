-- ===== src/Transport/Examples.antt =====
-- The handlers' theorems at concrete requests.
use Prim.Native.String.{◌++◌ as append_text}
use mrmi_gateway.Prelude.{
  ℕ, ◌+◌, ◌*◌, ◌/◌, ℤ, pos, ◌+ℤ◌, ◌-ℤ◌, ltb_ℤ, nat_eq, String, Bool, true, false, none, some, List,
  [], ◌∷◌, ◌≡◌, refl,
}
use mrmi_gateway.Prelude.Int.{pos_part}
use mrmi_gateway.Prelude.Map
use mrmi_gateway.Envelope.{Envelope}
use mrmi_gateway.Identity
use mrmi_gateway.Session.{Tracker}
use mrmi_gateway.Token
use mrmi_gateway.Config.{hours}
use mrmi_gateway.Dedup
use mrmi_gateway.Peers
use mrmi_gateway.Discovery
use mrmi_gateway.RateLimit.{Float64}
use mrmi_gateway.Transport.Envelopes.{send}
use mrmi_gateway.Transport.Envelopes.Laws.{Served, send-Served}
use mrmi_gateway.Transport.Handshake
use mrmi_gateway.Transport.Handshake.{connect}
use mrmi_gateway.Transport.Handshake.Laws.{Handshake, connect-Handshake}
use mrmi_gateway.Transport.Exchange.{Entry, receive}
use mrmi_gateway.Transport.Exchange.Laws.{find, told, last_of, receive-find}
use mrmi_gateway.Transport.Search
use mrmi_gateway.Transport.Search.{Node, Outside, broadcast_discovery}
use mrmi_gateway.Transport.Search.Laws.{Outcome, broadcast_discovery-Outcome}
use mrmi_gateway.Transport.Pool
use mrmi_gateway.Transport.Pool.{Reach, close_all}
use mrmi_gateway.Transport.Pool.Leaks.{NoLeak, IsOpen, Reach-NoLeak}
use mrmi_gateway.Samples.{
  config, engine, envelope, backend, digest, deliver, key_hash, gateway, fresh_state, moment,
}

-- A check of signatures that accepts those that begin with the key.
abbrev valid : ℕ → Identity.Payload → List ℕ → Bool
valid key p [] = false
valid key p (b ∷ _) = nat_eq b key

abbrev signed : Envelope
signed = record (envelope "a1" "BY") { signature = 7 ∷ [] }

abbrev tracker : Tracker
tracker = record { next = [] }

send-Served_example :
    Served valid backend digest deliver key_hash
      (some 7)
      signed
      fresh_state
      (send valid backend digest deliver key_hash gateway
        (some 7)
        signed
        (moment 5)
        (tracker, fresh_state)).0
      (send valid backend digest deliver key_hash gateway
        (some 7)
        signed
        (moment 5)
        (tracker, fresh_state)).1.1
send-Served_example =
    send-Served valid backend digest deliver key_hash gateway (some 7) signed (moment 5) tracker
      fresh_state

abbrev hash : String → String
hash t = append_text "h" t

abbrev issued : Token.Store
issued = (Token.issue hash (some "t1") "chat" "n1" (pos 60) (pos 5) Token.empty).1

abbrev knock : Handshake.Request
knock = record {
  opaque_token = "t1";
  origin_node_id = "n1";
  origin_app_id = "chat";
  request_id = "r1";
}

abbrev knock_moment : Handshake.Moment
knock_moment = record {
  resolve_now = pos 9;
  active_now = pos 10;
  session_now = pos 11;
  session = "s1";
}

connect-Handshake_example :
    Handshake hash
      (some (record { cfg = config }))
      knock
      knock_moment
      issued
      (connect hash (some (record { cfg = config })) knock knock_moment (some issued))
connect-Handshake_example =
    connect-Handshake hash (some (record { cfg = config })) knock knock_moment issued

abbrev entry : String → String → Entry
entry id addr = record {
  node_id = id;
  addr = addr;
  node_scope = "regional";
  region = "BY";
  last_seen = pos 3;
}

abbrev gossip : List Entry
gossip = entry "n1" "a:1" ∷ entry "n2" "b:1" ∷ entry "n1" "a:2" ∷ []

receive-find_example :
    find "n1" (receive "n0" "n1" gossip (pos 9) Peers.empty)
    ≡ told (pos 9) (last_of "n1" gossip) (find "n1" Peers.empty)
receive-find_example = receive-find "n0" "n1" gossip (pos 9) Peers.empty "n1"

-- Whole numbers for float64.
abbrev whole_numbers : Float64 ℤ
whole_numbers = record {
  zero_float = pos 0;
  one_float = pos 1;
  plus = ◌+ℤ◌;
  minus = ◌-ℤ◌;
  times = λ a b. pos (pos_part a * pos_part b);
  less = ltb_ℤ;
  of_int = λ n. n;
  seconds = λ d. pos (pos_part d / 1_000_000_000);
}

-- No peer answers; the world counts the tokens.
abbrev outside : Outside ℕ
outside = record {
  dialer = record { dial = λ _ n. (true, n); ask = λ _ _ n. (none, n); close = λ _ n. n };
  random = λ n. (some "t1", n + 1);
}

abbrev node : Node
node = record {
  cfg = record config {
    apps =
        (
          "chat",
          record {
            webhook_url = "";
            webhook_secret = "";
            webhook_timeout = pos 5;
            auto_accept = "manual";
            users = ("ana", record { display_hint = "Ana"; region = "BY" }) ∷ [];
          },
        )
        ∷ [];
  };
  broadcaster = some (record { peers = ("BY", "by:7777") ∷ [] });
  policy_eng = some engine;
}

abbrev query : Discovery.Request
query = record {
  query_hash = "q1";
  query_type = "user_id";
  origin_node_id = "n1";
  origin_app_id = "chat";
  hop_limit = 3;
  request_id = "r1";
  timestamp = pos 1000;
}

abbrev search_moment : Search.Moment
search_moment = record {
  limit_now = pos 5;
  now_ms = pos 2000;
  index_now = pos 6;
  issue_now = pos 7;
  expires_now = pos 8;
}

abbrev search_state : Search.State ℤ ℕ
search_state = record {
  limiter = some (record { buckets = []; rate = pos 10; burst = pos 2 });
  rate_limit_denies = some 0;
  index = Dedup.new (hours 1);
  tokens = Token.empty;
  world = 0;
}

broadcast_discovery-Outcome_example :
    Outcome outside hash whole_numbers key_hash node query search_moment search_state (
      broadcast_discovery outside hash whole_numbers key_hash node query search_moment search_state)
broadcast_discovery-Outcome_example =
    broadcast_discovery-Outcome outside hash whole_numbers key_hash node query search_moment
      search_state

-- A call that misses, dials and settles.
abbrev pooled : Pool.State
pooled =
    (Pool.settle "by:7777" 0 (record {
      conns = [];
      heap = (record { addr = "by:7777"; pooled = true; is_open = true }) ∷ [];
      calls = [];
    })).1

pooled-Reach : Reach pooled
unfolding Pool.enter Pool.dial Pool.settle Map.lookup
pooled-Reach =
    Pool.later
      (Pool.later (Pool.later Pool.start (Pool.miss "by:7777" Pool.initial refl))
        (Pool.connect "by:7777" [] [] refl))
      (Pool.finish "by:7777" 0 [] [] refl)

Reach-NoLeak_example :
    NoLeak pooled × (pooled.calls ≡ [] → (id : ℕ) → ¬ IsOpen (close_all pooled).heap id)
Reach-NoLeak_example = Reach-NoLeak pooled-Reach
