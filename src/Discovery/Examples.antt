-- ===== src/Discovery/Examples.antt =====
-- The broadcaster's theorems at a concrete request and a peer that answers.
use mrmi_gateway.Prelude.{ℕ, ◌+◌, ◌-◌, pos, ◌+ℤ◌, ◌-ℤ◌, true, some, [], ◌∷◌, ◌≡◌, refl, arith}
use mrmi_gateway.Prelude.Map
use mrmi_gateway.Config.{hours}
use mrmi_gateway.Dedup
use mrmi_gateway.Dedup.{Index}
use mrmi_gateway.Dedup.Laws.{new-IsValid}
use mrmi_gateway.Dedup.Window.{run}
use mrmi_gateway.Discovery.{Request, Response, PeerDialer, Broadcaster, is_stale, broadcast}
use mrmi_gateway.Discovery.Laws.{
  Forwards, Round, HaveTokens, asked, unasked, broadcast-Forwards, broadcast_once,
}
use mrmi_gateway.Samples.{key_hash}

abbrev request : Request
request = record {
  query_hash = "q1";
  query_type = "user_id";
  origin_node_id = "n1";
  origin_app_id = "chat";
  hop_limit = 3;
  request_id = "r1";
  timestamp = pos 1000;
}

abbrev answer : Response
answer = record {
  node_id = "n2";
  app_id = "chat";
  opaque_token = "t1";
  display_hint = "Ana";
  match_type = "exact";
  token_expires = pos 9000;
}

-- A peer that answers; the world counts the calls.
abbrev dialer : PeerDialer ℕ
dialer = record {
  dial = λ _ n. (true, n);
  ask = λ _ _ n. (some (some answer), n + 1);
  close = λ _ n. n;
}

abbrev broadcaster : Broadcaster
broadcaster = record { peers = ("BY", "by:7777") ∷ [] }

abbrev index : Index
index = Dedup.new (hours 1)

broadcast-Forwards_example :
    (Forwards dialer key_hash request (pos 2000) (pos 5) index
      → Round dialer
          (record request { hop_limit = 3 - 1 })
          broadcaster.peers
          0
          (broadcast dialer key_hash broadcaster request (pos 2000) (pos 5) (index, 0)).0
          (broadcast dialer key_hash broadcaster request (pos 2000) (pos 5) (index, 0)).1.1)
    × (¬ Forwards dialer key_hash request (pos 2000) (pos 5) index
        → asked dialer (broadcast dialer key_hash broadcaster request (pos 2000) (pos 5) (index, 0))
          ≡ unasked dialer 0)
    × HaveTokens (broadcast dialer key_hash broadcaster request (pos 2000) (pos 5) (index, 0)).0
broadcast-Forwards_example =
    broadcast-Forwards dialer key_hash broadcaster request (pos 2000) (pos 5) index 0

broadcast_once_example :
    asked dialer (
      broadcast dialer key_hash broadcaster request (pos 2100) (pos 9) (
        run key_hash []
            (broadcast dialer key_hash broadcaster request (pos 2000) (pos 5) (index, 0)).1.0,
        1,
      ))
    ≡ unasked dialer 1
unfolding is_stale ◌-ℤ◌ ◌+ℤ◌ Dedup.new Dedup.seen_or_add Dedup.seen_or_add_with_ttl
    Dedup.seen_or_add_in Dedup.live Dedup.shard_for Map.lookup
broadcast_once_example =
    broadcast_once dialer key_hash broadcaster request request (pos 2000) (pos 5) (pos 2100) (pos 9)
      index 0 1 [] (new-IsValid (hours 1)) refl refl refl tt (omega arith)
