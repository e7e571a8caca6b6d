-- ===== src/Transport/Search.antt =====
-- internal/transport/grpc/adapter.go: `BroadcastDiscovery`. The world of the broadcaster also draws
-- the random tokens; maps are visited in the order of their lists. A read of the clock is an
-- argument; tokens that the randomness fails to give leave the store alone, so one instant is enough
-- for the calls of `Issue`.
pub mod Own
pub mod Isolation
pub mod Laws
use mrmi_gateway.Prelude.{
  ℕ, ◌+◌, ℤ, pos, ◌+ℤ◌, leb_ℤ, String, Bool, true, false, not, Option, none, some, List, [], ◌∷◌,
  ◌==◌, if◌then◌else◌,
}
use mrmi_gateway.Prelude.Map.{Map}
use mrmi_gateway.Config.{Config, AppConfig, UserConfig, minutes}
use mrmi_gateway.Delivery.Retry.{unix_milli}
use mrmi_gateway.Dedup.{Index}
use mrmi_gateway.Token
use mrmi_gateway.Policy.{Engine, Decision, allow, deny, evaluate_discovery}
use mrmi_gateway.Discovery.{Request, Response, PeerDialer, Broadcaster, broadcast}
use mrmi_gateway.RateLimit
use mrmi_gateway.RateLimit.{Float64, Limiter}
use mrmi_gateway.Transport.{RpcError, resource_exhausted}

abbrev pub no_match : Response
no_match = record {
  node_id = "";
  app_id = "";
  opaque_token = "";
  display_hint = "";
  match_type = "";
  token_expires = pos 0;
}

-- The parts that a call changes: the limiter, the counter of limited calls, the broadcaster's index,
-- the token store and the world.
pub record State (R W : Type 0) : Type 0 where
  pub limiter : Option (Limiter R)
  pub rate_limit_denies : Option ℕ
  pub index : Index
  pub tokens : Token.Store
  pub world : W

-- The parts that it does not change.
pub record Node : Type 0 where
  pub cfg : Config
  pub broadcaster : Option Broadcaster
  pub policy_eng : Option Engine

pub record Moment : Type 0 where
  pub limit_now : ℤ
  pub now_ms : ℤ
  pub index_now : ℤ
  pub issue_now : ℤ
  pub expires_now : ℤ

-- The calls outside the process.
pub record Outside (W : Type 0) : Type 0 where
  pub dialer : PeerDialer W
  pub random : W → Option String × W

-- The first app that the node serves, empty if there is none.
unfoldable pub first_app : Map AppConfig → String
first_app [] = ""
first_app ((app_id, _) ∷ _) = app_id

unfoldable pub is_isolated : Node → Request → Bool
unfolding first_app
is_isolated n req = elim n.policy_eng [
  | none ↦ false
  | some e ↦
      elim (evaluate_discovery e (record {
        origin_app_id = req.origin_app_id;
        node_app_id = first_app n.cfg.apps;
      })).decision [ allow ↦ false | deny ↦ true ]
]

-- The time to live of a token, five minutes if it is not configured.
unfoldable pub token_ttl : Config → ℤ
token_ttl cfg =
    if leb_ℤ cfg.node.discovery_token_ttl (pos 0) then minutes 5 else cfg.node.discovery_token_ttl

unfoldable pub limited :
    {R : Type 0} → Float64 R → String → ℤ → Option (Limiter R) → Bool × Option (Limiter R)
limited f key now none = (false, none)
limited f key now (some l) = let (ok, l') = RateLimit.allow f key now l in (not ok, some l')

first_response : List Response → Option Response
first_response [] = none
first_response (r ∷ _) = some r

abbrev pub count : Option ℕ → Option ℕ
count none = none
count (some n) = some (n + 1)

module _ {W : Type 0} (out : Outside W) (hash : String → String) where
  -- The loop over the users of an app: the first token that is issued.
  unfoldable pub search_users :
      Config
      → String
      → Request
      → Moment
      → Map UserConfig
      → Token.Store × W
      → Option Response × (Token.Store × W)
  unfolding token_ttl unix_milli
  search_users cfg app_id req m [] (tokens, w) = (none, (tokens, w))
  search_users cfg app_id req m ((_, u) ∷ users) (tokens, w) =
      let (token, w') = out.random w in
      let rest = search_users cfg app_id req m users (tokens, w') in
      elim token [
        | none ↦ rest
        | some t ↦ (
          some (record {
            node_id = cfg.node.node_id;
            app_id = app_id;
            opaque_token = t;
            display_hint = u.display_hint;
            match_type = "exact";
            token_expires = unix_milli (m.expires_now +ℤ token_ttl cfg);
          }),
          (
            (Token.issue hash (some t) app_id req.origin_node_id (token_ttl cfg) m.issue_now
                tokens).1,
            w',
          ),
        )
      ]

  -- The loop over the apps.
  unfoldable pub search_apps :
      Config
      → Request
      → Moment
      → Map AppConfig
      → Token.Store × W
      → Option Response × (Token.Store × W)
  unfolding search_users
  search_apps cfg req m [] s = (none, s)
  search_apps cfg req m ((app_id, app) ∷ apps) s =
      let (found, s') = search_users cfg app_id req m app.users s in
      let rest = search_apps cfg req m apps s' in elim found [ none ↦ rest | some r ↦ (some r, s') ]

  module _ {R : Type 0} (f : Float64 R) (sum32 : String → ℕ) where
    -- The search of the node's own users, if no peer has answered.
    unfoldable pub search_own : Node → Request → Moment → State R W → Response × State R W
    unfolding search_apps
    search_own n req m s =
        let (found, r) = search_apps n.cfg req m n.cfg.apps (s.tokens, s.world) in
        let s' = record s { tokens = r.0; world = r.1 } in
        elim found [ none ↦ (no_match, s') | some response ↦ (response, s') ]

    -- The fan-out to the peers and then the node's own users.
    unfoldable pub search : Node → Request → Moment → State R W → Response × State R W
    unfolding first_response search_own
    search n req m s = elim n.broadcaster [
      | none ↦ search_own n req m s
      | some b ↦
          let (found, r) =
            broadcast out.dialer sum32 b req m.now_ms m.index_now (s.index, s.world) in
          let s' = record s { index = r.0; world = r.1 } in
          elim (first_response found) [
            | none ↦ search_own n req m s'
            | some response ↦ (response, s')
          ]
    ]

    -- gatewayAdapter.BroadcastDiscovery, with a token store
    unfoldable pub broadcast_discovery :
        Node → Request → Moment → State R W → (Option RpcError × Response) × State R W
    unfolding limited is_isolated search
    broadcast_discovery n req m s =
        let (over, limiter) = limited f req.origin_node_id m.limit_now s.limiter in
        let s₁ = record s { limiter = limiter } in
        let (response, s₂) = search n req m s₁ in
        if over
        then (
          (some (resource_exhausted req.origin_node_id), no_match),
          record s₁ { rate_limit_denies = count s.rate_limit_denies },
        )
        else if is_isolated n req
        then ((none, no_match), s₁)
        else ((none, response), s₂)

    -- gatewayAdapter.BroadcastDiscovery; a node without a token store has none of the state.
    unfoldable pub serve :
        Node
        → Request
        → Moment
        → Option (State R W)
        → (Option RpcError × Response) × Option (State R W)
    unfolding broadcast_discovery
    serve n req m none = ((none, no_match), none)
    serve n req m (some s) = let (answer, s') = broadcast_discovery n req m s in (answer, some s')
