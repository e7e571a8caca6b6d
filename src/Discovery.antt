-- ===== src/Discovery.antt =====
-- internal/discovery/broadcaster.go: the fan-out of discovery requests to the peers. Dialing and the
-- remote call are an interface over a state W of the world; the map of peers is visited in the order
-- of its list. The clock is read twice, for the staleness test and in the dedup index.
pub mod Laws
mod Examples
use mrmi_gateway.Prelude.{
  ℕ, ◌-◌, nat_eq, ℤ, pos, ◌-ℤ◌, ltb_ℤ, String, Bool, true, false, not, ◌&&◌, Option, none, some,
  List, [], ◌∷◌, ◌==◌, if◌then◌else◌,
}
use mrmi_gateway.Prelude.Map.{Map}
use mrmi_gateway.Dedup
use mrmi_gateway.Dedup.{Index, seen_or_add}

pub record Request : Type 0 where
  pub query_hash : String
  pub query_type : String
  pub origin_node_id : String
  pub origin_app_id : String
  pub hop_limit : ℕ
  pub request_id : String
  pub timestamp : ℤ

pub record Response : Type 0 where
  pub node_id : String
  pub app_id : String
  pub opaque_token : String
  pub display_hint : String
  pub match_type : String
  pub token_expires : ℤ

-- `dial` says whether there is a client; `ask` is the client's BroadcastDiscovery, none for an error
-- and `some none` for a nil response; `close` closes the client.
pub record PeerDialer (W : Type 0) : Type 0 where
  pub dial : String → W → Bool × W
  pub ask : String → Request → W → Option (Option Response) × W
  pub close : String → W → W

pub record Broadcaster : Type 0 where
  pub peers : Map String

-- staleness, in milliseconds
abbrev pub staleness : ℤ
staleness = pos 30000

unfoldable pub is_stale : ℤ → Request → Bool
is_stale now_ms req = ltb_ℤ (pos 0) req.timestamp && ltb_ℤ staleness (now_ms -ℤ req.timestamp)

-- What a peer's answer adds to the results.
unfoldable pub collect : Option (Option Response) → List Response → List Response
collect none rest = rest
collect (some none) rest = rest
collect (some (some r)) rest = if not (r.opaque_token == "") then r ∷ rest else rest

module _ {W : Type 0} (dialer : PeerDialer W) where
  -- The loop over the peers.
  unfoldable pub ask_peers : Request → Map String → W → List Response × W
  unfolding collect
  ask_peers forward [] w = ([], w)
  ask_peers forward ((_, addr) ∷ peers) w =
      let (dialed, w₁) = dialer.dial addr w in
      let (answer, w₂) = dialer.ask addr forward w₁ in
      let (rest, w₃) = ask_peers forward peers (dialer.close addr w₂) in
      let skipped = ask_peers forward peers w₁ in
      if not dialed then skipped else (collect answer rest, w₃)

  module _ (sum32 : String → ℕ) where
    -- Broadcaster.Broadcast
    unfoldable pub broadcast :
        Broadcaster → Request → ℤ → ℤ → Index × W → List Response × (Index × W)
    unfolding is_stale
    broadcast b req now_ms now (idx, w) =
        let (seen, idx') = seen_or_add sum32 req.request_id now idx in
        let (results, w') = ask_peers (record req { hop_limit = req.hop_limit - 1 }) b.peers w in
        if is_stale now_ms req
        then ([], (idx, w))
        else if seen
        then ([], (idx', w))
        else if nat_eq req.hop_limit 0
        then ([], (idx', w))
        else (results, (idx', w'))
