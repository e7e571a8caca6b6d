-- ===== src/App/Gossip.antt =====
-- internal/app/app.go: `runPeerGossip` and `runGossip`. The connections and the remote calls are an
-- interface over a state W; the goroutines of one tick run one after the other.
use mrmi_gateway.Prelude.{
  ℤ, pos, leb_ℤ, String, Bool, not, Option, none, some, List, [], ◌∷◌, map, if◌then◌else◌,
}
use mrmi_gateway.Prelude.Map.{Map}
use mrmi_gateway.Config.{Config, PeerConfig, seconds}
use mrmi_gateway.Peers.{PeerInfo, Registry, announce, known, evict_stale}
use mrmi_gateway.Transport.Exchange.{Entry, RootHashMessage, to_entry, merge}

-- `dial` says whether there is a client; `exchange` is the client's ExchangePeers, none for an error.
pub record Dialer (W : Type 0) : Type 0 where
  pub dial : String → W → Bool × W
  pub exchange : String → List Entry → W → Option (List Entry) × W
  pub share : RootHashMessage → W → W
  pub close : W → W

-- The interval of the gossip, two minutes if it is not configured.
unfoldable pub gossip_interval : Config → ℤ
gossip_interval cfg =
    if leb_ℤ cfg.network.peer_gossip_interval (pos 0)
    then seconds 120
    else cfg.network.peer_gossip_interval

-- The static peers of the configuration, under their regions.
unfoldable pub seed : Map PeerConfig → ℤ → Registry → Registry
seed [] now r = r
seed ((_, p) ∷ peers) now r = seed peers now (
    announce
      (record {
        node_id = p.region;
        addr = p.addr;
        node_scope = p.node_scope;
        region = p.region;
        last_seen = pos 0;
      })
      now r)

module _ {W : Type 0} (dialer : Dialer W) where
  merge_answer : Option (List Entry) → ℤ → Registry → Registry
  merge_answer none now r = r
  merge_answer (some es) now r = merge es now r

  -- dialAndExchange
  unfoldable pub dial_and_exchange : Config → String → ℤ → Registry × W → Registry × W
  unfolding merge_answer
  dial_and_exchange cfg addr now (r, w) =
      let (dialed, w₁) = dialer.dial addr w in
      let (answer, w₂) = dialer.exchange cfg.node.node_id (map to_entry (known r)) w₁ in
      if not dialed then (r, w₁) else (merge_answer answer now r, dialer.close w₂)

  -- The bootstrap nodes, once.
  unfoldable pub bootstrap : Config → List String → ℤ → Registry × W → Registry × W
  unfolding dial_and_exchange
  bootstrap cfg [] now s = s
  bootstrap cfg (addr ∷ addrs) now s = bootstrap cfg addrs now (dial_and_exchange cfg addr now s)

  exchange_all : Config → List PeerInfo → ℤ → Registry × W → Registry × W
  exchange_all cfg [] now s = s
  exchange_all cfg (p ∷ ps) now s = exchange_all cfg ps now (dial_and_exchange cfg p.addr now s)

  -- A tick of `runPeerGossip`: peers that were not seen for five intervals go, the others are called.
  unfoldable pub gossip_tick : Config → ℤ → ℤ → Registry × W → Registry × W
  unfolding exchange_all
  gossip_tick cfg stale_age now (r, w) =
      let r' = evict_stale stale_age now r in exchange_all cfg (known r') now (r', w)

  -- A tick of `runGossip`.
  unfoldable pub share_root_hash : RootHashMessage → Map PeerConfig → W → W
  share_root_hash msg [] w = w
  share_root_hash msg ((_, p) ∷ peers) w =
      let (dialed, w₁) = dialer.dial p.addr w in
      share_root_hash msg peers (if not dialed then w₁ else dialer.close (dialer.share msg w₁))
