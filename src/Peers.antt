-- ===== src/Peers.antt =====
-- internal/peerdiscovery/registry.go and internal/peercache/cache.go: the peers that gossip has
-- told of, and their latest root hashes. `now` is the instant that time.Now() returns in the call.
use mrmi_gateway.Prelude.{ℤ, ◌-ℤ◌, ltb_ℤ, String, not, List, [], ◌∷◌}
use mrmi_gateway.Prelude.Map
use mrmi_gateway.Prelude.Map.{Map}

-- peerdiscovery.PeerInfo
pub record PeerInfo : Type 0 where
  pub node_id : String
  pub addr : String
  pub node_scope : String
  pub region : String
  pub last_seen : ℤ

-- peerdiscovery.Registry
pub record Registry : Type 0 where
  pub peers : Map PeerInfo

abbrev pub empty : Registry
empty = record { peers = [] }

-- Registry.Announce
unfoldable pub announce : PeerInfo → ℤ → Registry → Registry
announce peer now r = record {
  peers = Map.insert peer.node_id (record peer { last_seen = now }) r.peers;
}

-- Registry.Evict
unfoldable pub evict : String → Registry → Registry
evict node_id r = record { peers = Map.delete node_id r.peers }

values : Map PeerInfo → List PeerInfo
values [] = []
values ((_, p) ∷ rest) = p ∷ values rest

-- Registry.Known
unfoldable pub known : Registry → List PeerInfo
unfolding values
known r = values r.peers

-- Registry.EvictStale
unfoldable pub evict_stale : ℤ → ℤ → Registry → Registry
evict_stale max_age now r = record {
  peers = Map.retain (λ _ p. not (ltb_ℤ p.last_seen (now -ℤ max_age))) r.peers;
}

-- peercache.Entry
pub record RootHash : Type 0 where
  pub root_hash : String
  pub timestamp : ℤ

-- peercache.Cache
pub record Cache : Type 0 where
  pub entries : Map RootHash

-- Cache.Store
unfoldable pub store : String → String → ℤ → Cache → Cache
store node_id root_hash timestamp c = record {
  entries = Map.insert node_id (record { root_hash = root_hash; timestamp = timestamp }) c.entries;
}

-- Cache.All, a copy
unfoldable pub all : Cache → Map RootHash
all c = c.entries
