-- ===== src/Transport/Exchange.antt =====
-- internal/transport/grpc/adapter.go: `ShareRootHash` and `ExchangePeers`. The calls of `Announce` in
-- one handler read the clock one after the other; the model gives them one instant.
pub mod Laws
use mrmi_gateway.Prelude.{
  ℤ, pos, String, Bool, not, ◌&&◌, Option, none, some, List, [], ◌∷◌, map, ◌==◌, if◌then◌else◌,
}
use mrmi_gateway.Delivery.Retry.{unix}
use mrmi_gateway.Peers
use mrmi_gateway.Peers.{PeerInfo, Registry, announce, known}

-- PeerEntry
pub record Entry : Type 0 where
  pub node_id : String
  pub addr : String
  pub node_scope : String
  pub region : String
  pub last_seen : ℤ

-- RootHashMessage
pub record RootHashMessage : Type 0 where
  pub node_id : String
  pub root_hash : String
  pub timestamp : ℤ

-- gatewayAdapter.ShareRootHash, which accepts every message
unfoldable pub share_root_hash : RootHashMessage → Option Peers.Cache → Option Peers.Cache
share_root_hash msg none = none
share_root_hash msg (some c) = some (Peers.store msg.node_id msg.root_hash msg.timestamp c)

abbrev pub peer_info : Entry → PeerInfo
peer_info e = record {
  node_id = e.node_id;
  addr = e.addr;
  node_scope = e.node_scope;
  region = e.region;
  last_seen = pos 0;
}

-- The loop over the peers that the sender knows.
unfoldable pub merge : List Entry → ℤ → Registry → Registry
merge [] now r = r
merge (e ∷ es) now r = merge es now (announce (peer_info e) now r)

-- The loop that records the sender.
unfoldable pub record_sender : String → List Entry → ℤ → Registry → Registry
record_sender sender [] now r = r
record_sender sender (e ∷ es) now r =
    record_sender sender es now (if e.node_id == sender then announce (peer_info e) now r else r)

unfoldable pub to_entry : PeerInfo → Entry
unfolding unix
to_entry p = record {
  node_id = p.node_id;
  addr = p.addr;
  node_scope = p.node_scope;
  region = p.region;
  last_seen = unix p.last_seen;
}

-- What the handler does to the registry.
unfoldable pub receive : String → String → List Entry → ℤ → Registry → Registry
unfolding merge record_sender
receive own_id sender es now r =
    let merged = merge es now r in
    if not (sender == "") && not (sender == own_id)
    then record_sender sender es now merged
    else merged

-- gatewayAdapter.ExchangePeers, for the node with the identifier `own_id`
unfoldable pub exchange_peers :
    String → String → List Entry → ℤ → Option Registry → List Entry × Option Registry
unfolding receive to_entry
exchange_peers own_id sender es now none = ([], none)
exchange_peers own_id sender es now (some r) =
    let r' = receive own_id sender es now r in (map to_entry (known r'), some r')
