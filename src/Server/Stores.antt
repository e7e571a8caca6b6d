-- ===== src/Server/Stores.antt =====
-- internal/server/http.go: `RuntimePeers` and `RuntimeApps`, and the endpoints over them. The random
-- key of an app (uuid) and the time are arguments.
use mrmi_gateway.Prelude.{
  ℤ, pos, String, Bool, not, Option, none, some, List, [], ◌∷◌, ◌++◌, ◌==◌, if◌then◌else◌, is_set,
}
use mrmi_gateway.Prelude.Map
use mrmi_gateway.Prelude.Map.{Map}
use mrmi_gateway.Config.{PeerConfig, AppConfig}
use mrmi_gateway.Server.{Reply, failed, bare, done}

-- RuntimePeers
pub record RuntimePeers : Type 0 where
  pub peers : List PeerConfig

-- RuntimePeers.Add
unfoldable pub add_peer : PeerConfig → RuntimePeers → RuntimePeers
add_peer p rp = record { peers = rp.peers ++ p ∷ [] }

-- The body of a request to register a peer.
pub record PeerBody : Type 0 where
  pub node_id : String
  pub addr : String
  pub node_scope : String
  pub region : String

add_given : PeerBody → Option RuntimePeers → Option RuntimePeers
unfolding add_peer
add_given b none = none
add_given b (some rp) = some (
    add_peer (record { region = b.region; addr = b.addr; node_scope = b.node_scope; regions = [] })
      rp)

-- POST /api/v1/peers/register
unfoldable pub register_peer :
    Option PeerBody → Option RuntimePeers → Reply String × Option RuntimePeers
unfolding add_given
register_peer none rp = (failed 400 "invalid request body", rp)
register_peer (some b) rp =
    if b.addr == "" then (failed 400 "addr is required", rp) else (done 200 b.addr, add_given b rp)

-- A line of the list of peers.
pub record PeerLine : Type 0 where
  pub node_id : String
  pub addr : String
  pub node_scope : String
  pub region : String
  pub source : String

unfoldable pub configured_lines : Map PeerConfig → List PeerLine
configured_lines [] = []
configured_lines ((k, p) ∷ peers) =
    record {
      node_id = k;
      addr = p.addr;
      node_scope = p.node_scope;
      region = p.region;
      source = "config";
    }
    ∷ configured_lines peers

unfoldable pub runtime_lines : List PeerConfig → List PeerLine
runtime_lines [] = []
runtime_lines (p ∷ peers) =
    record {
      node_id = "";
      addr = p.addr;
      node_scope = p.node_scope;
      region = p.region;
      source = "runtime";
    }
    ∷ runtime_lines peers

-- GET /api/v1/peers
unfoldable pub list_peers : Map PeerConfig → Option RuntimePeers → List PeerLine
unfolding configured_lines runtime_lines
list_peers peers none = configured_lines peers
list_peers peers (some rp) = configured_lines peers ++ runtime_lines rp.peers

-- runtimeApp
pub record RuntimeApp : Type 0 where
  pub app_id : String
  pub webhook_url : String
  pub api_key : String
  pub last_seen : ℤ

-- RuntimeApps
pub record RuntimeApps : Type 0 where
  pub apps : Map RuntimeApp

-- RuntimeApps.Register
unfoldable pub register : RuntimeApp → RuntimeApps → RuntimeApps
register app ra = record { apps = Map.insert app.app_id app ra.apps }

-- RuntimeApps.Delete
unfoldable pub delete : String → RuntimeApps → Bool × RuntimeApps
delete app_id ra = (is_set (Map.lookup app_id ra.apps), record { apps = Map.delete app_id ra.apps })

-- The body of a request to register an app.
pub record AppBody : Type 0 where
  pub app_id : String
  pub webhook_url : String
  pub webhook_secret : String

-- POST /api/v1/apps/register
unfoldable pub register_app :
    Option AppBody → String → ℤ → Option RuntimeApps → Reply (String × String) × Option RuntimeApps
unfolding register
register_app body api_key now none = (failed 503 "app registry not available", none)
register_app none api_key now (some ra) = (failed 400 "app_id required", some ra)
register_app (some b) api_key now (some ra) =
    if b.app_id == "" then (failed 400 "app_id required", some ra) else (
      done 201 (b.app_id, api_key),
      some (
          register
            (record {
              app_id = b.app_id;
              webhook_url = b.webhook_url;
              api_key = api_key;
              last_seen = now;
            })
            ra),
    )

-- DELETE /api/v1/apps/{app_id}
unfoldable pub delete_app : String → Option RuntimeApps → Reply Unit × Option RuntimeApps
unfolding delete
delete_app app_id none = (failed 503 "app registry not available", none)
delete_app app_id (some ra) =
    let (found, ra') = delete app_id ra in
    (if not found then failed 404 "app not found" else bare 204, some ra')

-- A line of the list of apps.
pub record AppLine : Type 0 where
  pub app_id : String
  pub webhook_url : String
  pub last_seen : ℤ

unfoldable pub configured_apps : Map AppConfig → List AppLine
configured_apps [] = []
configured_apps ((id, a) ∷ apps) =
    record { app_id = id; webhook_url = a.webhook_url; last_seen = pos 0 } ∷ configured_apps apps

unfoldable pub runtime_apps : Map RuntimeApp → List AppLine
runtime_apps [] = []
runtime_apps ((_, a) ∷ apps) =
    record { app_id = a.app_id; webhook_url = a.webhook_url; last_seen = a.last_seen }
    ∷ runtime_apps apps

-- GET /api/v1/apps
unfoldable pub list_apps : Map AppConfig → Option RuntimeApps → List AppLine
unfolding configured_apps runtime_apps
list_apps apps none = configured_apps apps
list_apps apps (some ra) = configured_apps apps ++ runtime_apps ra.apps
