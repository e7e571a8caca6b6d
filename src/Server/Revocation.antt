-- ===== src/Server/Revocation.antt =====
-- internal/server/http.go: the endpoints over the revocation list and over the registry of users.
-- Base64 is the parameter `decode`, none for a text that is no encoding; `now` is time.Now() in the
-- call of `Revoke`.
use mrmi_gateway.Prelude.{
  ℕ, leb, ℤ, String, Bool, ◌||◌, Option, none, some, List, [], ◌==◌, if◌then◌else◌, length, map,
}
use mrmi_gateway.Delivery.Retry.{unix}
use mrmi_gateway.Crl
use mrmi_gateway.Crl.{Store, revoke, is_revoked}
use mrmi_gateway.Registry
use mrmi_gateway.Registry.{Registry, Uuid}
use mrmi_gateway.Server.{Reply, failed, done}

-- The body of a report.
pub record ReportBody : Type 0 where
  pub node_id : String
  pub reason : String
  pub signature_b64 : String

-- Whether the node is revoked after the report.
pub record Report : Type 0 where
  pub node_id : String
  pub is_effective : Bool

-- A line of the list.
pub record Line : Type 0 where
  pub node_id : String
  pub reason : String
  pub sig_count : ℕ
  pub is_effective : Bool
  pub revoked_at : ℤ

unfoldable pub to_line : Crl.Entry → Line
unfolding unix
to_line e = record {
  node_id = e.node_id;
  reason = e.reason;
  sig_count = length e.signatures;
  is_effective = leb 2 (length e.signatures);
  revoked_at = unix e.revoked_at;
}

-- GET /api/v1/crl
unfoldable pub list_crl : Option Store → List Line
unfolding to_line Crl.entries
list_crl none = []
list_crl (some s) = map to_line (Crl.entries s.entries)

module _ (decode : String → Option String) where
  unfoldable pub report :
      String → String → Option String → String → ℤ → Store → Reply Report × Store
  unfolding revoke is_revoked
  report node_id reason none text now s = (failed 400 text, s)
  report node_id reason (some sig) text now s =
      let s' = revoke node_id reason sig now s in
      (done 200 (record { node_id = node_id; is_effective = is_revoked node_id s' }), s')

  -- POST /api/v1/crl
  unfoldable pub post_crl : Option ReportBody → ℤ → Option Store → Reply Report × Option Store
  unfolding report
  post_crl body now none = (failed 503 "crl store not available", none)
  post_crl none now (some s) = (failed 400 "invalid request body", some s)
  post_crl (some b) now (some s) =
      let (reply, s') =
        report b.node_id b.reason (decode b.signature_b64) "invalid signature_b64 encoding" now s in
      if b.node_id == "" || b.signature_b64 == ""
      then (failed 400 "node_id and signature_b64 are required", some s)
      else (reply, some s')

  -- POST /api/v1/revoke/{node_id}, with the node's identifier from the path
  unfoldable pub post_revoke :
      String → Option ReportBody → ℤ → Option Store → Reply Report × Option Store
  unfolding report
  post_revoke node_id body now none = (failed 503 "crl store not available", none)
  post_revoke node_id none now (some s) = (failed 400 "reason and signature_b64 required", some s)
  post_revoke node_id (some b) now (some s) =
      let (reply, s') =
        report node_id b.reason (decode b.signature_b64) "invalid signature_b64" now s in
      if b.signature_b64 == ""
      then (failed 400 "reason and signature_b64 required", some s)
      else (reply, some s')

module _ {W : Type 0} (uuid : Uuid W) where
  -- GET /api/v1/discover
  unfoldable pub get_discover :
      String → String → ℤ → Option Registry × W → List Registry.Result × (Option Registry × W)
  get_discover q query_type now (none, w) = ([], (none, w))
  get_discover q query_type now (some r, w) =
      let (results, s) = Registry.discover uuid q query_type now (r, w) in
      (results, (some s.0, s.1))

  -- The body of a request to connect.
  pub record ConnectBody : Type 0 where
    pub opaque_token : String
    pub requester_id : String
    pub requester_region : String

  -- POST /api/v1/connect
  unfoldable pub post_connect :
      Option ConnectBody
      → ℤ
      → ℤ
      → Option Registry × W
      → Reply Registry.Answer × (Option Registry × W)
  post_connect body now session_now (none, w) = (failed 503 "registry not available", (none, w))
  post_connect none now session_now (some r, w) = (failed 400 "opaque_token required", (some r, w))
  post_connect (some b) now session_now (some r, w) =
      let (answer, s) =
        Registry.connect uuid b.opaque_token b.requester_id b.requester_region now session_now
          (r, w) in
      if b.opaque_token == ""
      then (failed 400 "opaque_token required", (some r, w))
      else (done 200 answer, (some s.0, s.1))
