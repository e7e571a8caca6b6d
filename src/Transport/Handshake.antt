-- ===== src/Transport/Handshake.antt =====
-- internal/transport/grpc/adapter.go: `Connect`. The session identifier (a random UUID) and the
-- readings of the clock are arguments. Calls are modelled one after the other.
pub mod Laws
use mrmi_gateway.Prelude.{ℤ, pos, ◌+ℤ◌, String, Bool, not, Option, none, some, ◌==◌, if◌then◌else◌}
use mrmi_gateway.Config.{hours}
use mrmi_gateway.Delivery.Retry.{unix_milli}
use mrmi_gateway.Token
use mrmi_gateway.Token.{Store, evict, has_active_token}
use mrmi_gateway.Connect
use mrmi_gateway.Connect.{Status, Resolver}

-- ConnectRequest
pub record Request : Type 0 where
  pub opaque_token : String
  pub origin_node_id : String
  pub origin_app_id : String
  pub request_id : String

-- ConnectAck
pub record Ack : Type 0 where
  pub status : Status
  pub session_id : String
  pub expires_at : ℤ
  pub reason : String

-- When the three steps of a call read the clock, and the identifier for a new session.
pub record Moment : Type 0 where
  pub resolve_now : ℤ
  pub active_now : ℤ
  pub session_now : ℤ
  pub session : String

abbrev pub refuse : String → Ack
refuse reason = record {
  status = Connect.refused;
  session_id = "";
  expires_at = pos 0;
  reason = reason;
}

unfoldable pub acknowledge : Status → Moment → Ack
unfolding unix_milli
acknowledge Connect.accepted m = record {
  status = Connect.accepted;
  session_id = m.session;
  expires_at = unix_milli (m.session_now +ℤ hours 24);
  reason = "";
}
acknowledge status m = record { status = status; session_id = ""; expires_at = pos 0; reason = "" }

-- The resolver's status, pending without a resolver.
unfoldable pub status_of : Option Resolver → Request → String → Bool → Status
status_of none req app_id discovered = Connect.pending
status_of (some r) req app_id discovered = Connect.resolve r (record {
  origin_node_id = req.origin_node_id;
  origin_app_id = req.origin_app_id;
  recipient_app_id = app_id;
  mutual_discovery = discovered;
})

module _ (hash : String → String) where
  -- What follows the resolution of the token.
  unfoldable pub admit :
      Option Resolver → Request → Moment → Option (String × String) → Store → Ack × Store
  unfolding acknowledge status_of
  admit res req m none s = (refuse "invalid or expired token", s)
  admit res req m (some (app_id, origin_node_id)) s =
      if not (origin_node_id == req.origin_node_id)
      then (refuse "token not issued for this node", s)
      else (
        acknowledge
            (status_of res req app_id
              (has_active_token req.origin_node_id m.active_now (evict hash req.opaque_token s)))
            m,
        evict hash req.opaque_token s,
      )

  -- gatewayAdapter.Connect. Looking the token up, evicting it and asking for another one are three
  -- steps in the code, each with the lock of the store; this is a call with no other between them.
  unfoldable pub connect : Option Resolver → Request → Moment → Option Store → Ack × Option Store
  unfolding admit
  connect res req m none = (refuse "discovery not enabled", none)
  connect res req m (some s) =
      let (claims, s') = Token.resolve hash req.opaque_token m.resolve_now s in
      let (ack, s'') = admit res req m claims s' in (ack, some s'')
