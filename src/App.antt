-- ===== src/App.antt =====
-- internal/app/app.go: the parts of the wiring that act: the link to a peer, the background loops over
-- the transit cache and the registry of peers, and what is called on an allowed envelope.
pub mod Link
pub mod Background
pub mod Gossip
pub mod Reload
mod Examples
use mrmi_gateway.Prelude.{ltb_ℤ, ℤ, pos, if◌then◌else◌}
use mrmi_gateway.Config.{Config, seconds}
use mrmi_gateway.Envelope.{Envelope}
use mrmi_gateway.Inbox
use mrmi_gateway.Inbox.{Event, Inbox}

-- shutdownTimeout
unfoldable pub shutdown_timeout : Config → ℤ
shutdown_timeout cfg =
    if ltb_ℤ (pos 0) cfg.network.shutdown_timeout then cfg.network.shutdown_timeout else seconds 5

abbrev pub event_of : Envelope → Event
event_of env = record {
  idempotency_key = env.idempotency_key;
  sender_region = env.sender_region;
  recipient_region = env.recipient_region;
  trust_tier = env.trust_tier;
  payload = env.payload;
  timestamp = env.timestamp;
}

-- The callback of the gateway for an allowed envelope, without the counter.
unfoldable pub on_allow : Envelope → Inbox → Inbox
on_allow env i = Inbox.publish (event_of env) i
