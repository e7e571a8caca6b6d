-- ===== src/Transport.antt =====
-- internal/transport/grpc: the handlers of the gRPC service (adapter.go), which call the gateway, the
-- session tracker, the token store, the resolver, the broadcaster and the registry of peers, and the
-- pool of client connections (connpool.go). The transport's messages have the fields of the domain's
-- records, so one record stands for both.
pub mod Envelopes
pub mod Exchange
pub mod Handshake
pub mod Search
pub mod Pool
mod Examples
use mrmi_gateway.Prelude.{String}

-- status.Error
pub data RpcError : Type 0 where
  invalid_argument internal : RpcError
  resource_exhausted : String → RpcError
