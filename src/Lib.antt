-- ===== src/Lib.antt =====
-- The core of the MRMI gateway (Go): a node takes envelopes from clients and peers, keeps every key
-- from being processed twice, decides by its policy, writes each decision to a hash-chained log, and
-- forwards what is allowed to a peer.
--
-- The parts, and the files that model them:
--   Config, Config.Validate, Config.Presets, Config.Toml: internal/config/config.go and presets.go, the
--     records, `Config.Validate`, `DefaultConfigForProfile`, and in Config.Toml.Apply how a decoded
--     file overrides a configuration (`rawTOML.apply`, `Load`)
--   Schema, Schema.Window: internal/schema, `Normalize`, `parseTOD`, `IsInWindow`, `NextOpen`
--   Dedup: internal/dedup/index.go, the sharded index of keys (`SeenOrAdd`, `SeenOrAddWithTTL`,
--     `Purge`, `Len`)
--   Crl: internal/crl/store.go, revocations (`Revoke`, `IsRevoked`, `Merge`, `Entries`)
--   Policy: internal/policy/engine.go, `Evaluate` with its guards, `EvaluateDiscovery`, `Reload`;
--     Policy.Loaded joins it with the configuration that `Load` makes of a file
--   Audit: internal/audit/log.go, `Append`, `AppendFinality`, `Recent`, `Verify`, `VerifyFile`
--   Session: internal/session/tracker.go, sequence numbers
--   Transit: internal/transit/cache.go, the bounded relay buffer
--   Delivery.Dlq, Delivery.Retry, Delivery.Forwarder: internal/delivery/dlq.go, retry.go and
--     forwarder.go, the dead-letter queue, the backoff loop and the choice of peers
--   Envelope, Gateway: internal/core/gateway.go, `SendEnvelope`, `applyPadding`, `applyJitter` and
--     `GetNodeInfo`
--   Token: internal/token/store.go, discovery tokens under their hashes
--   Connect: internal/connect/resolver.go, connection requests
--   Peers: internal/peerdiscovery/registry.go and internal/peercache/cache.go, the peers that gossip
--     has told of and their root hashes
--   RateLimit: internal/ratelimit/tokenbucket.go, `Allow` and the clean-up
--   TrustDecay: internal/trustdecay/timer.go, `RecordValidation` and `EffectiveTier`
--   Discovery: internal/discovery/broadcaster.go, `Broadcast`
--   Registry: internal/registry/registry.go, `Discover` and `Connect` for the node's app users
--   Inbox: internal/inbox/inbox.go, `Subscribe`, `Unsubscribe` and `Publish`
--   Identity: internal/identity/identity.go, what is signed, and `Verify`
--   Transport: internal/transport/grpc, the handlers of adapter.go (Transport.Envelopes, .Handshake,
--     .Exchange, .Search) and the pool of connpool.go (Transport.Pool)
--   Server: internal/server/http.go, `checkAuth` with its wrappers, and the endpoints by what they
--     work on (Server.Queue, .Stores, .Adapters, .Tokens, .Revocation)
--   Store: internal/store/bbolt/store.go, the backend of a node over buckets of a database
--   Dummy: internal/dummy/generator.go, the envelopes of a tick
--   Hotreload: internal/hotreload/watcher.go, a poll of the configuration file
--   App: internal/app/app.go, the function that sends to a peer (App.Link), the ticks of
--     `runTransitRetry` (App.Background), `runPeerGossip` and `runGossip` (App.Gossip), and the
--     callbacks for allowed envelopes and for new configurations (App.Reload)
--   Prelude: Boolean tests, lists, signed integers, Go maps and Go's `strings` package
--   Samples and the Examples modules: concrete data, and the theorems at it
--
-- `Gateway.send_envelope` composes them as the code does: `Schema.normalize`, then the dummy branch,
-- `Dedup`, `Policy.evaluate` (which asks `Crl` and appends to `Audit`), and the forwarder, an
-- interface that `Delivery.Forwarder.forward` has the shape of. `Transport.Envelopes.send` and
-- `Server.Queue.post_envelope` call it; `Server.Queue.replay` sends a letter of the forwarder's own
-- queue, which it reaches through the forwarder's state. `Transport.Search.broadcast_discovery`
-- composes `RateLimit`, `Policy`, `Discovery` and `Token`; `Transport.Handshake.connect` composes
-- `Token` and `Connect`; `Transport.Exchange.receive` calls `Peers`. `App.Link.send_to_peer` is the transport
-- of the forwarder: it numbers with `Session`, signs what `Identity` encodes, and calls the peer's handler,
-- which is `Transport.Envelopes.send`. `App.Background.transit_tick` moves what `Transit` drains to the
-- queue; `App.Reload` joins `Hotreload`, `Config.Toml.Apply.load` and `Policy.reload`.
--
-- State is passed explicitly; a method is a function from the old state to the answer and the new
-- state. A method that holds its mutex from start to end (`SeenOrAdd` on the shard of its key, and the
-- calls of the dead-letter queue, the transit cache and the token store) is one step, so interleavings
-- of such calls are sequences of them. Others release a lock on the way or take none: `Purge` goes
-- from shard to shard, `Merge` locks for each signature, `Log.appendEntry` tells the backend after it
-- has released the mutex of the chain, and `Gateway.SendEnvelope` and `gatewayAdapter.Connect` take no
-- lock across their steps. These are modelled from start to end, one call after the other (`run` in
-- Dedup.Window, Audit.Chain and Gateway.Resend); what calls that overlap can do is not modelled. A
-- call of `ConnPool.Client` is two steps with a dial in between, so the pool is a step relation
-- (Transport.Pool) over the calls in flight, and there calls do overlap.
--
-- Parameters, for what is not in the repository: the hashes (JSON and SHA-256, FNV), random tokens, the
-- zone database, the backend of the log, the buckets of bbolt, the transport and the peers' clients,
-- Ed25519, the JWT library, base64, float64, the text of a number, the clock and timers. Each reading
-- of the clock is an argument or a call of an interface. No property assumes anything of them but what
-- its statement says.
--
-- Bounds: sequence numbers are uint64 and `padded_to` is uint32, with their wrap-around; the product
-- that gives the iso20022 window and the products that give a file's durations wrap as int64, the
-- inbox's identifiers as uint64; other durations, counters and instants are unbounded integers. There
-- is no fuel: the loops run over lists, and the backoff loop over the attempts that are left.
--
-- Not modelled: JSON, TOML and protobuf encoding, the routes and headers of the HTTP server and its
-- endpoints that only report (status, the audit answers, the list of adapters, the configuration
-- endpoints, the event stream), the registration and the clients of gRPC, the redis backend, key
-- material and TLS, the order in which the application builds and stops its parts, the metrics, the
-- webhook and the command-line tools, which are input and output around library calls. `Run` of the
-- trust timer only logs. Case mapping is that of ASCII.
pub mod Prelude
pub mod Config
pub mod Crl
pub mod Session
pub mod Gateway
pub mod Delivery
pub mod Envelope
pub mod Transit
pub mod Policy
pub mod Audit
pub mod Dedup
pub mod Schema
pub mod Samples
pub mod Token
pub mod Connect
pub mod Peers
pub mod RateLimit
pub mod Discovery
pub mod Identity
pub mod Transport
pub mod Registry
pub mod Server
pub mod TrustDecay
pub mod Inbox
pub mod App
pub mod Hotreload
pub mod Store
pub mod Dummy
