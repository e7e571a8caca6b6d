-- ===== src/Delivery.antt =====
-- internal/delivery: the dead-letter queue, the retry loop and the forwarder.
pub mod Dlq
pub mod Retry
pub mod Forwarder
mod Examples
