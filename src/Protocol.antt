-- ===== src/Protocol.antt =====
-- daemon/protocol: the types that the daemon's parts exchange.
pub mod Run
pub mod Wire
pub mod Relay
