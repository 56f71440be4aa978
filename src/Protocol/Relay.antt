-- ===== src/Protocol/Relay.antt =====
-- daemon/protocol/src/relay.rs: the messages of the relay's wire.
mod Checks
mod Messages
pub mod Channel
pub mod Accepted
pub mod Derived
mod Samples
unfoldable pub use Checks.*
unfoldable pub use Messages.*
