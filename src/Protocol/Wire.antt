-- ===== src/Protocol/Wire.antt =====
-- daemon/protocol/src/lib.rs: the events that the daemon sends to its clients.
mod Types
mod Events
mod Mention
pub use Types.*
unfoldable pub use Events.*
unfoldable pub use Mention.*
