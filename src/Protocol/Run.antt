-- ===== src/Protocol/Run.antt =====
-- daemon/protocol/src/run.rs: what reviewers write, what survives validation, how the author answers,
-- and the names of phases, stages and statuses.
mod Types
mod Packet
mod Category
mod Ids
pub mod Tokens
pub mod Identity
pub use Types.*
pub use Packet.*
unfoldable pub use Category.*
unfoldable pub use Ids.*
