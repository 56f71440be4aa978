-- ===== src/Run/Findings.antt =====
-- daemon/core/src/run/findings.rs: validation, identity and grouping of reviewer findings.
mod Normalize
mod Validate
mod Since
mod Group
pub mod Order
pub mod Reports
pub mod Rounds
pub mod Grouping
pub mod Ranking
pub mod Keys
mod Samples
unfoldable pub use Normalize.*
unfoldable pub use Validate.*
unfoldable pub use Since.*
unfoldable pub use Group.*
