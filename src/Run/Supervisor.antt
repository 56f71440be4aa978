-- ===== src/Run/Supervisor.antt =====
-- daemon/core/src/run/supervisor.rs: the registry of runs that a user interface watches and answers.
mod Registry
mod Approvals
pub mod Calls
pub mod Consistent
pub mod Lines
pub mod Delivered
pub mod Watched
pub mod Listed
mod Samples
unfoldable pub use Registry.*
unfoldable pub use Approvals.*
