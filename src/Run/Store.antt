-- ===== src/Run/Store.antt =====
-- daemon/core/src/run/store.rs: live runs, their snapshots on disk, and recovery after a restart.
mod Snapshots
mod Scan
pub mod Recovery
pub mod Resuming
pub mod Restart
mod Samples
unfoldable pub use Snapshots.*
unfoldable pub use Scan.*
