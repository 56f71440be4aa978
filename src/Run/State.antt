-- ===== src/Run/State.antt =====
-- daemon/core/src/run/state.rs: the state machines of a phase and of a run.
mod Phase
mod Whole
pub mod Invariant
pub mod Progress
pub mod Runs
mod Samples
unfoldable pub use Phase.*
unfoldable pub use Whole.*
