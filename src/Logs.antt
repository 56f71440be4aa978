-- ===== src/Logs.antt =====
-- daemon/core/src: the journals of the events of threads and of sessions.
mod Numbered
mod Kinds
pub mod Sequence
pub mod Refinement
pub mod Resume
mod Samples
unfoldable pub use Numbered.*
unfoldable pub use Kinds.*
