-- ===== src/Threads.antt =====
-- daemon/core/src/thread_store.rs: threads, their participants, and the sessions bound to them.
mod Records
mod Store
pub mod Handles
pub mod Unique
pub mod Calls
pub mod Apart
mod Samples
unfoldable pub use Records.*
unfoldable pub use Store.*
