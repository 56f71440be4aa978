-- ===== src/Sessions.antt =====
-- daemon/core/src/session_store.rs: the transcripts of sessions.
mod Transcripts
pub mod Recorded
mod Samples
unfoldable pub use Transcripts.*
