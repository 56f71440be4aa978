-- ===== src/Server.antt =====
-- daemon/server/src/app.rs: what the daemon tells its clients.
mod Feed
mod Updates
pub mod Streams
pub mod Turns
pub mod Emits
pub mod Inputs
mod Attach
mod Mentions
mod Routes
mod Send
pub mod Spans
pub mod Targets
pub mod Replays
mod Samples
unfoldable pub use Feed.*
unfoldable pub use Updates.*
unfoldable pub use Attach.*
