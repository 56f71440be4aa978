-- ===== src/Run/Executor.antt =====
-- daemon/core/src/run/executor.rs: one stage of a phase, with agents that succeed or fail. What the
-- agents and the file system do in a stage is a value; a loop over an agent's turns takes fuel.
pub mod Turns
pub mod Author
pub mod Review
pub mod Answer
pub mod Cases
pub mod Retries
pub mod Refinement
pub mod Outcomes
mod Samples
