-- ===== src/Run.antt =====
-- daemon/core/src/run: how a run's phases are reviewed, answered, budgeted and driven.
pub mod Budget
pub mod Findings
pub mod Disposition
pub mod State
pub mod Approval
pub mod Executor
pub mod Orchestrator
pub mod Supervisor
pub mod Store
