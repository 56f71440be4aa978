-- ===== src/Run/Orchestrator/Gate.antt =====
-- orchestrator.rs: `drive_phase` on a run.
use agentchat.Prelude.{◌≡◌, refl, ℕ, ◌≤◌, ◌<◌, some, Result, ok, u32_max, List, ◌∙◌}
use agentchat.Text.{Text}
use agentchat.Protocol.Run.{PhaseKind, CycleBudgetConfig, ExitReason}
use agentchat.Run.Findings.{Externals}
use agentchat.Run.State.{PhaseState, RunState, new_phase}
use agentchat.Run.State.Invariant.{Call, calls, calls_new-IsSound, calls_new-IsValid}
use agentchat.Run.Executor.Retries.{FitsWords}
use agentchat.Run.Orchestrator.{StageWorld, DriveError, phase_of, set_phase, drive_phase}
use agentchat.Run.Orchestrator.Drivable.{IsDrivable, config-calls}
use agentchat.Run.Orchestrator.Nearer.{stages_left}
use agentchat.Run.Orchestrator.Progress.{Arrived, drive_stages_arrives}

config_new : (k : PhaseKind) (b : CycleBudgetConfig) → (new_phase k b).ledger.config ≡ b
unfolding new_phase agentchat.Run.Budget.new
config_new k b = refl

pub calls_new-IsDrivable :
    (k : PhaseKind) (b : CycleBudgetConfig) (cs : List Call)
    → FitsWords b
    → b.max_cycles ≤ u32_max
    → IsDrivable (calls (new_phase k b) cs)
calls_new-IsDrivable k b cs f m =
    let e = config-calls (new_phase k b) cs ∙ config_new k b in
    record {
      sound = calls_new-IsSound k b cs;
      valid = calls_new-IsValid k b cs;
      fits = rw e f;
      cap_fits = rw e m;
    }

-- Driving a phase comes to an end, whatever its agents and the file system do. The phase is one that
-- any calls have made of a new one with 32-bit limits, and the loop may run one stage more than
-- `stages_left`, which is at most two for each cycle that the budget leaves and four. It ends at the
-- human's gate, with the exit reason that is returned, or with the error of a stage or of a
-- snapshot, and never with the error that the reason is missing.
pub drive_phase_arrives :
    (x : Externals) (author artifact : Text) (worlds : ℕ → StageWorld) (fuel : ℕ) (run : RunState)
    (which : PhaseKind) (k : PhaseKind) (b : CycleBudgetConfig) (cs : List Call)
    → phase_of run which ≡ ok (calls (new_phase k b) cs)
    → FitsWords b
    → b.max_cycles ≤ u32_max
    → stages_left (calls (new_phase k b) cs) < fuel
    → (q : PhaseState) × ((r : Result DriveError ExitReason) × (drive_phase x author artifact worlds
            fuel run which
          ≡ some (set_phase run which q, r))
        × Arrived q r)
unfolding drive_phase
drive_phase_arrives x author artifact worlds fuel run which k b cs e f m h =
    let d =
      drive_stages_arrives x author artifact worlds fuel 0 (calls (new_phase k b) cs)
        (calls_new-IsDrivable k b cs f m) h in
    (d.final, (d.result, rw (e, d.ends, drive_phase) refl, d.arrived))
