-- ===== src/Run/Orchestrator/Until.antt =====
-- orchestrator.rs: `drive_until`, which drives a run from gate to gate. What happens around one pass
-- of its loop is a value of `PassWorld`, and the loop takes fuel.
use agentchat.Prelude.{
  ℕ, zero, suc, Bool, true, false, not, ◌&&◌, Option, none, some, if◌then◌else◌, Result, ok, err,
}
use agentchat.Text.{Text}
use agentchat.Protocol.Run.{
  PhaseKind, plan, code, RunStatus, planning, awaiting_plan_approval, implementing,
  awaiting_code_approval, completed, cancelled, is_terminal, ApprovalDecision, approve,
  request_changes, cancel,
}
use agentchat.Run.Findings.{Externals}
use agentchat.Run.State
use agentchat.Run.State.{
  RunState, TransitionError, sync_status, approve_plan, approve_code, cancel_run,
}
use agentchat.Run.Executor.Turns.{Pass, return, continue}
use agentchat.Run.Orchestrator.{StageWorld, DriveError, drive_phase}

-- The names of the two authors, and the paths of what they write.
pub record PhaseNames : Type 0 where
  pub planner : Text
  pub plan_artifact : Text
  pub implementer : Text
  pub code_artifact : Text

-- The stages, the clock's readings, the errors of the snapshots and of the file of feedback, and the
-- human's decision.
pub record PassWorld : Type 0 where
  pub stages : ℕ → StageWorld
  pub synced_at : ℕ
  pub synced : Option Text
  pub decision : Result Text ApprovalDecision
  pub feedback : Option Text
  pub decided_at : ℕ
  pub decided : Option Text

pub data RunError : Type 0 where
  phase_failed : DriveError → RunError
  gate_failed : Text → RunError
  not_recorded : Text → RunError
  refused : TransitionError → RunError

unfoldable pub which_phase : RunStatus → Option PhaseKind
which_phase planning = some plan
which_phase awaiting_plan_approval = some plan
which_phase implementing = some code
which_phase awaiting_code_approval = some code
which_phase completed = none
which_phase cancelled = none

abbrev pub or_refused : Result TransitionError RunState → Result RunError RunState
or_refused (ok r) = ok r
or_refused (err e) = err (refused e)

-- The `match` on the decision.
unfoldable pub decide :
    PhaseKind → ApprovalDecision → Option Text → ℕ → RunState → Result RunError RunState
unfolding approve_plan approve_code State.request_changes cancel_run
decide plan approve feedback now r = or_refused (approve_plan now r)
decide code approve feedback now r = or_refused (approve_code now r)
decide which (request_changes comments) (some message) now r = err (not_recorded message)
decide which (request_changes comments) none now r = or_refused (State.request_changes now r)
decide which cancel feedback now r = ok (cancel_run now r)

abbrev kind_eqb : PhaseKind → PhaseKind → Bool
kind_eqb plan plan = true
kind_eqb code code = true
kind_eqb _ _ = false

-- `stop_after == Some(which) && !run.status.is_terminal()`.
abbrev pub stops_here : Option PhaseKind → PhaseKind → RunStatus → Bool
stops_here none which status = false
stops_here (some k) which status = kind_eqb k which && not (is_terminal status)

abbrev pub RunPass : Type 0
RunPass = RunState × Pass (Result RunError RunStatus)

-- What follows the decision.
unfoldable pub after_decision :
    Option PhaseKind → PhaseKind → Option Text → RunState → Result RunError RunState → RunPass
after_decision stop_after which saved r (err e) = (r, return (err e))
after_decision stop_after which (some message) r (ok s) = (s, return (err (not_recorded message)))
after_decision stop_after which none r (ok s) =
    if stops_here stop_after which s.status then (s, return (ok s.status)) else (s, continue)

-- What follows the snapshot of a run at its gate.
unfoldable pub at_gate : Option PhaseKind → PhaseKind → PassWorld → Option Text → RunState → RunPass
unfolding decide after_decision
at_gate stop_after which w (some message) r = (r, return (err (not_recorded message)))
at_gate stop_after which w none r = elim w.decision [
  | err message ↦ (r, return (err (gate_failed message)))
  | ok d ↦ after_decision stop_after which w.decided r (decide which d w.feedback w.decided_at r)
]

-- What follows the drive of a phase.
unfoldable pub after_drive :
    Option PhaseKind
    → PhaseKind
    → PassWorld
    → RunState × Result DriveError agentchat.Protocol.Run.ExitReason
    → RunPass
unfolding at_gate sync_status
after_drive stop_after which w (r, err e) = (r, return (err (phase_failed e)))
after_drive stop_after which w (r, ok reason) =
    at_gate stop_after which w w.synced (sync_status w.synced_at r)

module _ (x : Externals) (roles : PhaseNames) (stop_after : Option PhaseKind) where
  abbrev pub driven :
      PhaseKind
      → (ℕ → StageWorld)
      → ℕ
      → RunState
      → Option (RunState × Result DriveError agentchat.Protocol.Run.ExitReason)
  driven plan worlds fuel r = drive_phase x roles.planner roles.plan_artifact worlds fuel r plan
  driven code worlds fuel r = drive_phase x roles.implementer roles.code_artifact worlds fuel r code

  -- One pass; `stage_fuel` is the fuel of its `drive_phase`.
  unfoldable pub until_pass : ℕ → PassWorld → RunState → Option RunPass
  unfolding which_phase drive_phase after_drive
  until_pass stage_fuel w r = elim (which_phase r.status) [
    | none ↦ some (r, return (ok r.status))
    | some which ↦ elim (driven which w.stages stage_fuel r) [
      | none ↦ none
      | some s ↦ some (after_drive stop_after which w s)
    ]
  ]

  unfoldable pub drive_until :
      ℕ → (ℕ → PassWorld) → ℕ → ℕ → RunState → Option (RunState × Result RunError RunStatus)
  unfolding until_pass
  drive_until stage_fuel worlds zero n r = none
  drive_until stage_fuel worlds (suc fuel) n r = elim (until_pass stage_fuel (worlds n) r) [
    | none ↦ none
    | some (s, return result) ↦ some (s, result)
    | some (s, continue) ↦ drive_until stage_fuel worlds fuel (suc n) s
  ]
