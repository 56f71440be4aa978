-- ===== src/Run/State/Whole.antt =====
-- state.rs: one run, of a plan phase and a code phase. The clock's reading is an argument, `now`.
use agentchat.Prelude.{ℕ, Option, none, some, if◌then◌else◌, Result, ok, err}
use agentchat.Text.{Text}
use agentchat.Protocol.Run.{
  CycleBudgetConfig, default_budget, authoring, awaiting_approval, plan, code, RunStatus, planning,
  awaiting_plan_approval, implementing, awaiting_code_approval, completed, cancelled,
}
use agentchat.Run.State.Phase.{
  PhaseState, TransitionError, unexpected_stage, new_phase, is_awaiting_approval,
  record_human_rejection,
}

pub record RunState : Type 0 where
  pub run_id : Text
  pub issue_id : Option Text
  pub working_dir : Text
  pub created_at_ms : ℕ
  pub updated_at_ms : ℕ
  pub status : RunStatus
  pub plan : PhaseState
  pub code : Option PhaseState
  pub code_budget : CycleBudgetConfig

unfoldable pub new_run : Text → Text → ℕ → RunState
unfolding new_phase
new_run run_id working_dir now = record {
  run_id = run_id;
  issue_id = none;
  working_dir = working_dir;
  created_at_ms = now;
  updated_at_ms = now;
  status = planning;
  plan = new_phase plan default_budget;
  code = none;
  code_budget = record default_budget { max_cycles = 3 };
}

unfoldable pub with_budgets : RunState → CycleBudgetConfig → CycleBudgetConfig → RunState
unfolding new_phase
with_budgets r plan_budget code_budget = record r {
  plan = new_phase plan plan_budget;
  code_budget = code_budget;
}

unfoldable pub phase_of_status : RunStatus → RunState → Option PhaseState
phase_of_status planning r = some r.plan
phase_of_status awaiting_plan_approval r = some r.plan
phase_of_status implementing r = r.code
phase_of_status awaiting_code_approval r = r.code
phase_of_status completed r = none
phase_of_status cancelled r = none

unfoldable pub active_phase : RunState → Option PhaseState
unfolding phase_of_status
active_phase r = phase_of_status r.status r

-- A write through `active_phase_mut`.
unfoldable pub put_phase : RunStatus → PhaseState → RunState → RunState
put_phase planning p r = record r { plan = p }
put_phase awaiting_plan_approval p r = record r { plan = p }
put_phase implementing p r = record r { code = some p }
put_phase awaiting_code_approval p r = record r { code = some p }
put_phase completed p r = r
put_phase cancelled p r = r

unfoldable pub synced_plan : PhaseState → RunStatus
synced_plan p = if is_awaiting_approval p then awaiting_plan_approval else planning

unfoldable pub synced_code : Option PhaseState → RunStatus
synced_code none = implementing
synced_code (some p) = if is_awaiting_approval p then awaiting_code_approval else implementing

unfoldable pub synced_status : RunStatus → RunState → RunStatus
unfolding synced_plan synced_code
synced_status planning r = synced_plan r.plan
synced_status awaiting_plan_approval r = synced_plan r.plan
synced_status implementing r = synced_code r.code
synced_status awaiting_code_approval r = synced_code r.code
synced_status completed r = completed
synced_status cancelled r = cancelled

unfoldable pub sync_status : ℕ → RunState → RunState
unfolding synced_status
sync_status now r = record r { updated_at_ms = now; status = synced_status r.status r }

unfoldable pub approve_plan : ℕ → RunState → Result TransitionError RunState
unfolding new_phase
approve_plan now r =
    if is_awaiting_approval r.plan
    then ok (record r {
      code = some (new_phase code r.code_budget);
      status = implementing;
      updated_at_ms = now;
    })
    else err (unexpected_stage awaiting_approval r.plan.stage)

-- The status of a run whose active phase goes back to its author.
unfoldable pub reopened : RunStatus → RunStatus
reopened awaiting_code_approval = implementing
reopened implementing = implementing
reopened _ = planning

unfoldable pub request_changes : ℕ → RunState → Result TransitionError RunState
unfolding active_phase put_phase record_human_rejection reopened
request_changes now r = elim (active_phase r) [
  | none ↦ err (unexpected_stage awaiting_approval authoring)
  | some p ↦
      let changed = put_phase r.status (record_human_rejection p) r in
      if is_awaiting_approval p
      then ok (record changed { status = reopened r.status; updated_at_ms = now })
      else err (unexpected_stage awaiting_approval p.stage)
]

unfoldable pub approve_code : ℕ → RunState → Result TransitionError RunState
approve_code now r = elim r.code [
  | none ↦ err (unexpected_stage awaiting_approval r.plan.stage)
  | some p ↦
      if is_awaiting_approval p
      then ok (record r { status = completed; updated_at_ms = now })
      else err (unexpected_stage awaiting_approval p.stage)
]

unfoldable pub cancel_run : ℕ → RunState → RunState
cancel_run now r = record r { status = cancelled; updated_at_ms = now }
