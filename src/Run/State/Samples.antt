-- ===== src/Run/State/Samples.antt =====
-- Lives of a phase and of a run, and the theorems at concrete inputs.
use agentchat.Prelude.{ℕ, ◌≡◌, refl, true, List, [], ◌∷◌, Option, none, some, is_some, arith}
use agentchat.Text.{codes}
use agentchat.Protocol.Run.{
  Finding, blocking, incorrect, Disposition, accepted, default_budget, plan, awaiting_approval,
  agent_failure,
}
use agentchat.Run.State.{PhaseState, new_phase, exit_reason, RunState, new_run}
use agentchat.Run.State.Invariant.{
  Call, draft, review, dispose, human_rejection, free_retry, round_start, call, calls, IsSound,
  calls_new-IsSound,
}
use agentchat.Run.State.Progress.{Exchange, exchanges, exchanges_reach_gate}
use agentchat.Run.State.Runs.{
  RunCall, work, sync, plan_approval, code_approval, changes, cancellation, run_calls, IsCoherent,
  run_calls_new-IsCoherent, completed_past_gates,
}

abbrev bug : Finding
bug = record {
  finding_id = codes "b1";
  reviewer = codes "opus";
  round = 1;
  severity = blocking incorrect;
  file = codes "core/src/b.rs";
  location = codes "core/src/b.rs:7";
  problem = codes "cap is off by one";
  evidence = codes "with max_cycles=2 the ledger admits a third revision";
  recommendation = [];
  demoted_from = none;
}

abbrev fixed : Disposition
fixed = record { finding_id = codes "b1"; action = accepted; reason = []; changed_files = [] }

abbrev worked : List Exchange
worked = (bug ∷ [], fixed ∷ []) ∷ (bug ∷ [], fixed ∷ []) ∷ []

abbrev life : List Call
life =
    draft
    ∷ round_start
    ∷ free_retry agent_failure
    ∷ review (bug ∷ [])
    ∷ dispose []
    ∷ dispose (fixed ∷ [])
    ∷ review []
    ∷ dispose []
    ∷ human_rejection
    ∷ draft
    ∷ []

exchanges_reach_gate_example :
    (exchanges (call (new_phase plan default_budget) draft) worked).stage ≡ awaiting_approval
unfolding agentchat.Run.Disposition.evaluate_gate agentchat.Run.Findings.blocking_findings
    agentchat.Prelude.list_eqb
exchanges_reach_gate_example =
    exchanges_reach_gate plan default_budget worked (omega arith) (omega arith) (omega arith)
      (refl, (refl, tt))

calls_new-IsSound_example : IsSound (calls (new_phase plan default_budget) life)
calls_new-IsSound_example = calls_new-IsSound plan default_budget life

-- A run whose plan and code are approved after one clean round each.
abbrev clean_phase : List (ℕ × RunCall)
clean_phase = (1, work draft) ∷ (2, work (review [])) ∷ (3, work (dispose [])) ∷ (4, sync) ∷ []

abbrev whole : List (ℕ × RunCall)
whole =
    (1, work draft)
    ∷ (2, work (review []))
    ∷ (3, work (dispose []))
    ∷ (4, sync)
    ∷ (5, changes)
    ∷ (6, work draft)
    ∷ (7, work (review []))
    ∷ (8, work (dispose []))
    ∷ (9, plan_approval)
    ∷ (10, work draft)
    ∷ (11, work (review []))
    ∷ (12, work (dispose []))
    ∷ (13, code_approval)
    ∷ []

run_calls_new-IsCoherent_example :
    IsCoherent (run_calls (new_run (codes "run-1") (codes "/tmp/worktree") 0) whole)
run_calls_new-IsCoherent_example =
    run_calls_new-IsCoherent (codes "run-1") (codes "/tmp/worktree") 0 whole

completed_past_gates_example :
    let r = run_calls (new_run (codes "run-1") (codes "/tmp/worktree") 0) whole in
    (r.plan.stage ≡ awaiting_approval)
    × (is_some (exit_reason r.plan) ≡ true)
    × ((p : PhaseState) × (r.code ≡ some p)
        × (p.stage ≡ awaiting_approval)
        × (is_some (exit_reason p) ≡ true))
unfolding run_calls agentchat.Run.State.Runs.run_call agentchat.Run.State.approve_code
    agentchat.Run.State.approve_plan agentchat.Run.State.request_changes
    agentchat.Run.State.sync_status new_run call agentchat.Run.State.record_disposition
    agentchat.Run.State.record_review_round agentchat.Run.State.record_draft
    agentchat.Run.Disposition.evaluate_gate agentchat.Run.Findings.blocking_findings
    agentchat.Run.Findings.new_blocking_since
completed_past_gates_example =
    completed_past_gates (codes "run-1") (codes "/tmp/worktree") 0 whole refl
