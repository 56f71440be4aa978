-- ===== src/Run/Orchestrator/Samples.antt =====
-- orchestrator.rs on a new run whose agents do nothing right.
use agentchat.Prelude.{
  ◌≡◌, refl, ℕ, false, true, [], ◌∷◌, none, some, is_some, Option, Result, ok, err, arith,
}
use agentchat.Text.{codes}
use agentchat.Protocol.Run.{
  plan, default_budget, ExitReason, RunStatus, completed, awaiting_approval, approve,
}
use agentchat.Run.Findings.{Externals}
use agentchat.Run.State.{PhaseState, RunState, new_run, new_phase, exit_reason}
use agentchat.Run.State.Invariant.{calls}
use agentchat.Run.Orchestrator.{StageWorld, DriveError, set_phase, drive_phase}
use agentchat.Run.Orchestrator.Progress.{Arrived}
use agentchat.Run.Orchestrator.Until.{PhaseNames, PassWorld, RunError, drive_until}
use agentchat.Run.Orchestrator.Safety.{drive_until_completed}
use agentchat.Run.Executor.Review.{parsed}
use agentchat.Run.Orchestrator.Gate.{drive_phase_arrives}

abbrev toy : Externals
toy = record { to_lowercase = λ t. t; sha256 = λ bytes. bytes }

abbrev broken : ℕ → StageWorld
broken n = record {
  drafts = λ _. record { failure = none; written = false };
  prepared = none;
  appended = none;
  reviews = [];
  answers = λ _. record { failure = none; file = err (codes "no file") };
  followups = none;
  snapshot = none;
}

abbrev run : RunState
run = new_run (codes "run-1") (codes "/work") 0

drive_phase_arrives_example :
    (q : PhaseState) × ((r : Result DriveError ExitReason) × (drive_phase toy
          (codes "planner")
          (codes "plan.md")
          broken
          11
          run
          plan
        ≡ some (set_phase run plan q, r))
      × Arrived q r)
unfolding new_run new_phase calls agentchat.Run.Orchestrator.phase_of agentchat.Run.Budget.new
drive_phase_arrives_example =
    drive_phase_arrives toy (codes "planner") (codes "plan.md") broken 11 run plan plan
      default_budget [] refl
      (record {
        invalid_output_fits = omega arith;
        agent_failure_fits = omega arith;
        disposition_fits = omega arith;
      })
      (omega arith) (omega arith)

abbrev roles : PhaseNames
roles = record {
  planner = codes "planner";
  plan_artifact = codes "plan.md";
  implementer = codes "coder";
  code_artifact = codes "code.md";
}

-- The author writes at once, the reviewer raises nothing, and the human approves.
abbrev smooth : ℕ → PassWorld
smooth n = record {
  stages = λ k. record {
    drafts = λ _. record { failure = none; written = true };
    prepared = none;
    appended = none;
    reviews =
        record {
          name = codes "luna";
          path = codes "l.json";
          failure = none;
          file = parsed (record { reviewer = []; round = 1; blocking = []; non_blocking = [] });
        }
        ∷ [];
    answers = λ _. record { failure = none; file = ok [] };
    followups = none;
    snapshot = none;
  };
  synced_at = n;
  synced = none;
  decision = ok approve;
  feedback = none;
  decided_at = n;
  decided = none;
}

abbrev outcome : Option (RunState × Result RunError RunStatus)
outcome = drive_until toy roles none 5 smooth 3 0 (new_run (codes "run-1") (codes "/work") 0)

abbrev left : RunState
left = elim outcome [ none ↦ run | some (r, _) ↦ r ]

drive_until_completed_example :
    (left.plan.stage ≡ awaiting_approval)
    × (is_some (exit_reason left.plan) ≡ true)
    × ((p : PhaseState) × (left.code ≡ some p)
        × (p.stage ≡ awaiting_approval)
        × (is_some (exit_reason p) ≡ true))
unfolding drive_until new_run agentchat.Run.Findings.validate_report
    agentchat.Run.Disposition.evaluate_gate agentchat.Run.Findings.blocking_findings
    agentchat.Run.Findings.new_blocking_since
drive_until_completed_example =
    drive_until_completed toy roles none (codes "run-1") (codes "/work") 0 5 smooth 3 left
      (ok completed) refl refl
