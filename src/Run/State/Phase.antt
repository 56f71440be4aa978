-- ===== src/Run/State/Phase.antt =====
-- state.rs: one phase. A method that mutates returns the new state; one that fails has changed nothing.
use agentchat.Prelude.{
  ℕ, Bool, true, false, List, [], ◌++◌, Option, none, some, if◌then◌else◌, is_some, filter, length,
  saturating_suc, Result, ok, err, ◌>>◌,
}
use agentchat.Protocol.Run.{
  CycleBudgetConfig, Disposition, ExitReason, Finding, is_blocking, PhaseKind, StageKind, authoring,
  reviewing, dispositioning, awaiting_approval,
}
use agentchat.Run.Budget
use agentchat.Run.Budget.{CycleLedger}
use agentchat.Run.Findings.{new_blocking_since}
use agentchat.Run.Disposition.{GateRejection, pass, reject, evaluate_gate}

pub data TransitionError : Type 0 where
  unexpected_stage : (expected actual : StageKind) → TransitionError
  phase_finished : ExitReason → TransitionError

pub record RoundSummary : Type 0 where
  pub round : ℕ
  pub new_blocking : ℕ
  pub blocking_total : ℕ

pub data DispositionOutcome : Type 0 where
  rejected : GateRejection → DispositionOutcome
  next_round : (round version : ℕ) → DispositionOutcome
  to_approval : ExitReason → DispositionOutcome

pub record PhaseState : Type 0 where
  pub kind : PhaseKind
  pub stage : StageKind
  pub version : ℕ
  pub round : ℕ
  pub ledger : CycleLedger
  pub findings : List Finding
  pub dispositions : List Disposition
  pub current_round_findings : List Finding
  pub pending_new_blocking : ℕ

unfoldable pub new_phase : PhaseKind → CycleBudgetConfig → PhaseState
unfolding Budget.new
new_phase kind budget = record {
  kind = kind;
  stage = authoring;
  version = 0;
  round = 0;
  ledger = Budget.new budget;
  findings = [];
  dispositions = [];
  current_round_findings = [];
  pending_new_blocking = 0;
}

abbrev pub exit_reason : PhaseState → Option ExitReason
exit_reason p = p.ledger.exit_reason

-- `PartialEq` of `StageKind`.
abbrev pub stage_eqb : StageKind → StageKind → Bool
stage_eqb authoring authoring = true
stage_eqb reviewing reviewing = true
stage_eqb dispositioning dispositioning = true
stage_eqb awaiting_approval awaiting_approval = true
stage_eqb _ _ = false

abbrev pub is_awaiting_approval : PhaseState → Bool
is_awaiting_approval p = stage_eqb p.stage awaiting_approval

-- The error of `expect_stage` in the wrong stage.
unfoldable pub stage_error : StageKind → StageKind → Option ExitReason → TransitionError
stage_error expected awaiting_approval (some reason) = phase_finished reason
stage_error expected actual _ = unexpected_stage expected actual

unfoldable pub expect_stage : PhaseState → StageKind → Result TransitionError (Unit {0})
unfolding stage_error
expect_stage p expected =
    if stage_eqb p.stage expected then ok tt else err (stage_error expected p.stage (exit_reason p))

unfoldable pub record_draft : PhaseState → Result TransitionError (PhaseState × ℕ)
unfolding expect_stage
record_draft p = do
  expect_stage p authoring
  let version = saturating_suc p.version
  ok (record p { version = version; round = 1; stage = reviewing }, version)

unfoldable pub record_review_round :
    PhaseState → List Finding → Result TransitionError (PhaseState × RoundSummary)
unfolding expect_stage
record_review_round p findings = do
  expect_stage p reviewing
  let new_blocking = length (new_blocking_since p.findings findings)
  let blocking_total = length (filter is_blocking findings)
  ok (
    record p {
      findings = p.findings ++ findings;
      current_round_findings = findings;
      pending_new_blocking = new_blocking;
      stage = dispositioning;
    },
    record { round = p.round; new_blocking = new_blocking; blocking_total = blocking_total },
  )

-- What follows a recorded cycle: the human, or another round.
unfoldable pub after_cycle : Option ExitReason → PhaseState → PhaseState × DispositionOutcome
after_cycle (some reason) p = (record p { stage = awaiting_approval }, to_approval reason)
after_cycle none p =
    let round = saturating_suc p.round in
    (record p { round = round; stage = reviewing }, next_round round p.version)

unfoldable pub accept_dispositions : PhaseState → List Disposition → PhaseState × DispositionOutcome
unfolding after_cycle Budget.record_cycle
accept_dispositions p dispositions =
    let ledger = Budget.record_cycle p.ledger p.pending_new_blocking in
    after_cycle ledger.exit_reason (record p {
      dispositions = p.dispositions ++ dispositions;
      version = saturating_suc p.version;
      current_round_findings = [];
      ledger = ledger;
      pending_new_blocking = 0;
    })

unfoldable pub record_disposition :
    PhaseState → List Disposition → Result TransitionError (PhaseState × DispositionOutcome)
unfolding expect_stage accept_dispositions
record_disposition p dispositions = do
  expect_stage p dispositioning
  elim (evaluate_gate p.current_round_findings dispositions) [
    | reject rejection ↦ ok (p, rejected rejection)
    | pass ↦ ok (accept_dispositions p dispositions)
  ]

unfoldable pub record_revision_without_review : PhaseState → PhaseState × Option ExitReason
unfolding Budget.record_revision_without_review
record_revision_without_review p =
    let ledger = Budget.record_revision_without_review p.ledger in
    let exit = ledger.exit_reason in
    (
      record p { ledger = ledger; stage = if is_some exit then awaiting_approval else p.stage },
      exit,
    )

unfoldable pub record_stuck : PhaseState → PhaseState × ExitReason
unfolding Budget.mark_stuck
record_stuck p =
    let (ledger, reason) = Budget.mark_stuck p.ledger in
    (record p { ledger = ledger; stage = awaiting_approval }, reason)

unfoldable pub record_human_rejection : PhaseState → PhaseState
unfolding Budget.record_human_rejection
record_human_rejection p = record p {
  ledger = Budget.record_human_rejection p.ledger;
  findings = [];
  current_round_findings = [];
  pending_new_blocking = 0;
  stage = authoring;
}
