-- ===== src/Run/Executor/Review.antt =====
-- executor.rs: `run_one_reviewer` and `execute_review_round`. The reviewers run concurrently; their
-- results are read in the order of the reviewers.
use agentchat.Prelude.{
  ℕ, suc, List, [], ◌∷◌, ◌++◌, Option, none, some, is_empty, if◌then◌else◌, Result, ok, err, ◌==◌,
  nat_eq,
}
use agentchat.Text.{Text, codes}
use agentchat.Protocol.Run.{RawReviewReport, Finding}
use agentchat.Run.Budget
use agentchat.Run.Findings.{Externals, validate_report}
use agentchat.Run.State.{PhaseState, RoundSummary, TransitionError, record_review_round}
use agentchat.Run.Executor.Turns.{
  ExecutorError, transition, agent, missing_output, no_reviewers_survived, io, retry_kind_for,
}

-- The file a reviewer was told to write.
pub data ReviewFile : Type 0 where
  unreadable : ReviewFile
  not_json : (error : Text) → ReviewFile
  parsed : RawReviewReport → ReviewFile

pub record ReviewerTurn : Type 0 where
  pub name : Text
  pub path : Text
  pub failure : Option Text
  pub file : ReviewFile

abbrev read_report : ℕ → Text → Text → ReviewFile → Result ExecutorError RawReviewReport
read_report round name path unreadable = err (missing_output name path)
read_report round name path (not_json e) =
    err (agent name (codes "review is not valid JSON: " ++ e))
read_report round name path (parsed report) = ok (record report { reviewer = name; round = round })

unfoldable pub run_one_reviewer : ℕ → ReviewerTurn → Result ExecutorError RawReviewReport
run_one_reviewer round t = elim t.failure [
  | some message ↦ err (agent t.name message)
  | none ↦ read_report round t.name t.path t.file
]

-- The variables of the loop over the results.
pub record RoundResults : Type 0 where
  pub phase : PhaseState
  pub survivors : ℕ
  pub findings : List Finding

module _ (x : Externals) where
  unfoldable pub collect : ℕ → List ReviewerTurn → RoundResults → RoundResults
  unfolding run_one_reviewer Budget.record_free_retry
  collect round [] s = s
  collect round (t ∷ ts) s = elim (run_one_reviewer round t) [
    | ok report ↦ collect round ts (record s {
      survivors = suc s.survivors;
      findings = s.findings ++ validate_report x report;
    })
    | err e ↦
        let p = s.phase in
        let ledger = (Budget.record_free_retry p.ledger (retry_kind_for e)).0 in
        collect round ts (record s { phase = record p { ledger = ledger } })
  ]

-- The last line of the stage.
unfoldable pub recorded :
    PhaseState
    → Result TransitionError (PhaseState × RoundSummary)
    → PhaseState × Result ExecutorError RoundSummary
recorded p (ok (q, summary)) = (q, ok summary)
recorded p (err e) = (p, err (transition e))

-- The error of the file of findings, which is written if there are any; `appended` is the error of
-- writing it, if that fails.
unfoldable pub append_findings : Option Text → List Finding → Option Text
append_findings appended findings = if is_empty findings then none else appended

-- What follows the loop.
unfoldable pub close_round :
    Option Text → RoundResults → PhaseState × Result ExecutorError RoundSummary
unfolding record_review_round recorded append_findings
close_round appended s =
    if s.survivors == 0
    then (s.phase, err no_reviewers_survived)
    else elim (append_findings appended s.findings) [
      | some message ↦ (s.phase, err (io message))
      | none ↦ recorded s.phase (record_review_round s.phase s.findings)
    ]

-- The variables before the loop: the round's allowances are fresh.
unfoldable pub round_of : PhaseState → RoundResults
unfolding Budget.reset_round_retries
round_of p = record {
  phase = record p { ledger = Budget.reset_round_retries p.ledger };
  survivors = 0;
  findings = [];
}

-- `prepared` is the error of the round's directory, if making it fails.
unfoldable pub execute_review_round :
    Externals
    → Option Text
    → Option Text
    → List ReviewerTurn
    → PhaseState
    → PhaseState × Result ExecutorError RoundSummary
unfolding collect close_round round_of
execute_review_round x prepared appended turns p = elim prepared [
  | some message ↦ (p, err (io message))
  | none ↦ close_round appended (collect x p.round turns (round_of p))
]
