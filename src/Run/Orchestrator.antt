-- ===== src/Run/Orchestrator.antt =====
-- daemon/core/src/run/orchestrator.rs: the loop that drives a phase to its gate. What the agents and
-- the file system do at each stage is a value of `StageWorld`; the loop takes fuel, and the loops of
-- a stage as much as the round's allowances need.
pub mod Stages
pub mod Drivable
pub mod Rounds
pub mod Nearer
pub mod Progress
pub mod Gate
pub mod Until
pub mod Kept
pub mod Safety
mod Samples
use agentchat.Prelude.{ℕ, zero, suc, List, Option, none, some, if◌then◌else◌, Result, ok, err}
use agentchat.Text.{Text}
use agentchat.Protocol.Run.{
  PhaseKind, plan, code, ExitReason, StageKind, authoring, reviewing, dispositioning,
  awaiting_approval,
}
use agentchat.Run.Findings.{Externals}
use agentchat.Run.State.{PhaseState, exit_reason, is_awaiting_approval, RunState}
use agentchat.Run.Executor.Turns.{ExecutorError, allowance, Pass, return, continue}
use agentchat.Run.Executor.Author.{AuthorTurn, execute_author}
use agentchat.Run.Executor.Review.{ReviewerTurn, execute_review_round}
use agentchat.Run.Executor.Answer.{AnswerTurn, execute_disposition}

-- What happens around one stage: the author's turns, the round's files and reviewers, the answers,
-- and the error of the snapshot that follows, if writing it fails.
pub record StageWorld : Type 0 where
  pub drafts : ℕ → AuthorTurn
  pub prepared : Option Text
  pub appended : Option Text
  pub reviews : List ReviewerTurn
  pub answers : ℕ → AnswerTurn
  pub followups : Option Text
  pub snapshot : Option Text

-- The errors, which the source turns into texts.
pub data DriveError : Type 0 where
  stage_failed : ExecutorError → DriveError
  snapshot_failed : Text → DriveError
  no_exit_reason : DriveError
  code_not_opened : DriveError

-- What the loop reads of a stage's result.
abbrev pub forget {ℓ} : {A : Type ℓ} → Result ExecutorError A → Result ExecutorError (Unit {0})
forget (ok _) = ok tt
forget (err e) = err e

abbrev pub forget_in {ℓ} :
    {A : Type ℓ}
    → Option (PhaseState × Result ExecutorError A)
    → Option (PhaseState × Result ExecutorError (Unit {0}))
forget_in none = none
forget_in (some (p, r)) = some (p, forget r)

-- A stage that failed ends the loop with its error, and so does a snapshot that failed.
unfoldable pub after_stage :
    Option Text
    → PhaseState × Result ExecutorError (Unit {0})
    → PhaseState × Pass (Result DriveError ExitReason)
after_stage snapshot (q, err e) = (q, return (err (stage_failed e)))
after_stage (some message) (q, ok _) = (q, return (err (snapshot_failed message)))
after_stage none (q, ok _) = (q, continue)

unfoldable pub reason_or_error : Option ExitReason → Result DriveError ExitReason
reason_or_error none = err no_exit_reason
reason_or_error (some reason) = ok reason

-- `phase(run, which)`.
unfoldable pub phase_of : RunState → PhaseKind → Result DriveError PhaseState
phase_of r plan = ok r.plan
phase_of r code = elim r.code [ none ↦ err code_not_opened | some p ↦ ok p ]

-- A write through `phase_mut(run, which)`.
unfoldable pub set_phase : RunState → PhaseKind → PhaseState → RunState
set_phase r plan p = record r { plan = p }
set_phase r code p = record r { code = some p }

module _ (x : Externals) (author artifact : Text) where
  -- The cases of the `match`; a phase that waits for the human has no stage to run.
  unfoldable pub run_stage_at :
      StageWorld → PhaseState → StageKind → Option (PhaseState × Result ExecutorError (Unit {0}))
  unfolding execute_author execute_review_round execute_disposition
  run_stage_at w p authoring =
      forget_in (execute_author author artifact w.drafts (suc (allowance p)) p)
  run_stage_at w p reviewing =
      forget_in (some (execute_review_round x w.prepared w.appended w.reviews p))
  run_stage_at w p dispositioning =
      forget_in (execute_disposition author w.followups w.answers (suc (allowance p)) p)
  run_stage_at w p awaiting_approval = some (p, ok tt)

  unfoldable pub run_stage :
      StageWorld → PhaseState → Option (PhaseState × Result ExecutorError (Unit {0}))
  unfolding run_stage_at
  run_stage w p = run_stage_at w p p.stage

  unfoldable pub drive_pass :
      StageWorld → PhaseState → Option (PhaseState × Pass (Result DriveError ExitReason))
  unfolding run_stage after_stage reason_or_error
  drive_pass w p =
      if is_awaiting_approval p
      then some (p, return (reason_or_error (exit_reason p)))
      else elim (run_stage w p) [ none ↦ none | some r ↦ some (after_stage w.snapshot r) ]

  -- The loop of `drive_phase`, on the phase that it reads and writes. The stages are numbered.
  unfoldable pub drive_stages :
      (ℕ → StageWorld) → ℕ → ℕ → PhaseState → Option (PhaseState × Result DriveError ExitReason)
  unfolding drive_pass
  drive_stages worlds zero n p = none
  drive_stages worlds (suc fuel) n p = elim (drive_pass (worlds n) p) [
    | none ↦ none
    | some (q, return r) ↦ some (q, r)
    | some (q, continue) ↦ drive_stages worlds fuel (suc n) q
  ]

  unfoldable pub drive_phase :
      (ℕ → StageWorld) → ℕ → RunState → PhaseKind → Option (RunState × Result DriveError ExitReason)
  unfolding drive_stages phase_of set_phase
  drive_phase worlds fuel run which = elim (phase_of run which) [
    | err e ↦ some (run, err e)
    | ok p ↦ elim (drive_stages worlds fuel 0 p) [
      | none ↦ none
      | some (q, r) ↦ some (set_phase run which q, r)
    ]
  ]
