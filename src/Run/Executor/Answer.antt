-- ===== src/Run/Executor/Answer.antt =====
-- executor.rs: `execute_disposition`.
use agentchat.Prelude.{ℕ, List, Option, none, some, is_empty, if◌then◌else◌, Result, ok, err}
use agentchat.Text.{Text}
use agentchat.Protocol.Run.{Disposition, invalid_output, disposition}
use agentchat.Run.Disposition.{GateRejection, declined_advisory}
use agentchat.Run.State.{
  PhaseState, DispositionOutcome, rejected, next_round, to_approval, TransitionError,
  record_disposition, record_stuck,
}
use agentchat.Run.Executor.Turns.{
  ExecutorError, transition, agent, io, retry_allowed, Pass, return, continue, repeat,
}

-- One turn of the author: the error of the prompt, if it failed, and what reading its file gives.
pub record AnswerTurn : Type 0 where
  pub failure : Option Text
  pub file : Result Text (List Disposition)

abbrev pub Outcome : Type 0
Outcome = Result ExecutorError DispositionOutcome

-- A file that cannot be read.
unfoldable pub unread : PhaseState → Text → PhaseState × Pass Outcome
unfolding retry_allowed
unread p error =
    let (q, may_retry) = retry_allowed p invalid_output in
    if may_retry then (q, continue) else (q, return (err (io error)))

-- A submission that the gate rejects.
unfoldable pub turned_down : PhaseState → GateRejection → PhaseState × Pass Outcome
unfolding retry_allowed record_stuck
turned_down p rejection =
    let (q, may_retry) = retry_allowed p disposition in
    if may_retry then (q, continue) else ((record_stuck q).0, return (ok (rejected rejection)))

-- `followups` is the error of the file of follow-ups, if writing it fails.
module _ (role : Text) (followups : Option Text) where
  unfoldable pub write_followups : PhaseState → Option Text
  unfolding declined_advisory
  write_followups p =
      if is_empty (declined_advisory p.findings p.dispositions) then none else followups

  unfoldable pub accepted_answer : PhaseState → DispositionOutcome → PhaseState × Pass Outcome
  unfolding write_followups
  accepted_answer p outcome = elim (write_followups p) [
    | some message ↦ (p, return (err (io message)))
    | none ↦ (p, return (ok outcome))
  ]

  unfoldable pub submit :
      PhaseState
      → Result TransitionError (PhaseState × DispositionOutcome)
      → PhaseState × Pass Outcome
  unfolding turned_down accepted_answer
  submit p (err e) = (p, return (err (transition e)))
  submit p (ok (q, rejected rejection)) = turned_down q rejection
  submit p (ok (q, next_round round version)) = accepted_answer q (next_round round version)
  submit p (ok (q, to_approval reason)) = accepted_answer q (to_approval reason)

  unfoldable pub answer_pass : (ℕ → AnswerTurn) → PhaseState → ℕ → PhaseState × Pass Outcome
  unfolding unread submit record_disposition
  answer_pass turns p n = elim (turns n).failure [
    | some message ↦ (p, return (err (agent role message)))
    | none ↦ elim (turns n).file [
      | err error ↦ unread p error
      | ok dispositions ↦ submit p (record_disposition p dispositions)
    ]
  ]

  unfoldable pub execute_disposition :
      (ℕ → AnswerTurn) → ℕ → PhaseState → Option (PhaseState × Outcome)
  unfolding repeat answer_pass
  execute_disposition turns fuel p = repeat (answer_pass turns) fuel 0 p
