-- ===== src/Run/Executor/Author.antt =====
-- executor.rs: `prompt_until_written` and `execute_author`.
use agentchat.Prelude.{ℕ, Bool, Option, none, some, if◌then◌else◌, Result, ok, err}
use agentchat.Text.{Text}
use agentchat.Protocol.Run.{invalid_output}
use agentchat.Run.State.{PhaseState, record_draft}
use agentchat.Run.Executor.Turns.{
  ExecutorError, transition, agent, missing_output, retry_allowed, Pass, return, continue, repeat,
}

-- One turn of the author: the error of the prompt, if it failed, and whether the artifact is there
-- and not empty afterwards.
pub record AuthorTurn : Type 0 where
  pub failure : Option Text
  pub written : Bool

module _ (role path : Text) (turns : ℕ → AuthorTurn) where
  unfoldable pub author_pass : PhaseState → ℕ → PhaseState × Pass (Result ExecutorError (Unit {0}))
  unfolding retry_allowed
  author_pass p n = elim (turns n).failure [
    | some message ↦ (p, return (err (agent role message)))
    | none ↦
        let (q, may_retry) = retry_allowed p invalid_output in
        if (turns n).written
        then (p, return (ok tt))
        else if may_retry
        then (q, continue)
        else (q, return (err (missing_output role path)))
  ]

  unfoldable pub prompt_until_written :
      ℕ → PhaseState → Option (PhaseState × Result ExecutorError (Unit {0}))
  unfolding repeat author_pass
  prompt_until_written fuel p = repeat author_pass fuel 0 p

  -- What follows the loop.
  unfoldable pub drafted :
      PhaseState × Result ExecutorError (Unit {0}) → PhaseState × Result ExecutorError ℕ
  unfolding record_draft
  drafted (p, err e) = (p, err e)
  drafted (p, ok _) = elim (record_draft p) [
    | ok (q, version) ↦ (q, ok version)
    | err e ↦ (p, err (transition e))
  ]

  unfoldable pub execute_author : ℕ → PhaseState → Option (PhaseState × Result ExecutorError ℕ)
  unfolding prompt_until_written drafted
  execute_author fuel p = elim (prompt_until_written fuel p) [
    | none ↦ none
    | some r ↦ some (drafted r)
  ]
