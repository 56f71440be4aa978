-- ===== src/Run/Executor/Turns.antt =====
-- executor.rs: errors, retries, and the loop that prompts an agent again.
use agentchat.Prelude.{◌≡◌, refl, ◌⊎◌, inl, inr, ℕ, ◌+◌, ◌-◌, zero, suc, Bool, Option, none, some}
use agentchat.Text.{Text}
use agentchat.Protocol.Run.{RetryKind, agent_failure, invalid_output}
use agentchat.Run.Budget
use agentchat.Run.Budget.{is_allowed}
use agentchat.Run.State.{PhaseState, TransitionError}

pub data ExecutorError : Type 0 where
  transition : TransitionError → ExecutorError
  agent : (role message : Text) → ExecutorError
  missing_output : (role path : Text) → ExecutorError
  no_reviewers_survived : ExecutorError
  io : Text → ExecutorError

abbrev pub retry_kind_for : ExecutorError → RetryKind
retry_kind_for (agent role message) = agent_failure
retry_kind_for _ = invalid_output

unfoldable pub retry_allowed : PhaseState → RetryKind → PhaseState × Bool
unfolding Budget.record_free_retry
retry_allowed p kind =
    let (ledger, outcome) = Budget.record_free_retry p.ledger kind in
    (record p { ledger = ledger }, is_allowed outcome)

-- What is left of the allowances that the author draws on.
abbrev pub allowance : PhaseState → ℕ
allowance p =
    let l = p.ledger in
    (l.config.free_retries.invalid_output - l.retries.invalid_output)
    + (l.config.free_retries.disposition - l.retries.disposition)

-- How a pass of a loop ends: with a `return`, or at the next pass.
pub data Pass {ℓ} (A : Type ℓ) : Type ℓ where
  return : A → Pass A
  continue : Pass A

pub Pass-cases {ℓ} : {A : Type ℓ} (e : Pass A) → ((a : A) × (e ≡ return a)) ⊎ (e ≡ continue)
Pass-cases (return a) = inl (a, refl)
Pass-cases continue = inr refl

module _ {ℓ} {A : Type ℓ} (pass : PhaseState → ℕ → PhaseState × Pass A) where
  -- `loop`, with the number of the pass. It runs out of fuel where it does not return.
  unfoldable pub repeat : ℕ → ℕ → PhaseState → Option (PhaseState × A)
  repeat zero n p = none
  repeat (suc fuel) n p =
      let (q, end) = pass p n in
      let rest = repeat fuel (suc n) q in elim end [ return a ↦ some (q, a) | continue ↦ rest ]
