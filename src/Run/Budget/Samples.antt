-- ===== src/Run/Budget/Samples.antt =====
-- Runs of the ledger, and the theorems about it at concrete inputs.
use agentchat.Prelude.{ℕ, ◌≤◌, ◌≡◌, refl, true, List, [], ◌∷◌, some, length, arith}
use agentchat.Protocol.Run.{
  CycleBudgetConfig, default_budget, default_free_retries, agent_failure, disposition, converged,
  churn, cycle_cap, stuck,
}
use agentchat.Run.Budget.{is_terminal, new, record_cycle, record_revision_without_review}
use agentchat.Run.Budget.Cycles.{record_cycles, record_cycles_exits, record_cycles-le-first}
use agentchat.Run.Budget.Ledger.{Op, cycle, revision, retry, next_round, run, step}
use agentchat.Run.Budget.Retries.{SameBudget, run-spending}

abbrev generous : CycleBudgetConfig
generous = record { max_cycles = 5; free_retries = default_free_retries }

-- The tests of budget.rs.
converges : (record_cycles (new default_budget) (0 ∷ [])).exit_reason ≡ some converged
unfolding record_cycles record_cycle new
converges = refl

holding_steady_churns : (record_cycles (new generous) (3 ∷ 3 ∷ [])).exit_reason ≡ some churn
unfolding record_cycles record_cycle new
holding_steady_churns = refl

shrinking_runs_to_the_cap :
    (record_cycles (new default_budget) (4 ∷ 2 ∷ [])).exit_reason ≡ some cycle_cap
unfolding record_cycles record_cycle new
shrinking_runs_to_the_cap = refl

two_revisions_are_stuck :
    (run (new default_budget) (revision ∷ revision ∷ [])).exit_reason ≡ some stuck
unfolding run step record_revision_without_review new
two_revisions_are_stuck = refl

abbrev history : List Op
history = retry agent_failure ∷ cycle 3 ∷ next_round ∷ retry disposition ∷ cycle 1 ∷ []

record_cycles_exits_example : is_terminal (record_cycles (new default_budget) (4 ∷ 2 ∷ [])) ≡ true
record_cycles_exits_example =
    record_cycles_exits default_budget (4 ∷ 2 ∷ []) (omega arith) (omega arith) (omega arith)

record_cycles-le-first_example : length {A = ℕ} (4 ∷ 3 ∷ 1 ∷ []) ≤ 4
unfolding record_cycles record_cycle new
record_cycles-le-first_example = record_cycles-le-first generous 4 (3 ∷ 1 ∷ []) refl

run-spending_example :
    SameBudget (run (new generous) history) (run (new generous) (cycle 3 ∷ cycle 1 ∷ []))
run-spending_example = run-spending (new generous) history
