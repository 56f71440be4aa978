-- ===== src/Run/Budget.antt =====
-- daemon/core/src/run/budget.rs: cycle accounting and stop conditions of a phase.
pub mod Ledger
pub mod Cycles
pub mod Retries
mod Samples
use agentchat.Prelude.{
  ℕ, ◌+◌, Bool, true, false, not, ◌&&◌, List, [], ◌∷◌, ◌++◌, Option, none, some, ltb, leb, nat_eqb,
  if◌then◌else◌, is_some, length, saturating_suc,
}
use agentchat.Protocol.Run.{
  CycleBudgetConfig, RetryKind, invalid_output, agent_failure, disposition, ExitReason, converged,
  churn, cycle_cap, stuck,
}

abbrev pub max_consecutive_revisions_without_review : ℕ
max_consecutive_revisions_without_review = 1

pub record RetryTally : Type 0 where
  pub invalid_output : ℕ
  pub agent_failure : ℕ
  pub disposition : ℕ

-- `RetryTally::default`.
abbrev pub no_retries : RetryTally
no_retries = record { invalid_output = 0; agent_failure = 0; disposition = 0 }

-- `RetryTally::get`.
abbrev pub get : RetryTally → RetryKind → ℕ
get t invalid_output = t.invalid_output
get t agent_failure = t.agent_failure
get t disposition = t.disposition

unfoldable pub increment : RetryTally → RetryKind → RetryTally
increment t invalid_output = record t { invalid_output = saturating_suc t.invalid_output }
increment t agent_failure = record t { agent_failure = saturating_suc t.agent_failure }
increment t disposition = record t { disposition = saturating_suc t.disposition }

pub data RetryOutcome : Type 0 where
  allowed : (used limit : ℕ) → RetryOutcome
  exhausted : (limit : ℕ) → RetryOutcome

abbrev pub is_allowed : RetryOutcome → Bool
is_allowed (allowed used limit) = true
is_allowed (exhausted limit) = false

-- The newest entry of `new_blocking_history` stands first.
pub record CycleLedger : Type 0 where
  pub config : CycleBudgetConfig
  pub cycles_used : ℕ
  pub consecutive_revisions_without_review : ℕ
  pub retries : RetryTally
  pub new_blocking_history : List ℕ
  pub human_iterations : ℕ
  pub exit_reason : Option ExitReason

unfoldable pub new : CycleBudgetConfig → CycleLedger
new config = record {
  config = config;
  cycles_used = 0;
  consecutive_revisions_without_review = 0;
  retries = no_retries;
  new_blocking_history = [];
  human_iterations = 0;
  exit_reason = none;
}

abbrev pub is_terminal : CycleLedger → Bool
is_terminal l = is_some l.exit_reason

unfoldable pub has_budget : CycleLedger → Bool
has_budget l = not (is_terminal l) && ltb l.cycles_used l.config.max_cycles

-- The tests of `evaluate` on the last entry and the one before it.
unfoldable pub holds_or_grows : ℕ → List ℕ → Bool
holds_or_grows last [] = false
holds_or_grows last (before ∷ _) = leb before last

unfoldable pub evaluate_history : ℕ → ℕ → List ℕ → Option ExitReason
unfolding holds_or_grows
evaluate_history used cap [] = none
evaluate_history used cap (last ∷ earlier) =
    if nat_eqb last 0
    then some converged
    else if holds_or_grows last earlier
    then some churn
    else if leb cap used
    then some cycle_cap
    else none

unfoldable pub evaluate : CycleLedger → Option ExitReason
unfolding evaluate_history
evaluate l =
    if ltb max_consecutive_revisions_without_review l.consecutive_revisions_without_review
    then some stuck
    else evaluate_history l.cycles_used l.config.max_cycles l.new_blocking_history

-- The early return on a ledger that has exited; else the exit is that of the changed ledger.
abbrev settle : CycleLedger → CycleLedger → CycleLedger
settle l changed = elim l.exit_reason [
  | some _ ↦ l
  | none ↦ record changed { exit_reason = evaluate changed }
]

-- Each `record_*` returns the ledger; the `Option<ExitReason>` it returns is the field `exit_reason`.
unfoldable pub record_cycle : CycleLedger → ℕ → CycleLedger
unfolding evaluate
record_cycle l new_blocking = settle l (record l {
  cycles_used = saturating_suc l.cycles_used;
  new_blocking_history = new_blocking ∷ l.new_blocking_history;
  consecutive_revisions_without_review = 0;
})

unfoldable pub record_revision_without_review : CycleLedger → CycleLedger
unfolding evaluate
record_revision_without_review l = settle l (record l {
  consecutive_revisions_without_review = saturating_suc l.consecutive_revisions_without_review;
})

abbrev pub retry_limit : CycleLedger → RetryKind → ℕ
retry_limit l invalid_output = l.config.free_retries.invalid_output
retry_limit l agent_failure = l.config.free_retries.agent_failure
retry_limit l disposition = l.config.free_retries.disposition

unfoldable pub record_free_retry : CycleLedger → RetryKind → CycleLedger × RetryOutcome
unfolding increment
record_free_retry l kind =
    let limit = retry_limit l kind in
    let retries = increment l.retries kind in
    if leb limit (get l.retries kind)
    then (l, exhausted limit)
    else (record l { retries = retries }, allowed (get retries kind) limit)

unfoldable pub mark_stuck : CycleLedger → CycleLedger × ExitReason
mark_stuck l = elim l.exit_reason [
  | some reason ↦ (l, reason)
  | none ↦ (record l { exit_reason = some stuck }, stuck)
]

unfoldable pub reset_round_retries : CycleLedger → CycleLedger
reset_round_retries l = record l { retries = no_retries }

unfoldable pub record_human_rejection : CycleLedger → CycleLedger
record_human_rejection l = record l {
  cycles_used = 0;
  consecutive_revisions_without_review = 0;
  retries = no_retries;
  new_blocking_history = [];
  exit_reason = none;
  human_iterations = saturating_suc l.human_iterations;
}
