-- ===== src/Run/Budget/Ledger.antt =====
-- budget.rs: what holds of a ledger after any sequence of its operations.
use agentchat.Prelude.{ℕ, ◌≤◌, ◌<◌, min, ◌≡◌, List, [], ◌∷◌, none, arith, length, u32_max, ◌⊎◌}
use agentchat.Protocol.Run.{
  CycleBudgetConfig, RetryKind, invalid_output, agent_failure, disposition,
}
use agentchat.Run.Budget.{
  CycleLedger, new, record_cycle, record_revision_without_review, record_free_retry, mark_stuck,
  reset_round_retries, record_human_rejection,
}

-- Every entry is positive, and smaller than the one before it.
abbrev pub IsFalling : List ℕ → Type 0
IsFalling [] = Unit
IsFalling (n ∷ []) = 0 < n
IsFalling (n ∷ (m ∷ ns)) = (0 < n) × (n < m) × IsFalling (m ∷ ns)

pub record IsValid (l : CycleLedger) : Type 0 where
  pub counted : l.cycles_used ≡ min (length l.new_blocking_history) u32_max
  pub falling : l.exit_reason ≡ none → IsFalling l.new_blocking_history
  pub below_cap :
      l.exit_reason ≡ none → (l.new_blocking_history ≡ []) ⊎ (l.cycles_used < l.config.max_cycles)
  pub calm : l.exit_reason ≡ none → l.consecutive_revisions_without_review ≤ 1
  pub invalid_output_in_limit : l.retries.invalid_output ≤ l.config.free_retries.invalid_output
  pub agent_failure_in_limit : l.retries.agent_failure ≤ l.config.free_retries.agent_failure
  pub disposition_in_limit : l.retries.disposition ≤ l.config.free_retries.disposition

pub data Op : Type 0 where
  cycle : ℕ → Op
  revision : Op
  retry : RetryKind → Op
  give_up : Op
  next_round : Op
  human_rejection : Op

unfoldable pub step : CycleLedger → Op → CycleLedger
step l (cycle n) = record_cycle l n
step l revision = record_revision_without_review l
step l (retry k) = (record_free_retry l k).0
step l give_up = (mark_stuck l).0
step l next_round = reset_round_retries l
step l human_rejection = record_human_rejection l

unfoldable pub run : CycleLedger → List Op → CycleLedger
run l [] = l
run l (o ∷ os) = run (step l o) os

pub new-IsValid : (c : CycleBudgetConfig) → IsValid (new c)
unfolding new
new-IsValid c = ground arith

pub record_cycle-IsValid : (l : CycleLedger) (n : ℕ) → IsValid l → IsValid (record_cycle l n)
unfolding record_cycle
record_cycle-IsValid l n v = ground arith

record_revision-IsValid : (l : CycleLedger) → IsValid l → IsValid (record_revision_without_review l)
unfolding record_revision_without_review
record_revision-IsValid l v = ground arith

record_free_retry-IsValid :
    (l : CycleLedger) (k : RetryKind) → IsValid l → IsValid (record_free_retry l k).0
unfolding record_free_retry
record_free_retry-IsValid l invalid_output v = ground arith
record_free_retry-IsValid l agent_failure v = ground arith
record_free_retry-IsValid l disposition v = ground arith

mark_stuck-IsValid : (l : CycleLedger) → IsValid l → IsValid (mark_stuck l).0
unfolding mark_stuck
mark_stuck-IsValid l v = ground arith

-- Every operation keeps the ledger valid.
pub step-IsValid : (l : CycleLedger) (o : Op) → IsValid l → IsValid (step l o)
unfolding step reset_round_retries record_human_rejection
step-IsValid l (cycle n) v = record_cycle-IsValid l n v
step-IsValid l revision v = record_revision-IsValid l v
step-IsValid l (retry k) v = record_free_retry-IsValid l k v
step-IsValid l give_up v = mark_stuck-IsValid l v
step-IsValid l next_round v = ground arith
step-IsValid l human_rejection v = ground arith

-- Any sequence of operations keeps a ledger valid: its cycles count the history's entries, up to the
-- 32-bit limit, and no retry allowance is overdrawn; without an exit reason the history is positive
-- and strictly falling, the cycles are below the cap once there is one, and at most one revision in a
-- row went without a review.
pub run-IsValid : (l : CycleLedger) (os : List Op) → IsValid l → IsValid (run l os)
unfolding run
run-IsValid l [] v = v
run-IsValid l (o ∷ os) v = run-IsValid (step l o) os (step-IsValid l o v)
