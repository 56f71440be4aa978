-- ===== src/Run/Budget/Retries.antt =====
-- budget.rs: free retries never spend the cycle budget, and a human rejection restores all of it.
use agentchat.Prelude.{
  ℕ, zero, suc, ◌-◌, ◌≤◌, min, ◌≡◌, refl, ◌∙◌, Bool, true, false, List, [], ◌∷◌, some, arith,
  u32_max, ◌≢◌, inl, inr, Bool-cases, All, if◌then◌else◌,
}
use agentchat.Protocol.Run.{RetryKind, invalid_output, agent_failure, disposition, ExitReason}
use agentchat.Run.Budget.{
  CycleLedger, get, retry_limit, new, record_cycle, record_revision_without_review,
  record_free_retry, mark_stuck, reset_round_retries, record_human_rejection, is_allowed,
}
use agentchat.Run.Budget.Ledger.{
  Op, cycle, revision, retry, give_up, next_round, human_rejection, step, run,
}

-- How many of `n` requests for one kind of retry, one after the other, are granted.
pub granted : CycleLedger → RetryKind → ℕ → ℕ
granted l k zero = 0
granted l k (suc n) =
    let (l', outcome) = record_free_retry l k in
    let rest = granted l' k n in if is_allowed outcome then suc rest else rest

granted_from :
    (l : CycleLedger) (k : RetryKind) (n : ℕ)
    → retry_limit l k ≤ u32_max
    → get l.retries k ≤ retry_limit l k
    → granted l k n ≡ min n (retry_limit l k - get l.retries k)
unfolding granted record_free_retry
granted_from l k zero w h = omega arith
granted_from l invalid_output (suc n) w h =
    ground (arith, granted_from (record_free_retry l invalid_output).0 invalid_output n)
granted_from l agent_failure (suc n) w h =
    ground (arith, granted_from (record_free_retry l agent_failure).0 agent_failure n)
granted_from l disposition (suc n) w h =
    ground (arith, granted_from (record_free_retry l disposition).0 disposition n)

-- From the start of a round, `n` requests for a retry of one kind are granted up to the configured
-- limit of that kind, a 32-bit number, and no further.
pub granted-reset_round_retries :
    (l : CycleLedger) (k : RetryKind) (n : ℕ)
    → retry_limit l k ≤ u32_max
    → granted (reset_round_retries l) k n ≡ min n (retry_limit l k)
unfolding reset_round_retries
granted-reset_round_retries l invalid_output n w =
    omega (arith, granted_from (reset_round_retries l) invalid_output n w (omega arith))
granted-reset_round_retries l agent_failure n w =
    omega (arith, granted_from (reset_round_retries l) agent_failure n w (omega arith))
granted-reset_round_retries l disposition n w =
    omega (arith, granted_from (reset_round_retries l) disposition n w (omega arith))

-- Two ledgers that agree on all that decides when a phase stops.
pub record SameBudget (l m : CycleLedger) : Type 0 where
  pub same_config : l.config ≡ m.config
  pub same_used : l.cycles_used ≡ m.cycles_used
  pub same_revisions :
      l.consecutive_revisions_without_review ≡ m.consecutive_revisions_without_review
  pub same_history : l.new_blocking_history ≡ m.new_blocking_history
  pub same_exit : l.exit_reason ≡ m.exit_reason

-- Operations that are not retries nor the start of a round.
abbrev pub spends : Op → Bool
spends (retry k) = false
spends next_round = false
spends _ = true

abbrev pub spending : List Op → List Op
spending [] = []
spending (o ∷ os) = let rest = spending os in if spends o then o ∷ rest else rest

step-SameBudget :
    (l m : CycleLedger) (o : Op)
    → spends o ≡ true
    → SameBudget l m
    → SameBudget (step l o) (step m o)
unfolding step record_cycle record_revision_without_review mark_stuck record_human_rejection
step-SameBudget l m (cycle n) h s = ground arith
step-SameBudget l m revision h s = ground arith
step-SameBudget l m give_up h s = ground arith
step-SameBudget l m human_rejection h s = ground arith
step-SameBudget l m (retry k) h s = cc
step-SameBudget l m next_round h s = cc

free-SameBudget :
    (l m : CycleLedger) (o : Op) → spends o ≡ false → SameBudget l m → SameBudget (step l o) m
unfolding step record_free_retry reset_round_retries
free-SameBudget l m (retry k) h s = ground arith
free-SameBudget l m next_round h s = ground arith
free-SameBudget l m (cycle n) h s = cc
free-SameBudget l m revision h s = cc
free-SameBudget l m give_up h s = cc
free-SameBudget l m human_rejection h s = cc

run-SameBudget :
    (l m : CycleLedger) (os : List Op)
    → SameBudget l m
    → SameBudget (run l os) (run m (spending os))
unfolding run
run-SameBudget l m [] s = s
run-SameBudget l m (o ∷ os) s = elim (Bool-cases (spends o)) [
  | inl h ↦ rw h (run-SameBudget (step l o) (step m o) os (step-SameBudget l m o h s))
  | inr h ↦ rw h (run-SameBudget (step l o) m os (free-SameBudget l m o h s))
]

-- Retries are free: with every request for a retry, granted or not, and every start of a round taken
-- out of a history, the ledger has the same cycles, history and exit.
pub run-spending : (l : CycleLedger) (os : List Op) → SameBudget (run l os) (run l (spending os))
run-spending l os = run-SameBudget l l os (ground arith)

-- A phase that the human sends back has a full budget: whatever follows, its ledger has the cycles,
-- the history and the exit of a new ledger with the same configuration after the same operations, less
-- the requests for a retry and the starts of a round.
pub run-record_human_rejection :
    (l : CycleLedger) (os : List Op)
    → SameBudget (run (record_human_rejection l) os) (run (new l.config) (spending os))
unfolding record_human_rejection new
run-record_human_rejection l os =
    run-SameBudget (record_human_rejection l) (new l.config) os (ground arith)

exit_kept :
    (l : CycleLedger) (o : Op) (r : ExitReason)
    → o ≢ human_rejection
    → l.exit_reason ≡ some r
    → ((step l o).exit_reason ≡ some r) × ((step l o).cycles_used ≡ l.cycles_used)
unfolding step record_cycle record_revision_without_review mark_stuck record_free_retry
    reset_round_retries
exit_kept l (cycle n) r h e = ground arith
exit_kept l revision r h e = ground arith
exit_kept l (retry k) r h e = ground arith
exit_kept l give_up r h e = ground arith
exit_kept l next_round r h e = ground arith
exit_kept l human_rejection r h e = absurd (h refl)

-- Once a ledger has an exit reason, any operations but the human's rejection leave the reason and the
-- number of cycles as they are.
pub run_exited :
    (l : CycleLedger) (os : List Op) (r : ExitReason)
    → All (λ o. o ≢ human_rejection) os
    → l.exit_reason ≡ some r
    → ((run l os).exit_reason ≡ some r) × ((run l os).cycles_used ≡ l.cycles_used)
unfolding run
run_exited l [] r h e = (e, refl)
run_exited l (o ∷ os) r h e =
    let k = exit_kept l o r h.0 e in
    let ih = run_exited (step l o) os r h.1 k.0 in (ih.0, ih.1 ∙ k.1)
