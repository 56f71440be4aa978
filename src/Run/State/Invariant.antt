-- ===== src/Run/State/Invariant.antt =====
-- state.rs: what holds of a phase after any sequence of calls.
use agentchat.Prelude.{
  ℕ, ◌+◌, ◌≡◌, Bool, true, false, List, [], ◌∷◌, arith, length, is_some, saturating_suc, Result, ok,
  err, ◌⊎◌, inl, inr,
}
use agentchat.Protocol.Run.{
  CycleBudgetConfig, Disposition, Finding, PhaseKind, StageKind, authoring, reviewing,
  dispositioning, awaiting_approval, RetryKind,
}
use agentchat.Run.Budget
use agentchat.Run.Budget.{CycleLedger}
use agentchat.Run.Budget.Ledger
use agentchat.Run.Findings.{blocking_findings}
use agentchat.Run.Findings.Rounds.{length-blocking_findings-append}
use agentchat.Run.Disposition.{evaluate_gate, pass}
use agentchat.Run.State.Phase.{
  PhaseState, TransitionError, new_phase, record_draft, record_review_round, record_disposition,
  accept_dispositions, record_revision_without_review, record_stuck, record_human_rejection,
  exit_reason,
}

pub data Call : Type 0 where
  draft : Call
  review : List Finding → Call
  dispose : List Disposition → Call
  revision : Call
  stuck : Call
  human_rejection : Call
  free_retry : RetryKind → Call
  round_start : Call

-- The state after a call: a call that fails leaves the phase as it was.
abbrev pub after {ℓ} :
    {A : Type ℓ} → PhaseState → Result TransitionError (PhaseState × A) → PhaseState
after p (ok (q, a)) = q
after p (err e) = p

unfoldable pub call : PhaseState → Call → PhaseState
call p draft = after p (record_draft p)
call p (review fs) = after p (record_review_round p fs)
call p (dispose ds) = after p (record_disposition p ds)
call p revision = (record_revision_without_review p).0
call p stuck = (record_stuck p).0
call p human_rejection = record_human_rejection p
call p (free_retry k) = record p { ledger = (Budget.record_free_retry p.ledger k).0 }
call p round_start = record p { ledger = Budget.reset_round_retries p.ledger }

unfoldable pub calls : PhaseState → List Call → PhaseState
calls p [] = p
calls p (c ∷ cs) = calls (call p c) cs

abbrev pub sum : List ℕ → ℕ
sum [] = 0
sum (n ∷ ns) = n + sum ns

-- The phase is between two rounds: nothing is waiting for the author.
abbrev pub is_idle : StageKind → Bool
is_idle authoring = true
is_idle reviewing = true
is_idle _ = false

abbrev pub in_round : StageKind → Bool
in_round reviewing = true
in_round dispositioning = true
in_round _ = false

pub record IsSound (p : PhaseState) : Type 0 where
  -- A phase waits for the human exactly when its ledger has an exit reason.
  pub gate_has_reason : p.stage ≡ awaiting_approval → is_some (exit_reason p) ≡ true
  pub reason_at_gate : is_some (exit_reason p) ≡ true → p.stage ≡ awaiting_approval
  pub idle_findings : is_idle p.stage ≡ true → p.current_round_findings ≡ []
  pub idle_pending : is_idle p.stage ≡ true → p.pending_new_blocking ≡ 0
  -- The history and the open round together count the distinct blocking findings raised.
  pub raised :
      sum p.ledger.new_blocking_history + p.pending_new_blocking
      ≡ length (blocking_findings p.findings)
  pub fresh : p.stage ≡ authoring → p.ledger.cycles_used ≡ 0
  pub round_counts : in_round p.stage ≡ true → p.round ≡ saturating_suc p.ledger.cycles_used

new_phase-IsSound : (k : PhaseKind) (c : CycleBudgetConfig) → IsSound (new_phase k c)
unfolding new_phase blocking_findings
new_phase-IsSound k c = ground arith

draft-IsSound : (p : PhaseState) → IsSound p → IsSound (after p (record_draft p))
unfolding record_draft
draft-IsSound p s = ground arith

review-IsSound :
    (p : PhaseState) (fs : List Finding) → IsSound p → IsSound (after p (record_review_round p fs))
unfolding record_review_round
review-IsSound p fs s = ground (arith, length-blocking_findings-append p.findings fs)

accept-IsSound :
    (p : PhaseState) (ds : List Disposition)
    → p.stage ≡ dispositioning
    → IsSound p
    → IsSound (accept_dispositions p ds).0
unfolding accept_dispositions
accept-IsSound p ds e s = ground arith

-- A submission changes the phase only in its stage, and only if the gate passes.
pub dispose_cases :
    (p : PhaseState) (ds : List Disposition)
    → (after p (record_disposition p ds) ≡ p)
      ⊎ ((p.stage ≡ dispositioning)
          × (evaluate_gate p.current_round_findings ds ≡ pass)
          × (after p (record_disposition p ds) ≡ (accept_dispositions p ds).0))
unfolding record_disposition
dispose_cases p ds = ground arith

dispose-IsSound :
    (p : PhaseState) (ds : List Disposition)
    → IsSound p
    → IsSound (after p (record_disposition p ds))
dispose-IsSound p ds s = elim (dispose_cases p ds) [
  | inl e ↦ rw e s
  | inr (stage, _, e) ↦ rw e (accept-IsSound p ds stage s)
]

revision-IsSound : (p : PhaseState) → IsSound p → IsSound (record_revision_without_review p).0
unfolding record_revision_without_review
revision-IsSound p s = ground arith

stuck-IsSound : (p : PhaseState) → IsSound p → IsSound (record_stuck p).0
unfolding record_stuck
stuck-IsSound p s = ground arith

pub human-IsSound : (p : PhaseState) → IsSound p → IsSound (record_human_rejection p)
unfolding record_human_rejection blocking_findings
human-IsSound p s = ground arith

retry-IsSound :
    (p : PhaseState) (k : RetryKind)
    → IsSound p
    → IsSound (record p { ledger = (Budget.record_free_retry p.ledger k).0 })
unfolding Budget.record_free_retry
retry-IsSound p k s = ground arith

-- Every call keeps a phase sound.
pub call-IsSound : (p : PhaseState) (c : Call) → IsSound p → IsSound (call p c)
unfolding call Budget.reset_round_retries
call-IsSound p draft s = draft-IsSound p s
call-IsSound p (review fs) s = review-IsSound p fs s
call-IsSound p (dispose ds) s = dispose-IsSound p ds s
call-IsSound p revision s = revision-IsSound p s
call-IsSound p stuck s = stuck-IsSound p s
call-IsSound p human_rejection s = human-IsSound p s
call-IsSound p (free_retry k) s = retry-IsSound p k s
call-IsSound p round_start s = ground arith

pub calls-IsSound : (p : PhaseState) (cs : List Call) → IsSound p → IsSound (calls p cs)
unfolding calls
calls-IsSound p [] s = s
calls-IsSound p (c ∷ cs) s = calls-IsSound (call p c) cs (call-IsSound p c s)

-- After any calls, in any order, a new phase waits for the human exactly when its ledger has an exit
-- reason; between rounds no finding and no count is pending; the ledger's history and the pending
-- count add up to the distinct blocking findings of the phase; while a draft is due no cycle is
-- counted; and in a round, the round's number is one more than the cycles.
pub calls_new-IsSound :
    (k : PhaseKind) (b : CycleBudgetConfig) (cs : List Call) → IsSound (calls (new_phase k b) cs)
calls_new-IsSound k b cs = calls-IsSound (new_phase k b) cs (new_phase-IsSound k b)

pub ledger-accept_dispositions :
    (p : PhaseState) (ds : List Disposition)
    → (accept_dispositions p ds).0.ledger ≡ Budget.record_cycle p.ledger p.pending_new_blocking
unfolding accept_dispositions
ledger-accept_dispositions p ds = ground arith

call-IsValid :
    (p : PhaseState) (c : Call) → Ledger.IsValid p.ledger → Ledger.IsValid (call p c).ledger
unfolding call record_draft record_review_round Ledger.step
call-IsValid p draft v = ground arith
call-IsValid p (review fs) v = ground arith
call-IsValid p (dispose ds) v = elim (dispose_cases p ds) [
  | inl e ↦ rw e v
  | inr (_, _, e) ↦
      rw (e, ledger-accept_dispositions p ds)
        (Ledger.step-IsValid p.ledger (Ledger.cycle p.pending_new_blocking) v)
]
call-IsValid p revision v =
    unfold record_revision_without_review in Ledger.step-IsValid p.ledger Ledger.revision v
call-IsValid p stuck v = unfold record_stuck in Ledger.step-IsValid p.ledger Ledger.give_up v
call-IsValid p human_rejection v =
    unfold record_human_rejection in Ledger.step-IsValid p.ledger Ledger.human_rejection v
call-IsValid p (free_retry k) v = Ledger.step-IsValid p.ledger (Ledger.retry k) v
call-IsValid p round_start v = Ledger.step-IsValid p.ledger Ledger.next_round v

pub calls-IsValid :
    (p : PhaseState) (cs : List Call) → Ledger.IsValid p.ledger → Ledger.IsValid (calls p cs).ledger
unfolding calls
calls-IsValid p [] v = v
calls-IsValid p (c ∷ cs) v = calls-IsValid (call p c) cs (call-IsValid p c v)

-- After any calls, in any order, the ledger of a new phase counts its history's entries, up to the
-- 32-bit limit, and no retry allowance is overdrawn; without an exit reason its history is positive
-- and strictly falling, its cycles are below the cap once there is one, and at most one revision in a
-- row went without a review.
pub calls_new-IsValid :
    (k : PhaseKind) (b : CycleBudgetConfig) (cs : List Call)
    → Ledger.IsValid (calls (new_phase k b) cs).ledger
calls_new-IsValid k b cs =
    calls-IsValid (new_phase k b) cs (unfold new_phase in Ledger.new-IsValid b)
