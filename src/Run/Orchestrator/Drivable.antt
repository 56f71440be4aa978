-- ===== src/Run/Orchestrator/Drivable.antt =====
-- orchestrator.rs: what the loop needs of a phase and keeps. No transition changes the budget.
use agentchat.Prelude.{◌≡◌, refl, ap, ◌∙◌, subst, ◌≤◌, List, [], ◌∷◌, arith, u32_max, inl, inr}
use agentchat.Run.Budget
use agentchat.Run.Budget.{CycleLedger}
use agentchat.Run.Budget.Ledger
use agentchat.Run.State.{
  PhaseState, record_draft, record_review_round, accept_dispositions, after_cycle,
  record_revision_without_review, record_stuck, record_human_rejection,
}
use agentchat.Run.State.Invariant
use agentchat.Run.State.Invariant.{
  Call, draft, review, dispose, revision, human_rejection, free_retry, round_start, call, calls,
  dispose_cases, IsSound, calls-IsSound, calls-IsValid,
}
use agentchat.Run.Executor.Retries.{FitsWords}
use agentchat.Run.Executor.Refinement.{Reaches}

config-step : (l : CycleLedger) (o : Ledger.Op) → (Ledger.step l o).config ≡ l.config
unfolding Ledger.step Budget.record_cycle Budget.record_revision_without_review
    Budget.record_free_retry Budget.mark_stuck Budget.reset_round_retries
    Budget.record_human_rejection
config-step l (Ledger.cycle n) = ground arith
config-step l Ledger.revision = ground arith
config-step l (Ledger.retry k) = ground arith
config-step l Ledger.give_up = ground arith
config-step l Ledger.next_round = ground arith
config-step l Ledger.human_rejection = ground arith

config-accept_dispositions :
    (p : PhaseState) (ds : List agentchat.Protocol.Run.Disposition)
    → (accept_dispositions p ds).0.ledger.config ≡ p.ledger.config
unfolding accept_dispositions after_cycle Budget.record_cycle
config-accept_dispositions p ds = ground arith

config-call : (p : PhaseState) (c : Call) → (call p c).ledger.config ≡ p.ledger.config
unfolding call record_draft record_review_round record_revision_without_review record_stuck
    record_human_rejection Budget.record_revision_without_review Budget.mark_stuck
    Budget.record_human_rejection Budget.record_free_retry Budget.reset_round_retries
config-call p draft = ground arith
config-call p (review fs) = ground arith
config-call p (dispose ds) = elim (dispose_cases p ds) [
  | inl e ↦ ap (λ q. q.ledger.config) e
  | inr (_, _, e) ↦ ap (λ q. q.ledger.config) e ∙ config-accept_dispositions p ds
]
config-call p revision = ground arith
config-call p Invariant.stuck = ground arith
config-call p human_rejection = ground arith
config-call p (free_retry k) = ground arith
config-call p round_start = ground arith

pub config-calls : (p : PhaseState) (cs : List Call) → (calls p cs).ledger.config ≡ p.ledger.config
unfolding calls
config-calls p [] = refl
config-calls p (c ∷ cs) = config-calls (call p c) cs ∙ config-call p c

pub record IsDrivable (p : PhaseState) : Type 0 where
  pub sound : IsSound p
  pub valid : Ledger.IsValid p.ledger
  pub fits : FitsWords p.ledger.config
  pub cap_fits : p.ledger.config.max_cycles ≤ u32_max

pub Reaches-IsDrivable : {p q : PhaseState} → Reaches p q → IsDrivable p → IsDrivable q
Reaches-IsDrivable {p} {q} r d = subst IsDrivable r.arrives (record {
  sound = calls-IsSound p r.path d.sound;
  valid = calls-IsValid p r.path d.valid;
  fits = rw (config-calls p r.path) d.fits;
  cap_fits = rw (config-calls p r.path) d.cap_fits;
})
