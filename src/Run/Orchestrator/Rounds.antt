-- ===== src/Run/Orchestrator/Rounds.antt =====
-- orchestrator.rs: a review round that succeeds leaves the author to answer, with the same cycles.
use agentchat.Prelude.{◌≡◌, refl, ◌∙◌, ℕ, List, [], ◌∷◌, Option, none, some, inl, inr, ok, arith}
use agentchat.Text.{Text}
use agentchat.Protocol.Run.{dispositioning}
use agentchat.Run.Budget
use agentchat.Run.Findings.{Externals}
use agentchat.Run.State.{PhaseState, RoundSummary, record_review_round}
use agentchat.Run.Executor.Turns.{retry_kind_for}
use agentchat.Run.Executor.Review.{
  ReviewerTurn, RoundResults, run_one_reviewer, collect, round_of, recorded, close_round,
  execute_review_round,
}
use agentchat.Run.Executor.Cases.{Result-cases}
use agentchat.Run.Orchestrator.Stages.{SameCount, SameCount-trans, Advanced}

failed-SameCount :
    (p : PhaseState) (k : agentchat.Protocol.Run.RetryKind)
    → SameCount p (record p { ledger = (Budget.record_free_retry p.ledger k).0 })
unfolding Budget.record_free_retry
failed-SameCount p k = ground arith

module _ (x : Externals) where
  collect-SameCount :
      (round : ℕ) (ts : List ReviewerTurn) (s : RoundResults)
      → SameCount s.phase (collect x round ts s).phase
  unfolding collect
  collect-SameCount round [] s = record { same_stage = refl; same_used = refl; same_config = refl }
  collect-SameCount round (t ∷ ts) s = elim (Result-cases (run_one_reviewer round t)) [
    | inl (e, h) ↦
        rw (h, collect)
          (SameCount-trans (failed-SameCount s.phase (retry_kind_for e))
            (collect-SameCount round ts _))
    | inr (report, h) ↦ rw (h, collect) (collect-SameCount round ts _)
  ]

  close_round_advances :
      (appended : Option Text) (s : RoundResults) (q : PhaseState) (v : RoundSummary)
      → close_round appended s ≡ (q, ok v)
      → Advanced s.phase q dispositioning
  unfolding close_round recorded record_review_round
  close_round_advances appended s q v h = record {
    arrived = ground arith;
    same_used = ground arith;
    same_config = ground arith;
  }

  pub execute_review_round_advances :
      (prepared appended : Option Text) (ts : List ReviewerTurn) (p q : PhaseState)
      (v : RoundSummary)
      → execute_review_round x prepared appended ts p ≡ (q, ok v)
      → Advanced p q dispositioning
  unfolding execute_review_round round_of Budget.reset_round_retries
  execute_review_round_advances none appended ts p q v h =
      let s = collect x p.round ts (round_of p) in
      let c = collect-SameCount p.round ts (round_of p) in
      let a = close_round_advances appended s q v h in
      record {
        arrived = a.arrived;
        same_used = a.same_used ∙ c.same_used;
        same_config = a.same_config ∙ c.same_config;
      }
  execute_review_round_advances (some m) appended ts p q v h = absurd (ground arith)
