-- ===== src/Run/Orchestrator/Nearer.antt =====
-- orchestrator.rs: a bound on the stages that are left, and a stage that succeeds comes below it.
use agentchat.Prelude.{
  ◌≡◌, refl, subst, ap, ◌∙◌, ℕ, suc, ◌+◌, ◌-◌, ◌*◌, ◌<◌, none, some, Option-cases, ◌≢◌, inl, inr,
  Result, ok, err, arith, u32_max,
}
use agentchat.Text.{Text}
use agentchat.Protocol.Run.{StageKind, authoring, reviewing, dispositioning, awaiting_approval}
use agentchat.Run.Findings.{Externals}
use agentchat.Run.State.{PhaseState, RoundSummary}
use agentchat.Run.Executor.Turns.{ExecutorError, allowance}
use agentchat.Run.Executor.Author.{execute_author}
use agentchat.Run.Executor.Review.{execute_review_round}
use agentchat.Run.Executor.Answer.{Outcome, execute_disposition}
use agentchat.Run.Executor.Retries.{execute_author_returns, execute_disposition_returns}
use agentchat.Run.Executor.Refinement.{
  Reaches, execute_author-Reaches, execute_disposition-Reaches, execute_review_round-Reaches,
}
use agentchat.Run.Orchestrator.Stages.{
  Advanced, Answered, at_gate, another, execute_author_advances, execute_disposition_answers,
}
use agentchat.Run.Orchestrator.Rounds.{execute_review_round_advances}
use agentchat.Run.Orchestrator.Drivable.{IsDrivable}
use agentchat.Run.Orchestrator.{StageWorld, run_stage, run_stage_at, forget, forget_in}

-- The cycles that are left, and one.
abbrev pub room : PhaseState → ℕ
room p = suc p.ledger.config.max_cycles - p.ledger.cycles_used

abbrev pub stages_at : StageKind → ℕ → ℕ
stages_at authoring n = 2 * n + 2
stages_at reviewing n = 2 * n + 1
stages_at dispositioning n = 2 * n
stages_at awaiting_approval n = 0

-- As many stages as are left, at most.
abbrev pub stages_left : PhaseState → ℕ
stages_left p = stages_at p.stage (room p)

-- What a stage that ran has done.
pub record Ran (p q : PhaseState) (r : Result ExecutorError (Unit {0})) : Type 0 where
  pub reached : Reaches p q
  pub nearer : r ≡ ok tt → stages_left q < stages_left p

-- The author owes answers only while there is room for a cycle.
has_room :
    (p : PhaseState)
    → IsDrivable p
    → p.stage ≡ dispositioning
    → (0 < room p) × (p.ledger.cycles_used < u32_max)
has_room p d e =
    let n : p.ledger.exit_reason ≡ none = ground (arith, d.sound.reason_at_gate) in
    elim (d.valid.below_cap n) [
      | inl h ↦ ground (arith, d.valid.counted)
      | inr h ↦ ground (arith, d.cap_fits)
    ]

Advanced-nearer :
    (p q : PhaseState) (to : StageKind)
    → Advanced p q to
    → stages_at to (room p) < stages_left p
    → stages_left q < stages_left p
Advanced-nearer p q to a h = rw (a.arrived, a.same_used, a.same_config) h

Answered-nearer :
    (p q : PhaseState)
    → IsDrivable p
    → p.stage ≡ dispositioning
    → Answered p q
    → stages_left q < stages_left p
Answered-nearer p q d e (at_gate g c) = let r = has_room p d e in rw (g, e) (omega (arith, r.0))
Answered-nearer p q d e (another g u c) =
    let r = has_room p d e in rw (g, e, u, c) (omega (arith, r.0, r.1))

module _ (x : Externals) (author artifact : Text) (w : StageWorld) (p : PhaseState)
    (d : IsDrivable p) where
  author-Ran :
      (q : PhaseState) (v : Result ExecutorError ℕ)
      → p.stage ≡ authoring
      → execute_author author artifact w.drafts (suc (allowance p)) p ≡ some (q, v)
      → Ran p q (forget v)
  author-Ran q v e k = record {
    reached = execute_author-Reaches author artifact w.drafts (suc (allowance p)) p q v k;
    nearer = nearer v k;
  }
    where
      nearer :
          (v : Result ExecutorError ℕ)
          → execute_author author artifact w.drafts (suc (allowance p)) p ≡ some (q, v)
          → forget v ≡ ok tt
          → stages_left q < stages_left p
      nearer (ok n) k h =
          Advanced-nearer p q reviewing
            (execute_author_advances author artifact w.drafts (suc (allowance p)) p q n k)
            (rw e (omega arith))
      nearer (err e) k h = absurd (ground arith)

  answer-Ran :
      (q : PhaseState) (v : Outcome)
      → p.stage ≡ dispositioning
      → execute_disposition author w.followups w.answers (suc (allowance p)) p ≡ some (q, v)
      → Ran p q (forget v)
  answer-Ran q v e k = record {
    reached = execute_disposition-Reaches author w.followups w.answers (suc (allowance p)) p q v k;
    nearer = nearer v k;
  }
    where
      nearer :
          (v : Outcome)
          → execute_disposition author w.followups w.answers (suc (allowance p)) p ≡ some (q, v)
          → forget v ≡ ok tt
          → stages_left q < stages_left p
      nearer (ok o) k h =
          Answered-nearer p q d e
            (execute_disposition_answers author w.followups w.answers (suc (allowance p)) p q o k)
      nearer (err e) k h = absurd (ground arith)

  review-Ran :
      (q : PhaseState) (v : Result ExecutorError RoundSummary)
      → p.stage ≡ reviewing
      → execute_review_round x w.prepared w.appended w.reviews p ≡ (q, v)
      → Ran p q (forget v)
  review-Ran q v e k = record {
    reached =
        subst (λ r. Reaches p r.0) k
          (execute_review_round-Reaches x w.prepared w.appended w.reviews p);
    nearer = nearer v k;
  }
    where
      nearer :
          (v : Result ExecutorError RoundSummary)
          → execute_review_round x w.prepared w.appended w.reviews p ≡ (q, v)
          → forget v ≡ ok tt
          → stages_left q < stages_left p
      nearer (ok s) k h =
          Advanced-nearer p q dispositioning
            (execute_review_round_advances x w.prepared w.appended w.reviews p q s k)
            (rw e (omega arith))
      nearer (err e) k h = absurd (ground arith)

  -- A stage runs to its end, and if it succeeds the phase is nearer to its gate.
  pub run_stage_lem :
      (s : StageKind)
      → p.stage ≡ s
      → s ≢ awaiting_approval
      → (q : PhaseState) × ((r : Result ExecutorError (Unit {0})) × (run_stage x author artifact w p
            ≡ some (q, r))
          × Ran p q r)
  unfolding run_stage run_stage_at
  run_stage_lem awaiting_approval e n = absurd (n refl)
  run_stage_lem reviewing e n =
      let r = execute_review_round x w.prepared w.appended w.reviews p in
      (r.0, (forget r.1, ap (run_stage_at x author artifact w p) e, review-Ran r.0 r.1 e refl))
  run_stage_lem authoring e n =
      let fuel = suc (allowance p) in
      let b : allowance p < fuel = omega arith in
      let h = execute_author_returns author artifact w.drafts fuel p d.fits b in
      elim (Option-cases (execute_author author artifact w.drafts fuel p)) [
        | inl k ↦ absurd (ground arith)
        | inr ((q, v), k) ↦ (
          q,
          (
            forget v,
            ap (run_stage_at x author artifact w p) e ∙ ap forget_in k,
            author-Ran q v e k,
          ),
        )
      ]
  run_stage_lem dispositioning e n =
      let fuel = suc (allowance p) in
      let b : allowance p < fuel = omega arith in
      let h = execute_disposition_returns author w.followups w.answers fuel p d.fits b in
      elim (Option-cases (execute_disposition author w.followups w.answers fuel p)) [
        | inl k ↦ absurd (ground arith)
        | inr ((q, v), k) ↦ (
          q,
          (
            forget v,
            ap (run_stage_at x author artifact w p) e ∙ ap forget_in k,
            answer-Ran q v e k,
          ),
        )
      ]
