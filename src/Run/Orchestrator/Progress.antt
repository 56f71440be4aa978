-- ===== src/Run/Orchestrator/Progress.antt =====
-- orchestrator.rs: the loop comes to the human's gate, whatever the agents do.
use agentchat.Prelude.{
  ◌≡◌, refl, ap, ◌∙◌, ℕ, zero, suc, ◌<◌, true, false, some, Option-cases, inl, inr, Result, ok, err,
  arith, Bool-cases,
}
use agentchat.Text.{Text}
use agentchat.Protocol.Run.{ExitReason, awaiting_approval}
use agentchat.Run.Findings.{Externals}
use agentchat.Run.State.{PhaseState, exit_reason, is_awaiting_approval}
use agentchat.Run.Executor.Turns.{ExecutorError, return, continue}
use agentchat.Run.Orchestrator.Drivable.{IsDrivable, Reaches-IsDrivable}
use agentchat.Run.Orchestrator.{
  StageWorld, DriveError, no_exit_reason, code_not_opened, snapshot_failed, stage_failed, run_stage,
  after_stage, reason_or_error, drive_pass, drive_stages,
}
use agentchat.Run.Orchestrator.Nearer.{stages_left, run_stage_lem}

-- Where the loop leaves the phase: at the gate with the reason that it reports, unless a stage or a
-- snapshot failed.
abbrev pub Arrived : PhaseState → Result DriveError ExitReason → Type 0
Arrived q (ok reason) = (q.stage ≡ awaiting_approval) × (exit_reason q ≡ some reason)
Arrived q (err (stage_failed e)) = Unit
Arrived q (err (snapshot_failed message)) = Unit
Arrived q (err no_exit_reason) = ⊥
Arrived q (err code_not_opened) = ⊥

module _ (x : Externals) (author artifact : Text) (worlds : ℕ → StageWorld) where
  waits :
      (w : StageWorld) (p : PhaseState)
      → is_awaiting_approval p ≡ true
      → drive_pass x author artifact w p ≡ some (p, return (reason_or_error (exit_reason p)))
  unfolding drive_pass
  waits w p e = rw (e, drive_pass) refl

  ran_pass :
      (w : StageWorld) (p q : PhaseState) (r : Result ExecutorError (Unit {0}))
      → is_awaiting_approval p ≡ false
      → run_stage x author artifact w p ≡ some (q, r)
      → drive_pass x author artifact w p ≡ some (after_stage w.snapshot (q, r))
  unfolding drive_pass
  ran_pass w p q r e k = rw (e, k, drive_pass) refl

  pub record Drives (fuel n : ℕ) (p : PhaseState) : Type 0 where
    pub final : PhaseState
    pub result : Result DriveError ExitReason
    pub ends : drive_stages x author artifact worlds fuel n p ≡ some (final, result)
    pub kept : IsDrivable final
    pub arrived : Arrived final result

  returned :
      (fuel n : ℕ) (p q : PhaseState) (r : Result DriveError ExitReason)
      → drive_pass x author artifact (worlds n) p ≡ some (q, return r)
      → IsDrivable q
      → Arrived q r
      → Drives (suc fuel) n p
  unfolding drive_stages
  returned fuel n p q r e d a = record {
    final = q;
    result = r;
    ends = rw (e, drive_stages) refl;
    kept = d;
    arrived = a;
  }

  waiting :
      (fuel n : ℕ) (p : PhaseState)
      → IsDrivable p
      → is_awaiting_approval p ≡ true
      → Drives (suc fuel) n p
  waiting fuel n p d e =
      let g : p.stage ≡ awaiting_approval = ground arith in
      elim (Option-cases (exit_reason p)) [
        | inl k ↦ absurd (ground (arith, d.sound.gate_has_reason))
        | inr (reason, k) ↦
            returned fuel n p p (ok reason)
              (waits (worlds n) p e
                ∙ ap (λ o. some (p, return (reason_or_error o))) k
                ∙ unfold reason_or_error in refl)
              d (g, k)
      ]

  after_lem :
      (fuel n : ℕ) (p q : PhaseState) (r : Result ExecutorError (Unit {0}))
      → drive_pass x author artifact (worlds n) p ≡ some (after_stage (worlds n).snapshot (q, r))
      → IsDrivable q
      → (r ≡ ok tt → Drives fuel (suc n) q)
      → Drives (suc fuel) n p
  unfolding after_stage drive_stages
  after_lem fuel n p q (err e) k d rest = returned fuel n p q (err (stage_failed e)) k d tt
  after_lem fuel n p q (ok u) k d rest = elim (Option-cases (worlds n).snapshot) [
    | inl s ↦
        let t = rest refl in
        let g : drive_pass x author artifact (worlds n) p ≡ some (q, continue) =
          k ∙ ap (λ o. some (after_stage o (q, ok u))) s in
        record {
          final = t.final;
          result = t.result;
          ends = rw (g, drive_stages) t.ends;
          kept = t.kept;
          arrived = t.arrived;
        }
    | inr (m, s) ↦
        returned fuel n p q (err (snapshot_failed m))
          (k ∙ ap (λ o. some (after_stage o (q, ok u))) s) d tt
  ]

  pub drive_stages_arrives :
      (fuel n : ℕ) (p : PhaseState) → IsDrivable p → stages_left p < fuel → Drives fuel n p
  drive_stages_arrives zero n p d h = absurd (omega arith)
  drive_stages_arrives (suc fuel) n p d h = elim (Bool-cases (is_awaiting_approval p)) [
    | inl e ↦ waiting fuel n p d e
    | inr e ↦
        let (q, (r, k, ran)) =
          run_stage_lem x author artifact (worlds n) p d p.stage refl (ground arith) in
        let b = Reaches-IsDrivable ran.reached d in
        after_lem fuel n p q r (ran_pass (worlds n) p q r e k) b
          (λ o. drive_stages_arrives fuel (suc n) q b (omega (arith, ran.nearer o)))
  ]
