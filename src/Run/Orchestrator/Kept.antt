-- ===== src/Run/Orchestrator/Kept.antt =====
-- orchestrator.rs: `drive_phase` keeps the invariant of a run.
use agentchat.Prelude.{
  ◌≡◌, refl, sym, subst, ap, ℕ, zero, suc, Option, none, some, Option-cases, inl, inr, Result, ok,
  err, arith, if_cases,
}
use agentchat.Text.{Text}
use agentchat.Protocol.Run.{
  PhaseKind, plan, code, StageKind, authoring, reviewing, dispositioning, awaiting_approval,
  ExitReason,
}
use agentchat.Run.Findings.{Externals}
use agentchat.Run.State.{PhaseState, RunState, is_awaiting_approval}
use agentchat.Run.State.Invariant.{IsSound, calls-IsSound}
use agentchat.Run.State.Runs.{IsCoherent}
use agentchat.Run.Executor.Turns.{ExecutorError, allowance, Pass, return, continue}
use agentchat.Run.Executor.Author.{execute_author}
use agentchat.Run.Executor.Answer.{execute_disposition}
use agentchat.Run.Executor.Refinement.{
  Reaches, stays, then-Reaches, execute_author-Reaches, execute_review_round-Reaches,
  execute_disposition-Reaches,
}
use agentchat.Run.Orchestrator.{
  StageWorld, DriveError, forget_in, run_stage_at, run_stage, after_stage, drive_pass, drive_stages,
  phase_of, set_phase, drive_phase,
}
use agentchat.Run.Orchestrator.Until.{which_phase}

pub ok_inj {ℓ κ} : {E : Type ℓ} {A : Type κ} {a b : A} → ◌≡◌ {A = Result E A} (ok a) (ok b) → a ≡ b
ok_inj {a = a} e = ap (λ o. elim o [ err _ ↦ a | ok x ↦ x ]) e

-- What is coherent in a result, if there is one.
abbrev pub CoherentIn {ℓ} : {A : Type ℓ} → Option (RunState × A) → Type 0
CoherentIn none = Unit
CoherentIn (some (r, a)) = IsCoherent r

module _ (x : Externals) (author artifact : Text) where
  -- A result of a stage, if there is one, is reached from the phase.
  abbrev ReachesIn {ℓ} : {A : Type ℓ} → PhaseState → Option (PhaseState × A) → Type 0
  ReachesIn p none = Unit
  ReachesIn p (some (q, r)) = Reaches p q

  forget-ReachesIn {ℓ} :
      {A : Type ℓ} (p : PhaseState) (o : Option (PhaseState × Result ExecutorError A))
      → ((q : PhaseState) (v : Result ExecutorError A) → o ≡ some (q, v) → Reaches p q)
      → ReachesIn p (forget_in o)
  forget-ReachesIn p none h = tt
  forget-ReachesIn p (some (q, v)) h = h q v refl

  run_stage_at-ReachesIn :
      (w : StageWorld) (p : PhaseState) (s : StageKind)
      → ReachesIn p (run_stage_at x author artifact w p s)
  unfolding run_stage_at
  run_stage_at-ReachesIn w p authoring =
      forget-ReachesIn p (execute_author author artifact w.drafts (suc (allowance p)) p)
        (execute_author-Reaches author artifact w.drafts (suc (allowance p)) p)
  run_stage_at-ReachesIn w p reviewing =
      execute_review_round-Reaches x w.prepared w.appended w.reviews p
  run_stage_at-ReachesIn w p dispositioning =
      forget-ReachesIn p (execute_disposition author w.followups w.answers (suc (allowance p)) p)
        (execute_disposition-Reaches author w.followups w.answers (suc (allowance p)) p)
  run_stage_at-ReachesIn w p awaiting_approval = stays p

  after_stage-Reaches :
      (snapshot : Option Text) (q : PhaseState) (r : Result ExecutorError (Unit {0}))
      → (after_stage snapshot (q, r)).0 ≡ q
  unfolding after_stage
  after_stage-Reaches snapshot q r = ground arith

  drive_pass-ReachesIn :
      (w : StageWorld) (p : PhaseState) → ReachesIn p (drive_pass x author artifact w p)
  unfolding drive_pass
  drive_pass-ReachesIn w p =
      if_cases (ReachesIn p) (is_awaiting_approval p) (λ _. stays p)
        (λ _.
          ran (run_stage x author artifact w p)
            (unfold run_stage in run_stage_at-ReachesIn w p p.stage))
    where
      ran :
          (o : Option (PhaseState × Result ExecutorError (Unit {0})))
          → ReachesIn p o
          → ReachesIn p (elim o [ none ↦ none | some r ↦ some (after_stage w.snapshot r) ])
      ran none h = tt
      ran (some (q, r)) h = subst (Reaches p) (sym (after_stage-Reaches w.snapshot q r)) h

  further :
      {A : Type 0} (p q : PhaseState) (o : Option (PhaseState × A))
      → Reaches p q
      → ReachesIn q o
      → ReachesIn p o
  further p q none h k = tt
  further p q (some (s, r)) h k = then-Reaches h k

  drive_stages-ReachesIn :
      (worlds : ℕ → StageWorld) (fuel n : ℕ) (p : PhaseState)
      → ReachesIn p (drive_stages x author artifact worlds fuel n p)
  unfolding drive_stages
  drive_stages-ReachesIn worlds zero n p = tt
  drive_stages-ReachesIn worlds (suc fuel) n p =
      went (drive_pass x author artifact (worlds n) p) (drive_pass-ReachesIn (worlds n) p)
        (λ q. drive_stages-ReachesIn worlds fuel (suc n) q)
    where
      went :
          (o : Option (PhaseState × Pass (Result DriveError ExitReason)))
          → ReachesIn p o
          → ((q : PhaseState) → ReachesIn q (drive_stages x author artifact worlds fuel (suc n) q))
          → ReachesIn p (elim o [
            | none ↦ none
            | some (q, return r) ↦ some (q, r)
            | some (q, continue) ↦ drive_stages x author artifact worlds fuel (suc n) q
          ])
      went none h rest = tt
      went (some (q, return r)) h rest = h
      went (some (q, continue)) h rest = further p q _ h (rest q)

  Reaches-IsSound : (p q : PhaseState) → Reaches p q → IsSound p → IsSound q
  Reaches-IsSound p q h s = subst IsSound h.arrives (calls-IsSound p h.path s)

  -- The phase of a run that is not finished, written back.
  set_phase-IsCoherent :
      (r : RunState) (which : PhaseKind) (p q : PhaseState)
      → which_phase r.status ≡ some which
      → phase_of r which ≡ ok p
      → (IsSound p → IsSound q)
      → IsCoherent r
      → IsCoherent (set_phase r which q)
  unfolding phase_of set_phase which_phase
  set_phase-IsCoherent r plan p q e h s v =
      let k : r.plan ≡ p = ok_inj h in let t = s (subst IsSound k v.plan_sound) in ground arith
  set_phase-IsCoherent r code p q e h s v = elim (Option-cases r.code) [
    | inl k ↦ absurd (ground arith)
    | inr (w, k) ↦
        let u : IsSound w = rw k at v.code_sound in
        let g : w ≡ p = ok_inj (rw k at h) in let t = s (subst IsSound g u) in ground arith
  ]

  pub drive_phase-CoherentIn :
      (worlds : ℕ → StageWorld) (fuel : ℕ) (r : RunState) (which : PhaseKind)
      → which_phase r.status ≡ some which
      → IsCoherent r
      → CoherentIn (drive_phase x author artifact worlds fuel r which)
  unfolding drive_phase
  drive_phase-CoherentIn worlds fuel r which e v = went (phase_of r which) refl
    where
      wrote :
          (p : PhaseState)
          → phase_of r which ≡ ok p
          → (o : Option (PhaseState × Result DriveError ExitReason)) → ReachesIn p o
          → CoherentIn (elim o [ none ↦ none | some (q, a) ↦ some (set_phase r which q, a) ])
      wrote p h none k = tt
      wrote p h (some (q, a)) k = set_phase-IsCoherent r which p q e h (Reaches-IsSound p q k) v

      went :
          (o : Result DriveError PhaseState)
          → phase_of r which ≡ o
          → CoherentIn (elim o [
            | err e ↦ some (r, err e)
            | ok p ↦ elim (drive_stages x author artifact worlds fuel 0 p) [
              | none ↦ none
              | some (q, a) ↦ some (set_phase r which q, a)
            ]
          ])
      went (err e) h = v
      went (ok p) h =
          wrote p h (drive_stages x author artifact worlds fuel 0 p)
            (drive_stages-ReachesIn worlds fuel 0 p)
