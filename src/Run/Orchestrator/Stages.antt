-- ===== src/Run/Orchestrator/Stages.antt =====
-- orchestrator.rs: each stage that succeeds brings a phase nearer to its gate.
use agentchat.Prelude.{
  some_inj, ◌≡◌, refl, sym, subst, ap, ◌∙◌, ℕ, zero, suc, Option, some, Option-cases, ◌⊎◌, inl, inr,
  Result, ok, err, arith, saturating_suc, if_cases, List,
}
use agentchat.Text.{Text}
use agentchat.Protocol.Run.{
  StageKind, reviewing, awaiting_approval, invalid_output, disposition, RetryKind, Disposition,
}
use agentchat.Run.Budget
use agentchat.Run.Disposition.{GateRejection}
use agentchat.Run.State.{
  PhaseState, record_draft, record_disposition, record_stuck, DispositionOutcome, rejected,
  next_round, to_approval, accept_dispositions, after_cycle,
}
use agentchat.Run.Executor.Turns.{ExecutorError, Pass, return, continue, repeat, retry_allowed}
use agentchat.Run.Executor.Author.{
  AuthorTurn, author_pass, prompt_until_written, drafted, execute_author,
}
use agentchat.Run.Executor.Answer.{
  AnswerTurn, Outcome, unread, turned_down, answer_pass, execute_disposition,
}
use agentchat.Run.Executor.Cases.{
  Moves, answer_cases, submit_cases, accepted_cases, record_disposition_rejected,
}

-- The phase is in the same stage, with the same cycles and configuration.
pub record SameCount (p q : PhaseState) : Type 0 where
  pub same_stage : q.stage ≡ p.stage
  pub same_used : q.ledger.cycles_used ≡ p.ledger.cycles_used
  pub same_config : q.ledger.config ≡ p.ledger.config

retry_allowed-SameCount : (p : PhaseState) (k : RetryKind) → SameCount p (retry_allowed p k).0
unfolding retry_allowed Budget.record_free_retry
retry_allowed-SameCount p k = ground arith

pub SameCount-trans : {p q r : PhaseState} → SameCount p q → SameCount q r → SameCount p r
SameCount-trans a b = record {
  same_stage = b.same_stage ∙ a.same_stage;
  same_used = b.same_used ∙ a.same_used;
  same_config = b.same_config ∙ a.same_config;
}

-- What a pass may do to the count of the phase: nothing where it goes on; `R` says what else where
-- it returns.
abbrev Steps {ℓ} :
    {A : Type ℓ} → (PhaseState → A → Type 0) → PhaseState → PhaseState × Pass A → Type 0
Steps R p (q, return a) = R q a
Steps R p (q, continue) = SameCount p q

module _ {ℓ} {A : Type ℓ} (pass : PhaseState → ℕ → PhaseState × Pass A)
    (R : PhaseState → PhaseState → A → Type 0)
    (along : (p q w : PhaseState) (a : A) → SameCount p q → R q w a → R p w a)
    (steps : (p : PhaseState) (n : ℕ) → Steps (R p) p (pass p n)) where
  repeat_step :
      (fuel n : ℕ) (p w : PhaseState) (a : A) (r : PhaseState × Pass A)
      → (pass p n).0 ≡ r.0
      → (pass p n).1 ≡ r.1
      → Steps (R p) p r
      → repeat pass (suc fuel) n p ≡ some (w, a)
      → R p w a ⊎ ((q : PhaseState) × SameCount p q × (repeat pass fuel (suc n) q ≡ some (w, a)))
  unfolding repeat
  repeat_step fuel n p w a (q, return b) d e s h =
      let g : some ((pass p n).0, b) ≡ some (w, a) = rw (e, repeat) at h in
      inl (subst (λ x. R p x.0 x.1) (some_inj g) (subst (λ v. R p v b) (sym d) s))
  repeat_step fuel n p w a (q, continue) d e s h =
      inr ((pass p n).0, subst (λ v. SameCount p v) (sym d) s, rw (e, repeat) at h)

  pub repeat_lem :
      (fuel n : ℕ) (p w : PhaseState) (a : A) → repeat pass fuel n p ≡ some (w, a) → R p w a
  unfolding repeat
  repeat_lem zero n p w a h = absurd (ground arith)
  repeat_lem (suc fuel) n p w a h =
      elim (repeat_step fuel n p w a (pass p n) refl refl (steps p n) h) [
        | inl r ↦ r
        | inr (q, s, k) ↦ along p q w a s (repeat_lem fuel (suc n) q w a k)
      ]

-- The author wrote a version.
abbrev Drafted : PhaseState → PhaseState → Result ExecutorError (Unit {0}) → Type 0
Drafted p q r = SameCount p q

pub record Advanced (p q : PhaseState) (stage : StageKind) : Type 0 where
  pub arrived : q.stage ≡ stage
  pub same_used : q.ledger.cycles_used ≡ p.ledger.cycles_used
  pub same_config : q.ledger.config ≡ p.ledger.config

module _ (role path : Text) (turns : ℕ → AuthorTurn) where
  author_pass-Steps :
      (p : PhaseState) (n : ℕ) → Steps (Drafted p) p (author_pass role path turns p n)
  unfolding author_pass
  author_pass-Steps p n = elim (Option-cases (turns n).failure) [
    | inr (m, e) ↦
        rw (e, author_pass) (record { same_stage = refl; same_used = refl; same_config = refl })
    | inl e ↦
        rw (e, author_pass)
          (if_cases {A = PhaseState × Pass (Result ExecutorError (Unit {0}))} (Steps (Drafted p) p)
            (turns n).written
            (λ _. record { same_stage = refl; same_used = refl; same_config = refl })
            (λ _.
              if_cases {A = PhaseState × Pass (Result ExecutorError (Unit {0}))}
                (Steps (Drafted p) p) (retry_allowed p invalid_output).1
                (λ _. retry_allowed-SameCount p invalid_output)
                (λ _. retry_allowed-SameCount p invalid_output)))
  ]

  drafted_advances :
      (p q : PhaseState) (r : Result ExecutorError (Unit {0})) (v : ℕ)
      → drafted role path turns (p, r) ≡ (q, ok v)
      → Advanced p q reviewing
  unfolding drafted record_draft
  drafted_advances p q (ok _) v h = record {
    arrived = ground arith;
    same_used = ground arith;
    same_config = ground arith;
  }
  drafted_advances p q (err e) v h = absurd (ground arith)

  pub execute_author_advances :
      (fuel : ℕ) (p q : PhaseState) (v : ℕ)
      → execute_author role path turns fuel p ≡ some (q, ok v)
      → Advanced p q reviewing
  unfolding execute_author prompt_until_written
  execute_author_advances fuel p q v h =
      elim (Option-cases (repeat (author_pass role path turns) fuel 0 p)) [
        | inl e ↦ absurd (ground arith)
        | inr ((w, a), e) ↦
            let s : SameCount p w =
              repeat_lem (author_pass role path turns) Drafted (λ p q w a s r. SameCount-trans s r)
                author_pass-Steps fuel 0 p w a e in
            let g : some (drafted role path turns (w, a)) ≡ some (q, ok v) = ground arith in
            let d = drafted_advances w q a v (some_inj g) in
            record {
              arrived = d.arrived;
              same_used = d.same_used ∙ s.same_used;
              same_config = d.same_config ∙ s.same_config;
            }
      ]

-- What an answered round does to the count of the phase.
pub data Answered (p q : PhaseState) : Type 0 where
  at_gate : q.stage ≡ awaiting_approval → q.ledger.config ≡ p.ledger.config → Answered p q
  another :
      q.stage ≡ reviewing
      → q.ledger.cycles_used ≡ saturating_suc p.ledger.cycles_used
      → q.ledger.config ≡ p.ledger.config
      → Answered p q

abbrev AnswerStep : PhaseState → PhaseState → Outcome → Type 0
AnswerStep p q (ok o) = Answered p q
AnswerStep p q (err e) = Unit

AnswerStep-along :
    (p q w : PhaseState) (a : Outcome) → SameCount p q → AnswerStep q w a → AnswerStep p w a
AnswerStep-along p q w (err e) s r = tt
AnswerStep-along p q w (ok o) s (at_gate g c) = at_gate g (c ∙ s.same_config)
AnswerStep-along p q w (ok o) s (another g u c) =
    another g (u ∙ ap saturating_suc s.same_used) (c ∙ s.same_config)

stuck_answers : (p : PhaseState) → Answered p (record_stuck p).0
unfolding record_stuck Budget.mark_stuck
stuck_answers p = at_gate refl (ground arith)

record_disposition_answers :
    (p q : PhaseState) (ds : List Disposition) (o : DispositionOutcome)
    → record_disposition p ds ≡ ok (q, o)
    → Moves o
    → Answered p q
unfolding record_disposition accept_dispositions after_cycle Budget.record_cycle
record_disposition_answers p q ds (rejected j) h m = absurd m
record_disposition_answers p q ds (next_round n v) h m =
    another (ground arith) (ground arith) (ground arith)
record_disposition_answers p q ds (to_approval reason) h m = at_gate (ground arith) (ground arith)

module _ (role : Text) (followups : Option Text) (turns : ℕ → AnswerTurn) where
  turned_down-Steps :
      (p : PhaseState) (j : GateRejection) → Steps (AnswerStep p) p (turned_down p j)
  unfolding turned_down
  turned_down-Steps p j =
      let s = retry_allowed-SameCount p disposition in
      if_cases {A = PhaseState × Pass Outcome} (Steps (AnswerStep p) p)
        (retry_allowed p disposition).1 (λ _. s)
        (λ _.
          AnswerStep-along p (retry_allowed p disposition).0 _ (ok (rejected j)) s
            (stuck_answers (retry_allowed p disposition).0))

  unread-Steps : (p : PhaseState) (e : Text) → Steps (AnswerStep p) p (unread p e)
  unfolding unread
  unread-Steps p e =
      if_cases {A = PhaseState × Pass Outcome} (Steps (AnswerStep p) p)
        (retry_allowed p invalid_output).1 (λ _. retry_allowed-SameCount p invalid_output) (λ _. tt)

  answer_pass-Steps :
      (p : PhaseState) (n : ℕ) → Steps (AnswerStep p) p (answer_pass role followups turns p n)
  answer_pass-Steps p n =
      answer_cases (Steps (AnswerStep p) p) role followups turns p n (λ _. tt) (unread-Steps p)
        (λ ds.
          submit_cases (Steps (AnswerStep p) p) role followups p (record_disposition p ds)
            (λ _ _. tt)
            (λ q j h.
              subst (λ w. Steps (AnswerStep p) p (turned_down w j))
                (sym (record_disposition_rejected p q ds j h)) (turned_down-Steps p j))
            (λ q o h m.
              accepted_cases (Steps (AnswerStep p) p) role followups q o (λ _. tt)
                (record_disposition_answers p q ds o h m)))

  pub execute_disposition_answers :
      (fuel : ℕ) (p q : PhaseState) (o : DispositionOutcome)
      → execute_disposition role followups turns fuel p ≡ some (q, ok o)
      → Answered p q
  unfolding execute_disposition
  execute_disposition_answers fuel p q o h =
      repeat_lem (answer_pass role followups turns) AnswerStep AnswerStep-along answer_pass-Steps
        fuel 0 p q (ok o) h
