-- ===== src/Run/Executor/Cases.antt =====
-- executor.rs: the ways in which a pass of the author's answer can go.
use agentchat.Prelude.{
  ◌≡◌, refl, ℕ, List, Option, Option-cases, ◌⊎◌, inl, inr, Result, ok, err, arith,
}
use agentchat.Text.{Text}
use agentchat.Protocol.Run.{Disposition}
use agentchat.Run.Disposition.{GateRejection}
use agentchat.Run.State.{
  PhaseState, TransitionError, DispositionOutcome, rejected, next_round, to_approval,
  record_disposition, accept_dispositions, after_cycle,
}
use agentchat.Run.Executor.Turns.{transition, agent, io, Pass, return}
use agentchat.Run.Executor.Answer.{
  AnswerTurn, Outcome, unread, turned_down, write_followups, accepted_answer, submit, answer_pass,
}

pub Result-cases {ℓ κ} :
    {E : Type ℓ} {A : Type κ} (r : Result E A) → ((e : E) × (r ≡ err e)) ⊎ ((a : A) × (r ≡ ok a))
Result-cases (err e) = inl (e, refl)
Result-cases (ok a) = inr (a, refl)

-- An outcome that is no rejection.
abbrev pub Moves : DispositionOutcome → Type 0
Moves (rejected r) = ⊥
Moves _ = Unit

module _ {ℓ} (M : PhaseState × Pass Outcome → Type ℓ) (role : Text) (followups : Option Text) where
  pub accepted_cases :
      (p : PhaseState) (o : DispositionOutcome)
      → ((m : Text) → M (p, return (err (io m))))
      → M (p, return (ok o))
      → M (accepted_answer role followups p o)
  unfolding accepted_answer
  accepted_cases p o lost done = elim (Option-cases (write_followups role followups p)) [
    | inl e ↦ rw (e, accepted_answer) done
    | inr (m, e) ↦ rw (e, accepted_answer) (lost m)
  ]

  pub submit_cases :
      (p : PhaseState) (r : Result TransitionError (PhaseState × DispositionOutcome))
      → ((e : TransitionError) → r ≡ err e → M (p, return (err (transition e))))
      → ((q : PhaseState) (j : GateRejection) → r ≡ ok (q, rejected j) → M (turned_down q j))
      → ((q : PhaseState) (o : DispositionOutcome)
          → r ≡ ok (q, o)
          → Moves o
          → M (accepted_answer role followups q o))
      → M (submit role followups p r)
  unfolding submit
  submit_cases p (err e) wrong turned moved = wrong e refl
  submit_cases p (ok (q, rejected j)) wrong turned moved = turned q j refl
  submit_cases p (ok (q, next_round n v)) wrong turned moved = moved q (next_round n v) refl tt
  submit_cases p (ok (q, to_approval x)) wrong turned moved = moved q (to_approval x) refl tt

  pub answer_cases :
      (turns : ℕ → AnswerTurn) (p : PhaseState) (n : ℕ)
      → ((m : Text) → M (p, return (err (agent role m))))
      → ((e : Text) → M (unread p e))
      → ((ds : List Disposition) → M (submit role followups p (record_disposition p ds)))
      → M (answer_pass role followups turns p n)
  unfolding answer_pass
  answer_cases turns p n fails unreadable submits = elim (Option-cases (turns n).failure) [
    | inr (m, e) ↦ rw (e, answer_pass) (fails m)
    | inl e ↦ elim (Result-cases (turns n).file) [
      | inl (x, k) ↦ rw (e, k, answer_pass) (unreadable x)
      | inr (ds, k) ↦ rw (e, k, answer_pass) (submits ds)
    ]
  ]

-- A rejected submission leaves the phase as it was.
pub record_disposition_rejected :
    (p q : PhaseState) (ds : List Disposition) (j : GateRejection)
    → record_disposition p ds ≡ ok (q, rejected j)
    → q ≡ p
unfolding record_disposition accept_dispositions after_cycle
record_disposition_rejected p q ds j h = ground arith
