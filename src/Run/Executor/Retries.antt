-- ===== src/Run/Executor/Retries.antt =====
-- executor.rs: the loops since every further turn draws on an allowance of the round.
use agentchat.Prelude.{
  ◌≡◌, refl, sym, subst, ℕ, zero, suc, ◌≤◌, ◌<◌, true, Option, is_some, inl, inr, arith, u32_max,
}
use agentchat.Text.{Text}
use agentchat.Protocol.Run.{RetryKind, invalid_output, disposition, CycleBudgetConfig}
use agentchat.Run.Budget
use agentchat.Run.Disposition.{GateRejection}
use agentchat.Run.State.{PhaseState, record_disposition}
use agentchat.Run.Executor.Turns.{Pass-cases, allowance, retry_allowed, Pass, continue, repeat}
use agentchat.Run.Executor.Author.{AuthorTurn, author_pass, prompt_until_written, execute_author}
use agentchat.Run.Executor.Cases.{
  answer_cases, submit_cases, accepted_cases, record_disposition_rejected,
}
use agentchat.Run.Executor.Answer.{
  Outcome, AnswerTurn, answer_pass, unread, turned_down, execute_disposition,
}

-- The limits of the configuration are 32-bit numbers.
pub record FitsWords (c : CycleBudgetConfig) : Type 0 where
  pub invalid_output_fits : c.free_retries.invalid_output ≤ u32_max
  pub agent_failure_fits : c.free_retries.agent_failure ≤ u32_max
  pub disposition_fits : c.free_retries.disposition ≤ u32_max

abbrev pub Fits : PhaseState → Type 0
Fits p = FitsWords p.ledger.config

config-retry_allowed :
    (p : PhaseState) (k : RetryKind) → (retry_allowed p k).0.ledger.config ≡ p.ledger.config
unfolding retry_allowed Budget.record_free_retry
config-retry_allowed p k = ground arith

allowance-invalid_output :
    (p : PhaseState)
    → Fits p
    → (retry_allowed p invalid_output).1 ≡ true
    → allowance (retry_allowed p invalid_output).0 < allowance p
unfolding retry_allowed Budget.record_free_retry Budget.increment
allowance-invalid_output p f h = ground (arith, f.invalid_output_fits)

allowance-disposition :
    (p : PhaseState)
    → Fits p
    → (retry_allowed p disposition).1 ≡ true
    → allowance (retry_allowed p disposition).0 < allowance p
unfolding retry_allowed Budget.record_free_retry Budget.increment
allowance-disposition p f h = ground (arith, f.disposition_fits)

-- A pass that goes on draws on the allowance.
record Draws (p q : PhaseState) : Type 0 where
  fits : Fits q
  less : allowance q < allowance p

module _ {ℓ} {A : Type ℓ} (pass : PhaseState → ℕ → PhaseState × Pass A)
    (draws : (p : PhaseState) (n : ℕ)
      → Fits p
      → (pass p n).1 ≡ continue
      → Draws p (pass p n).0) where
  repeat_returns :
      (fuel n : ℕ) (p : PhaseState)
      → Fits p
      → allowance p < fuel
      → is_some (repeat pass fuel n p) ≡ true
  unfolding repeat
  repeat_returns zero n p f h = absurd (omega arith)
  repeat_returns (suc fuel) n p f h = elim (Pass-cases (pass p n).1) [
    | inl (a, e) ↦ rw (e, repeat) refl
    | inr e ↦
        let d = draws p n f e in
        rw (e, repeat) (repeat_returns fuel (suc n) (pass p n).0 d.fits (omega (arith, d.less)))
  ]

author_pass-Draws :
    (role path : Text) (turns : ℕ → AuthorTurn) (p : PhaseState) (n : ℕ)
    → Fits p
    → (author_pass role path turns p n).1 ≡ continue
    → Draws p (author_pass role path turns p n).0
unfolding author_pass
author_pass-Draws role path turns p n f h = record {
  fits = ground (arith, config-retry_allowed p invalid_output, f);
  less = ground (arith, allowance-invalid_output p f);
}

-- The author's loop over the artifact returns, whatever the author does, within one turn more than
-- the round's allowances leave.
pub execute_author_returns :
    (role path : Text) (turns : ℕ → AuthorTurn) (fuel : ℕ) (p : PhaseState)
    → FitsWords p.ledger.config
    → allowance p < fuel
    → is_some (execute_author role path turns fuel p) ≡ true
unfolding execute_author prompt_until_written
execute_author_returns role path turns fuel p f h =
    let r =
      repeat_returns (author_pass role path turns) (author_pass-Draws role path turns) fuel 0 p f
        h in
    ground arith

unread-Draws :
    (p : PhaseState) (e : Text) → Fits p → (unread p e).1 ≡ continue → Draws p (unread p e).0
unfolding unread
unread-Draws p e f h = record {
  fits = ground (arith, config-retry_allowed p invalid_output, f);
  less = ground (arith, allowance-invalid_output p f);
}

turned_down-Draws :
    (p : PhaseState) (r : GateRejection)
    → Fits p
    → (turned_down p r).1 ≡ continue
    → Draws p (turned_down p r).0
unfolding turned_down
turned_down-Draws p r f h = record {
  fits = ground (arith, config-retry_allowed p disposition, f);
  less = ground (arith, allowance-disposition p f);
}

-- A pass that goes on draws, whichever way it goes.
abbrev DrawsOn : PhaseState → PhaseState × Pass Outcome → Type 0
DrawsOn p r = r.1 ≡ continue → Draws p r.0

answer_pass-Draws :
    (role : Text) (followups : Option Text) (turns : ℕ → AnswerTurn) (p : PhaseState) (n : ℕ)
    → Fits p
    → DrawsOn p (answer_pass role followups turns p n)
answer_pass-Draws role followups turns p n f =
    answer_cases (DrawsOn p) role followups turns p n (λ m h. absurd (ground arith))
      (λ e. unread-Draws p e f)
      (λ ds.
        submit_cases (DrawsOn p) role followups p (record_disposition p ds)
          (λ e _ h. absurd (ground arith))
          (λ q j e h.
            let s = record_disposition_rejected p q ds j e in
            subst (λ w. DrawsOn p (turned_down w j)) (sym s) (turned_down-Draws p j f) h)
          (λ q o e _.
            accepted_cases (DrawsOn p) role followups q o (λ m h. absurd (ground arith))
              (λ h. absurd (ground arith))))

-- The author's loop over its answers returns, whatever the author does, within one turn more than the
-- round's allowances leave.
pub execute_disposition_returns :
    (role : Text) (followups : Option Text) (turns : ℕ → AnswerTurn) (fuel : ℕ) (p : PhaseState)
    → FitsWords p.ledger.config
    → allowance p < fuel
    → is_some (execute_disposition role followups turns fuel p) ≡ true
unfolding execute_disposition
execute_disposition_returns role followups turns fuel p f h =
    repeat_returns (answer_pass role followups turns) (answer_pass-Draws role followups turns) fuel
      0 p f h
