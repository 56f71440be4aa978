-- ===== src/Run/Executor/Outcomes.antt =====
-- executor.rs: what the result of a stage says of the phase, and what a round records.
use mathlib.Core.List.{append_assoc, append-nil}
use agentchat.Prelude.{
  ◌≡◌, refl, sym, subst, ap, ◌∙◌, ℕ, ◌+◌, true, List, [], ◌∷◌, ◌++◌, Option, none, some, ◌⊎◌, inl,
  inr, ok, err, arith, length, is_some, if_cases, nat_eq, ◌≢◌,
}
use agentchat.Text.{Text}
use agentchat.Protocol.Run.{
  RawReviewReport, Disposition, reviewing, dispositioning, awaiting_approval, disposition,
  invalid_output,
}
use agentchat.Run.Budget
use agentchat.Run.Disposition.{GateRejection}
use agentchat.Run.Findings.{Externals, validate_report, validate_round}
use agentchat.Run.State.{
  PhaseState, exit_reason, record_disposition, record_review_round, record_stuck,
  DispositionOutcome, rejected, next_round, to_approval, accept_dispositions, after_cycle,
}
use agentchat.Run.Executor.Turns.{no_reviewers_survived, retry_allowed, Pass, return, continue}
use agentchat.Run.Executor.Review.{
  ReviewerTurn, RoundResults, run_one_reviewer, collect, round_of, recorded, append_findings,
  close_round, execute_review_round,
}
use agentchat.Run.Executor.Answer.{
  AnswerTurn, Outcome, unread, turned_down, answer_pass, execute_disposition,
}
use agentchat.Run.Executor.Cases.{Moves, Result-cases, answer_cases, submit_cases, accepted_cases}
use agentchat.Run.Executor.Refinement.{repeat-Ended, answer_pass-Reaches}

-- The phase is where the outcome says.
abbrev pub Settled : PhaseState → DispositionOutcome → Type 0
Settled q (rejected j) = (q.stage ≡ awaiting_approval) × (is_some (exit_reason q) ≡ true)
Settled q (next_round round version) =
    (q.stage ≡ reviewing) × (q.round ≡ round) × (q.version ≡ version)
Settled q (to_approval reason) = (q.stage ≡ awaiting_approval) × (exit_reason q ≡ some reason)

abbrev Good : PhaseState × Pass Outcome → Type 0
Good (q, return (ok o)) = Settled q o
Good (q, return (err e)) = Unit
Good (q, continue) = Unit

unread-Good : (p : PhaseState) (e : Text) → Good (unread p e)
unfolding unread
unread-Good p e = if_cases Good (retry_allowed p invalid_output).1 (λ _. tt) (λ _. tt)

stuck_at_gate : (p : PhaseState) (j : GateRejection) → Settled (record_stuck p).0 (rejected j)
unfolding record_stuck Budget.mark_stuck
stuck_at_gate p j = ground arith

turned_down-Good : (p : PhaseState) (j : GateRejection) → Good (turned_down p j)
unfolding turned_down
turned_down-Good p j =
    if_cases Good (retry_allowed p disposition).1 (λ _. tt)
      (λ _. stuck_at_gate (retry_allowed p disposition).0 j)

record_disposition-Settled :
    (p q : PhaseState) (ds : List Disposition) (o : DispositionOutcome)
    → record_disposition p ds ≡ ok (q, o)
    → Moves o
    → Settled q o
unfolding record_disposition accept_dispositions after_cycle
record_disposition-Settled p q ds (rejected j) h m = absurd m
record_disposition-Settled p q ds (next_round n v) h m = ground arith
record_disposition-Settled p q ds (to_approval reason) h m = ground arith

module _ (role : Text) (followups : Option Text) (turns : ℕ → AnswerTurn) where
  answer_pass-Good : (p : PhaseState) (n : ℕ) → Good (answer_pass role followups turns p n)
  answer_pass-Good p n =
      answer_cases Good role followups turns p n (λ _. tt) (unread-Good p)
        (λ ds.
          submit_cases Good role followups p (record_disposition p ds) (λ _ _. tt)
            (λ q j _. turned_down-Good q j)
            (λ q o h m.
              accepted_cases Good role followups q o (λ _. tt)
                (record_disposition-Settled p q ds o h m)))

  -- The result of an answered round says where the phase stands: a rejection that is returned has
  -- brought it to the human's gate with an exit reason, another round leaves it under review with the
  -- round and version that are reported, and an exit leaves it at the gate with the reason reported.
  pub execute_disposition-Settled :
      (fuel : ℕ) (p q : PhaseState) (o : DispositionOutcome)
      → execute_disposition role followups turns fuel p ≡ some (q, ok o)
      → Settled q o
  unfolding execute_disposition
  execute_disposition-Settled fuel p q o h =
      let r =
        repeat-Ended (answer_pass role followups turns) (answer_pass-Reaches role followups turns)
          fuel 0 p q (ok o) h in
      subst Good r.ends (answer_pass-Good r.last r.number)

-- The reports of the reviewers that did not fail.
abbrev pub surviving : ℕ → List ReviewerTurn → List RawReviewReport
surviving round [] = []
surviving round (t ∷ ts) = elim (run_one_reviewer round t) [
  | ok report ↦ report ∷ surviving round ts
  | err e ↦ surviving round ts
]

-- What the loop over the results has done.
record Collected (x : Externals) (s r : RoundResults) (reports : List RawReviewReport)
    : Type 0 where
  same_stage : r.phase.stage ≡ s.phase.stage
  same_findings : r.phase.findings ≡ s.phase.findings
  counted : r.survivors ≡ s.survivors + length reports
  gathered : r.findings ≡ s.findings ++ validate_round x reports

module _ (x : Externals) where
  collect_lem :
      (round : ℕ) (ts : List ReviewerTurn) (s : RoundResults)
      → Collected x s (collect x round ts s) (surviving round ts)
  unfolding collect validate_round
  collect_lem round [] s = record {
    same_stage = refl;
    same_findings = refl;
    counted = omega arith;
    gathered = sym (append-nil s.findings);
  }
  collect_lem round (t ∷ ts) s = elim (Result-cases (run_one_reviewer round t)) [
    | inl (e, h) ↦
        rw (h, collect, surviving)
          (let c = collect_lem round ts _ in
            record {
              same_stage = c.same_stage;
              same_findings = c.same_findings;
              counted = c.counted;
              gathered = c.gathered;
            })
    | inr (report, h) ↦
        rw (h, collect, surviving)
          (let c = collect_lem round ts _ in
            record {
              same_stage = c.same_stage;
              same_findings = c.same_findings;
              counted = omega (arith, c.counted);
              gathered = c.gathered ∙ append_assoc s.findings (validate_report x report) _;
            })
  ]

  nil_of_length : {A : Type 0} (xs : List A) → length xs ≡ 0 → xs ≡ []
  nil_of_length [] h = refl
  nil_of_length (a ∷ xs) h = absurd (omega arith)

  close_round_lem :
      (s : RoundResults)
      → s.phase.stage ≡ reviewing
      → let r = close_round none s in
        ((s.survivors ≡ 0) × (r ≡ (s.phase, err no_reviewers_survived)))
        ⊎ ((s.survivors ≢ 0)
            × (r.0.stage ≡ dispositioning)
            × (r.0.current_round_findings ≡ s.findings)
            × (r.0.findings ≡ s.phase.findings ++ s.findings))
  unfolding close_round recorded append_findings record_review_round
  close_round_lem s h = ground arith

  -- A round of a phase under review, where the files can be written: if no reviewer survives, that is
  -- the error, and the phase is still under review with the findings it had; else the author owes an
  -- answer to the validated findings of the surviving reports, and the phase's findings are extended
  -- by them, whatever happened to the other reviewers.
  pub execute_review_round-records :
      (ts : List ReviewerTurn) (p : PhaseState)
      → p.stage ≡ reviewing
      → let reports = surviving p.round ts in
        let r = execute_review_round x none none ts p in
        ((reports ≡ [])
          × (r.1 ≡ err no_reviewers_survived)
          × (r.0.stage ≡ reviewing)
          × (r.0.findings ≡ p.findings))
        ⊎ ((reports ≢ [])
            × (r.0.stage ≡ dispositioning)
            × (r.0.current_round_findings ≡ validate_round x reports)
            × (r.0.findings ≡ p.findings ++ validate_round x reports))
  unfolding execute_review_round round_of
  execute_review_round-records ts p h =
      let s = collect x p.round ts (round_of p) in
      let c = collect_lem p.round ts (round_of p) in
      elim (close_round_lem s (c.same_stage ∙ h)) [
        | inl (z, e) ↦ inl (
          nil_of_length (surviving p.round ts) (omega (arith, c.counted)),
          ap (λ r. r.1) e,
          ap (λ r. r.0.stage) e ∙ (c.same_stage ∙ h),
          ap (λ r. r.0.findings) e ∙ c.same_findings,
        )
        | inr (z, moved, owed, kept) ↦ inr (
          (λ e. z (omega (arith, c.counted, ap length e))),
          moved,
          owed ∙ c.gathered,
          kept ∙ (ap (λ l. l ++ s.findings) c.same_findings ∙ ap (λ l. p.findings ++ l) c.gathered),
        )
      ]
