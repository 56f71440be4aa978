-- ===== src/Run/Executor/Refinement.antt =====
-- executor.rs: a stage changes the phase by the phase's own transitions and by nothing else.
use agentchat.Prelude.{
  ◌≡◌, refl, subst, ap, ◌∙◌, ℕ, zero, suc, List, [], ◌∷◌, ◌++◌, Option, none, some, Option-cases,
  inl, inr, Result, ok, err, arith, Bool-cases, ◌==◌, nat_eq, if_cases,
}
use agentchat.Text.{Text}
use agentchat.Protocol.Run.{RetryKind, Finding, invalid_output, disposition}
use agentchat.Run.Disposition.{GateRejection}
use agentchat.Run.Findings.{Externals}
use agentchat.Run.State.{
  PhaseState, record_draft, record_review_round, record_disposition, record_stuck,
}
use agentchat.Run.State.Invariant.{
  Call, draft, review, dispose, free_retry, round_start, call, calls, after,
}
use agentchat.Run.State.Invariant
use agentchat.Run.Executor.Turns.{
  Pass-cases, ExecutorError, retry_allowed, retry_kind_for, Pass, return, repeat,
}
use agentchat.Run.Executor.Author.{
  AuthorTurn, author_pass, prompt_until_written, drafted, execute_author,
}
use agentchat.Run.Executor.Review.{
  ReviewerTurn, RoundResults, run_one_reviewer, collect, round_of, recorded, append_findings,
  close_round, execute_review_round,
}
use agentchat.Run.Executor.Answer.{
  AnswerTurn, Outcome, unread, turned_down, answer_pass, execute_disposition,
}
use agentchat.Run.Executor.Cases.{answer_cases, submit_cases, accepted_cases, Result-cases}

-- The phase `q` comes from `p` by transitions.
pub record Reaches (p q : PhaseState) : Type 0 where
  pub path : List Call
  pub arrives : calls p path ≡ q

pub stays : (p : PhaseState) → Reaches p p
unfolding calls
stays p = record { path = []; arrives = refl }

calls-append : (p : PhaseState) (cs ds : List Call) → calls p (cs ++ ds) ≡ calls (calls p cs) ds
unfolding calls
calls-append p [] ds = refl
calls-append p (c ∷ cs) ds = calls-append (call p c) cs ds

pub then-Reaches : {p q r : PhaseState} → Reaches p q → Reaches q r → Reaches p r
then-Reaches {p} x y = record {
  path = x.path ++ y.path;
  arrives = calls-append p x.path y.path ∙ (ap (λ w. calls w y.path) x.arrives ∙ y.arrives);
}

by_call : (p q : PhaseState) (c : Call) → call p c ≡ q → Reaches p q
unfolding calls
by_call p q c e = record { path = c ∷ []; arrives = e }

retry_allowed-Reaches : (p : PhaseState) (k : RetryKind) → Reaches p (retry_allowed p k).0
unfolding retry_allowed call
retry_allowed-Reaches p k = by_call p _ (free_retry k) refl

record_stuck-Reaches : (p : PhaseState) → Reaches p (record_stuck p).0
unfolding call
record_stuck-Reaches p = by_call p _ Invariant.stuck refl

-- The pass with which a loop ended.
pub record Ended {ℓ} {A : Type ℓ} (pass : PhaseState → ℕ → PhaseState × Pass A) (p q : PhaseState)
    (a : A) : Type ℓ where
  pub last : PhaseState
  pub number : ℕ
  pub ends : pass last number ≡ (q, return a)
  pub reached : Reaches p last

module _ {ℓ} {A : Type ℓ} (pass : PhaseState → ℕ → PhaseState × Pass A)
    (moves : (p : PhaseState) (n : ℕ) → Reaches p (pass p n).0) where
  later : (p q : PhaseState) (n : ℕ) (a : A) → Ended pass (pass p n).0 q a → Ended pass p q a
  later p q n a r = record {
    last = r.last;
    number = r.number;
    ends = r.ends;
    reached = then-Reaches (moves p n) r.reached;
  }

  Ended-here :
      (fuel n : ℕ) (p q : PhaseState) (a b : A)
      → repeat pass (suc fuel) n p ≡ some (q, a)
      → (pass p n).1 ≡ return b
      → Ended pass p q a
  unfolding repeat
  Ended-here fuel n p q a b h k = record {
    last = p;
    number = n;
    ends = ground arith;
    reached = stays p;
  }

  pub repeat-Ended :
      (fuel n : ℕ) (p q : PhaseState) (a : A)
      → repeat pass fuel n p ≡ some (q, a)
      → Ended pass p q a
  unfolding repeat
  repeat-Ended zero n p q a h = absurd (ground arith)
  repeat-Ended (suc fuel) n p q a h = elim (Pass-cases (pass p n).1) [
    | inl (b, e) ↦ Ended-here fuel n p q a b h e
    | inr e ↦ later p q n a (repeat-Ended fuel (suc n) (pass p n).0 q a (rw (e, repeat) at h))
  ]

  pub repeat-Reaches :
      (fuel n : ℕ) (p q : PhaseState) (a : A) → repeat pass fuel n p ≡ some (q, a) → Reaches p q
  repeat-Reaches fuel n p q a h =
      let r = repeat-Ended fuel n p q a h in
      then-Reaches r.reached
        (subst (λ w. Reaches r.last w) (ap (λ w. w.0) r.ends) (moves r.last r.number))

module _ (role path : Text) (turns : ℕ → AuthorTurn) where
  author_pass-Reaches : (p : PhaseState) (n : ℕ) → Reaches p (author_pass role path turns p n).0
  unfolding author_pass
  author_pass-Reaches p n = elim (Option-cases (turns n).failure) [
    | inr (m, e) ↦ rw (e, author_pass) (stays p)
    | inl e ↦
        rw (e, author_pass)
          (if_cases {A = PhaseState × Pass (Result ExecutorError (Unit {0}))} (λ r. Reaches p r.0)
            (turns n).written (λ _. stays p)
            (λ _.
              if_cases {A = PhaseState × Pass (Result ExecutorError (Unit {0}))}
                (λ r. Reaches p r.0) (retry_allowed p invalid_output).1
                (λ _. retry_allowed-Reaches p invalid_output)
                (λ _. retry_allowed-Reaches p invalid_output)))
  ]

  drafted-Reaches :
      (r : PhaseState × Result ExecutorError (Unit {0})) → Reaches r.0 (drafted role path turns r).0
  unfolding drafted call
  drafted-Reaches (p, err e) = stays p
  drafted-Reaches (p, ok _) = elim (Result-cases (record_draft p)) [
    | inl (e, h) ↦ rw (h, drafted) (stays p)
    | inr ((q, v), h) ↦ rw (h, drafted) (by_call p q draft (ap (after p) h))
  ]

  pub execute_author-Reaches :
      (fuel : ℕ) (p q : PhaseState) (r : Result ExecutorError ℕ)
      → execute_author role path turns fuel p ≡ some (q, r)
      → Reaches p q
  unfolding execute_author prompt_until_written
  execute_author-Reaches fuel p q r h =
      elim (Option-cases (repeat (author_pass role path turns) fuel 0 p)) [
        | inl e ↦ absurd (ground arith)
        | inr ((w, a), e) ↦
            let k = drafted-Reaches (w, a) in
            let g : (drafted role path turns (w, a)).0 ≡ q = ground arith in
            then-Reaches
              (repeat-Reaches (author_pass role path turns) author_pass-Reaches fuel 0 p w a e)
              (subst (λ v. Reaches w v) g k)
      ]

unread-Reaches : (p : PhaseState) (e : Text) → Reaches p (unread p e).0
unfolding unread
unread-Reaches p e =
    if_cases {A = PhaseState × Pass Outcome} (λ r. Reaches p r.0) (retry_allowed p invalid_output).1
      (λ _. retry_allowed-Reaches p invalid_output) (λ _. retry_allowed-Reaches p invalid_output)

turned_down-Reaches : (p : PhaseState) (j : GateRejection) → Reaches p (turned_down p j).0
unfolding turned_down
turned_down-Reaches p j =
    if_cases {A = PhaseState × Pass Outcome} (λ r. Reaches p r.0) (retry_allowed p disposition).1
      (λ _. retry_allowed-Reaches p disposition)
      (λ _.
        then-Reaches (retry_allowed-Reaches p disposition)
          (record_stuck-Reaches (retry_allowed p disposition).0))

module _ (role : Text) (followups : Option Text) (turns : ℕ → AnswerTurn) where
  pub answer_pass-Reaches :
      (p : PhaseState) (n : ℕ) → Reaches p (answer_pass role followups turns p n).0
  unfolding call
  answer_pass-Reaches p n =
      answer_cases (λ r. Reaches p r.0) role followups turns p n (λ _. stays p) (unread-Reaches p)
        (λ ds.
          submit_cases (λ r. Reaches p r.0) role followups p (record_disposition p ds)
            (λ _ _. stays p)
            (λ q j h.
              then-Reaches (by_call p q (dispose ds) (ap (after p) h)) (turned_down-Reaches q j))
            (λ q o h _.
              let k = by_call p q (dispose ds) (ap (after p) h) in
              accepted_cases (λ r. Reaches p r.0) role followups q o (λ _. k) k))

  pub execute_disposition-Reaches :
      (fuel : ℕ) (p q : PhaseState) (r : Outcome)
      → execute_disposition role followups turns fuel p ≡ some (q, r)
      → Reaches p q
  unfolding execute_disposition
  execute_disposition-Reaches fuel p q r h =
      repeat-Reaches (answer_pass role followups turns) answer_pass-Reaches fuel 0 p q r h

module _ (x : Externals) where
  collect-Reaches :
      (round : ℕ) (ts : List ReviewerTurn) (s : RoundResults)
      → Reaches s.phase (collect x round ts s).phase
  unfolding collect call
  collect-Reaches round [] s = stays s.phase
  collect-Reaches round (t ∷ ts) s = elim (Result-cases (run_one_reviewer round t)) [
    | inl (e, h) ↦
        rw (h, collect)
          (then-Reaches (by_call s.phase _ (free_retry (retry_kind_for e)) refl)
            (collect-Reaches round ts _))
    | inr (report, h) ↦ rw (h, collect) (collect-Reaches round ts _)
  ]

  recorded-Reaches :
      (p : PhaseState) (fs : List Finding) → Reaches p (recorded p (record_review_round p fs)).0
  unfolding call recorded
  recorded-Reaches p fs = elim (Result-cases (record_review_round p fs)) [
    | inl (e, h) ↦ rw (h, recorded) (stays p)
    | inr ((q, summary), h) ↦ rw (h, recorded) (by_call p q (review fs) (ap (after p) h))
  ]

  close_round-Reaches :
      (appended : Option Text) (s : RoundResults) → Reaches s.phase (close_round appended s).0
  unfolding close_round
  close_round-Reaches appended s = elim (Bool-cases (s.survivors == 0)) [
    | inl e ↦ rw (e, close_round) (stays s.phase)
    | inr e ↦ elim (Option-cases (append_findings appended s.findings)) [
      | inl k ↦ rw (e, k, close_round) (recorded-Reaches s.phase s.findings)
      | inr (m, k) ↦ rw (e, k, close_round) (stays s.phase)
    ]
  ]

  pub execute_review_round-Reaches :
      (prepared appended : Option Text) (ts : List ReviewerTurn) (p : PhaseState)
      → Reaches p (execute_review_round x prepared appended ts p).0
  unfolding execute_review_round call
  execute_review_round-Reaches none appended ts p =
      then-Reaches (by_call p (round_of p).phase round_start refl) (
        then-Reaches (collect-Reaches p.round ts (round_of p))
          (close_round-Reaches appended (collect x p.round ts (round_of p))))
  execute_review_round-Reaches (some m) appended ts p = stays p
