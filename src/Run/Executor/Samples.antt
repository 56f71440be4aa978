-- ===== src/Run/Executor/Samples.antt =====
-- executor.rs on concrete turns.
use agentchat.Prelude.{
  ◌≡◌, refl, ℕ, true, false, List, [], ◌∷◌, ◌++◌, none, is_some, ok, err, arith, ◌≢◌, ◌⊎◌,
}
use agentchat.Text.{Text, codes}
use agentchat.Protocol.Run.{
  Finding, blocking, incorrect, plan, default_budget, converged, reviewing, dispositioning,
}
use agentchat.Run.Findings.{Externals, validate_round}
use agentchat.Run.State.{PhaseState, new_phase, accept_dispositions, to_approval}
use agentchat.Run.Executor.Turns.{no_reviewers_survived}
use agentchat.Run.Executor.Author.{AuthorTurn}
use agentchat.Run.Executor.Review.{ReviewerTurn, unreadable, parsed, execute_review_round}
use agentchat.Run.Executor.Answer.{AnswerTurn, execute_disposition}
use agentchat.Run.Executor.Retries.{FitsWords, execute_disposition_returns}
use agentchat.Run.Executor.Outcomes.{
  Settled, surviving, execute_disposition-Settled, execute_review_round-records,
}

abbrev author : Text
author = codes "planner"

-- An author that never writes the file.
abbrev idle : ℕ → AuthorTurn
idle n = record { failure = none; written = false }

abbrev new_plan : PhaseState
new_plan = new_phase plan default_budget

default_fits : FitsWords default_budget
default_fits = record {
  invalid_output_fits = omega arith;
  agent_failure_fits = omega arith;
  disposition_fits = omega arith;
}

abbrev bug : Finding
bug = record {
  finding_id = codes "b1";
  reviewer = codes "opus";
  round = 1;
  severity = blocking incorrect;
  file = codes "core/src/b.rs";
  location = codes "core/src/b.rs:7";
  problem = codes "cap is off by one";
  evidence = codes "with max_cycles=2 the ledger admits a third revision";
  recommendation = [];
  demoted_from = none;
}

abbrev owing : List Finding → PhaseState
owing fs = record new_plan { stage = dispositioning; current_round_findings = fs }

-- An author that answers nothing.
abbrev silent : ℕ → AnswerTurn
silent n = record { failure = none; file = ok [] }

execute_disposition_returns_example :
    is_some (execute_disposition author none silent 9 (owing (bug ∷ []))) ≡ true
unfolding new_phase agentchat.Run.Budget.new
execute_disposition_returns_example =
    execute_disposition_returns author none silent 9 (owing (bug ∷ [])) default_fits (omega arith)

abbrev answered : PhaseState
answered = (accept_dispositions (owing []) []).0

execute_disposition-Settled_example : Settled answered (to_approval converged)
unfolding execute_disposition new_phase accept_dispositions agentchat.Run.Disposition.evaluate_gate
    agentchat.Run.Findings.blocking_findings
execute_disposition-Settled_example =
    execute_disposition-Settled author none silent 1 (owing []) answered (to_approval converged)
      refl

abbrev toy : Externals
toy = record { to_lowercase = λ t. t; sha256 = λ bytes. bytes }

-- One reviewer fails, the other reports nothing.
abbrev reviewers : List ReviewerTurn
reviewers =
    record { name = codes "opus"; path = codes "o.json"; failure = none; file = unreadable }
    ∷ record {
      name = codes "luna";
      path = codes "l.json";
      failure = none;
      file = parsed (record { reviewer = codes "me"; round = 7; blocking = []; non_blocking = [] });
    }
    ∷ []

abbrev under_review : PhaseState
under_review = record new_plan { stage = reviewing; round = 1 }

execute_review_round-records_example :
    let reports = surviving 1 reviewers in
    let r = execute_review_round toy none none reviewers under_review in
    ((reports ≡ [])
      × (r.1 ≡ err no_reviewers_survived)
      × (r.0.stage ≡ reviewing)
      × (r.0.findings ≡ under_review.findings))
    ⊎ ((reports ≢ [])
        × (r.0.stage ≡ dispositioning)
        × (r.0.current_round_findings ≡ validate_round toy reports)
        × (r.0.findings ≡ under_review.findings ++ validate_round toy reports))
execute_review_round-records_example = execute_review_round-records toy reviewers under_review refl
