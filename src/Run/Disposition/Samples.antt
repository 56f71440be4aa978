-- ===== src/Run/Disposition/Samples.antt =====
-- Rounds and answers at the gate, and the theorems at concrete inputs.
use Prim.Native.String.{String}
use agentchat.Prelude.{◌≡◌, refl, ◌↔◌, List, [], ◌∷◌, none, list_eqb, list_eq, nat_eq}
use agentchat.Text.{codes, trim, is_whitespace}
use agentchat.Protocol.Run.{
  Finding, blocking, non_blocking, incorrect, style, Disposition, DispositionAction, accepted,
  disputed, declined,
}
use agentchat.Run.Findings.{blocking_findings}
use agentchat.Run.Disposition.{pass, evaluate_gate, gate_rejection}
use agentchat.Run.Disposition.Gate.{Reported, gate_rejection-Reports}
use agentchat.Run.Disposition.Acceptance.{IsComplete, evaluate_gate-pass_iff}

abbrev finding : String → Finding
finding id = record {
  finding_id = codes id;
  reviewer = codes "opus";
  round = 1;
  severity = blocking incorrect;
  file = codes "core/src/b.rs";
  location = codes "core/src/b.rs:7";
  problem = codes id;
  evidence = codes "with max_cycles=2 the ledger admits a third revision";
  recommendation = [];
  demoted_from = none;
}

abbrev advice : Finding
advice = record (finding "n1") { severity = non_blocking style }

abbrev answer : String → DispositionAction → String → Disposition
answer id action reason = record {
  finding_id = codes id;
  action = action;
  reason = codes reason;
  changed_files = [];
}

abbrev raised : List Finding
raised = finding "b1" ∷ finding "b2" ∷ advice ∷ finding "b1" ∷ []

abbrev complete_answers : List Disposition
complete_answers = answer "b1" accepted "" ∷ answer "b2" disputed "out of scope" ∷ []

abbrev poor_answers : List Disposition
poor_answers = answer "b1" disputed "  " ∷ answer "zz" accepted "" ∷ answer "n1" declined "" ∷ []

complete_passes : evaluate_gate raised complete_answers ≡ pass
unfolding evaluate_gate list_eqb trim is_whitespace blocking_findings
complete_passes = refl

poor_is_rejected : gate_rejection raised poor_answers ≡ record {
  missing = codes "b2" ∷ [];
  disputed_without_reason = codes "b1" ∷ [];
  declined_blocking = [];
  unknown_finding_ids = codes "zz" ∷ [];
}
unfolding gate_rejection list_eqb trim is_whitespace blocking_findings
poor_is_rejected = refl

gate_rejection-Reports_example :
    Reported raised poor_answers (codes "b2") (gate_rejection raised poor_answers)
gate_rejection-Reports_example = gate_rejection-Reports raised poor_answers (codes "b2")

evaluate_gate-pass_iff_example :
    (evaluate_gate raised complete_answers ≡ pass) ↔ IsComplete raised complete_answers
evaluate_gate-pass_iff_example = evaluate_gate-pass_iff raised complete_answers
