-- ===== src/Run/Approval/Samples.antt =====
-- approval.rs on concrete phases.
use agentchat.Prelude.{
  ◌≡◌, refl, ℕ, ◌+◌, true, false, not, ◌&&◌, List, [], ◌∷◌, Option, none, some, map, filter, length,
}
use mathlib.Core.List.{Perm}
use agentchat.Text.{Text, codes}
use agentchat.Protocol.Run.{
  Finding, FindingSeverity, blocking, non_blocking, incorrect, style, is_blocking, Disposition,
  DispositionAction, accepted, disputed, plan, default_budget,
}
use agentchat.Run.State.{PhaseState, new_phase}
use agentchat.Run.Approval.{build_packet}
use agentchat.Run.Approval.Counts.{
  findings_once, last_answer, answered_by, is_unsettled, build_packet-summary,
}
use agentchat.Run.Approval.Archive.{shown, build_packet-shown}

abbrev found : Text → Text → FindingSeverity → Finding
found reviewer id severity = record {
  finding_id = id;
  reviewer = reviewer;
  round = 1;
  severity = severity;
  file = codes "src/run.rs";
  location = codes "src/run.rs:8";
  problem = id;
  evidence = codes "run.rs:8 panics";
  recommendation = [];
  demoted_from = none;
}

abbrev answer : Text → DispositionAction → Text → Disposition
answer id action reason = record {
  finding_id = id;
  action = action;
  reason = reason;
  changed_files = [];
}

-- Two blocking findings with an answer, one without, and two reviewers on one advisory finding, of
-- whom one repeats it.
abbrev phase : PhaseState
phase = record (new_phase plan default_budget) {
  findings =
      found (codes "opus") (codes "a") (blocking incorrect)
      ∷ found (codes "opus") (codes "b") (blocking incorrect)
      ∷ found (codes "luna") (codes "c") (blocking incorrect)
      ∷ found (codes "opus") (codes "d") (non_blocking style)
      ∷ found (codes "luna") (codes "d") (non_blocking style)
      ∷ found (codes "luna") (codes "d") (non_blocking style)
      ∷ [];
  dispositions =
      answer (codes "a") disputed (codes "no")
      ∷ answer (codes "b") disputed (codes "no")
      ∷ answer (codes "a") accepted []
      ∷ [];
}

packet_counts :
    let s = (build_packet [] phase).summary in
    (s.blocking_raised ∷ s.blocking_accepted ∷ s.blocking_disputed ∷ s.non_blocking_declined ∷ [])
    ≡ 3 ∷ 1 ∷ 1 ∷ 2 ∷ []
unfolding build_packet agentchat.Prelude.contains agentchat.Prelude.list_eqb
packet_counts = refl

build_packet-summary_example :
    let s = (build_packet [] phase).summary in
    let findings = findings_once phase.findings in
    let answers = last_answer phase.dispositions in
    (s.blocking_raised + s.non_blocking_raised ≡ length findings)
    × (s.blocking_accepted
          + s.blocking_disputed
          + length (filter (is_unsettled answers) (filter is_blocking findings))
        ≡ s.blocking_raised)
    × (s.blocking_accepted
        ≡ length (filter (answered_by answers accepted) (filter is_blocking findings)))
    × (s.non_blocking_adopted
        ≡ length
            (filter (answered_by answers accepted) (filter (λ f. not (is_blocking f)) findings)))
    × (s.non_blocking_adopted + s.non_blocking_declined ≡ s.non_blocking_raised)
build_packet-summary_example = build_packet-summary [] phase

build_packet-shown_example :
    let answers = last_answer phase.dispositions in
    Perm
      (shown (build_packet [] phase))
      (filter (λ f. not (is_blocking f && is_unsettled answers f)) (findings_once phase.findings))
build_packet-shown_example = build_packet-shown [] phase
