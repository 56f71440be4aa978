-- ===== src/Run/Approval.antt =====
-- daemon/core/src/run/approval.rs: the packet a human reads at a gate, built from the phase's findings
-- and dispositions. The `BTreeMap` of answers is a function from ids.
pub mod Counts
pub mod Archive
mod Samples
use agentchat.Prelude.{
  ℕ, Bool, true, false, not, ◌-◌, List, [], ◌∷◌, Option, none, some, if◌then◌else◌, map, filter,
  length, is_empty, unique_from, leb, ltb, ◌==◌, list_eq, nat_eq, pair_eq,
}
use agentchat.Text.{Text, codes}
use agentchat.Protocol.Run.{
  Finding, is_blocking, FindingGroup, category_str, Disposition, DispositionAction, accepted,
  disputed, action_eqb, ReviewedFinding, DiscussionSummary, ArchiveGroup, ArchiveSection,
  ApprovalPacket,
}
use agentchat.Run.Findings.{group_findings}
use agentchat.Run.State.{PhaseState, exit_reason}

-- A reviewer's name and a finding's id.
abbrev pub reviewer_and_id : Finding → Text × Text
reviewer_and_id f = (f.reviewer, f.finding_id)

unfoldable pub dedupe : List Finding → List Finding
unfolding unique_from
dedupe findings = unique_from reviewer_and_id [] findings

abbrev pub Answers : Type 0
Answers = Text → Option Disposition

abbrev pub insert_answer : Disposition → Answers → Answers
insert_answer d answers id = if d.finding_id == id then some d else answers id

-- The loop over the dispositions.
unfoldable pub fill_answers : List Disposition → Answers → Answers
fill_answers [] answers = answers
fill_answers (d ∷ ds) answers = fill_answers ds (insert_answer d answers)

unfoldable pub disposition_map : List Disposition → Answers
unfolding fill_answers
disposition_map dispositions = fill_answers dispositions (λ _. none)

unfoldable pub reviewed : List Finding → Answers → List ReviewedFinding
reviewed [] answers = []
reviewed (f ∷ fs) answers =
    record { finding = f; disposition = answers f.finding_id } ∷ reviewed fs answers

abbrev pub action_of : ReviewedFinding → Option DispositionAction
action_of item = elim item.disposition [ none ↦ none | some answer ↦ some answer.action ]

-- `action_of(item) == Some(action)`.
abbrev pub has_action : DispositionAction → ReviewedFinding → Bool
has_action action item = elim (action_of item) [ none ↦ false | some a ↦ action_eqb a action ]

module _ (answers : Answers) where
  abbrev pub archive_group : FindingGroup → ArchiveGroup
  archive_group g = record {
    file = g.file;
    category = category_str g.severity;
    consensus = g.consensus;
    items = reviewed g.findings answers;
  }

  unfoldable pub archive_groups : List FindingGroup → (ℕ → Bool) → List ArchiveGroup
  unfolding reviewed
  archive_groups groups keep = map archive_group (filter (λ g. keep g.consensus) groups)

  abbrev pub disputes_in : List Finding → List ReviewedFinding
  disputes_in required = filter (has_action disputed) (reviewed required answers)

  abbrev pub accepted_in : List Finding → List ReviewedFinding
  accepted_in required = filter (has_action accepted) (reviewed required answers)

  abbrev pub followups_in : List Finding → List ReviewedFinding
  followups_in advisory =
      filter (λ item. not (has_action accepted item)) (reviewed advisory answers)

  unfoldable pub sections : List Finding → List Finding → List ArchiveSection
  unfolding archive_groups
  sections required advisory =
      let advisory_groups = group_findings advisory in
      record {
        title = codes "Advisory · flagged by 2+ reviewers";
        expanded = true;
        groups = archive_groups advisory_groups (λ consensus. leb 2 consensus);
      }
      ∷ record {
        title = codes "Advisory · single reviewer";
        expanded = false;
        groups = archive_groups advisory_groups (λ consensus. ltb consensus 2);
      }
      ∷ record {
        title = codes "Blocking · accepted and addressed";
        expanded = false;
        groups =
            archive_groups (group_findings (map (λ item. item.finding) (accepted_in required)))
              (λ _. true);
      }
      ∷ []

  unfoldable pub archive_of : List Finding → List Finding → List ArchiveSection
  unfolding sections
  archive_of required advisory = filter (λ s. not (is_empty s.groups)) (sections required advisory)

unfoldable pub build_packet : Text → PhaseState → ApprovalPacket
unfolding dedupe disposition_map reviewed archive_of
build_packet run_id phase =
    let findings = dedupe phase.findings in
    let answers = disposition_map phase.dispositions in
    let required = filter is_blocking findings in
    let advisory = filter (λ f. not (is_blocking f)) findings in
    let disputes = disputes_in answers required in
    let followups = followups_in answers advisory in
    record {
      run_id = run_id;
      phase = phase.kind;
      version = phase.version;
      exit_reason = exit_reason phase;
      disputes = disputes;
      summary = record {
        blocking_raised = length required;
        blocking_accepted = length (accepted_in answers required);
        blocking_disputed = length disputes;
        non_blocking_raised = length advisory;
        non_blocking_adopted = length advisory - length followups;
        non_blocking_declined = length followups;
        cycles_used = phase.ledger.cycles_used;
        human_iterations = phase.ledger.human_iterations;
      };
      followups = followups;
      archive = archive_of answers required advisory;
    }
