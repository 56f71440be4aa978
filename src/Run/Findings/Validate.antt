-- ===== src/Run/Findings/Validate.antt =====
-- findings.rs: one report, and one round of reports, turned into canonical findings.
use agentchat.Prelude.{ℕ, suc, List, [], ◌∷◌, ◌++◌, Option, none, some, leb, if◌then◌else◌}
use agentchat.Protocol.Run.{
  RawFinding, RawReviewReport, Finding, FindingSeverity, blocking, non_blocking, BlockingCategory,
  other, DemotionReason, unknown_category, weak_evidence, over_blocking_limit, blocking_parse,
  parse_or_other, category_str, finding_id,
}
use agentchat.Run.Findings.Normalize.{Externals, normalize, normalize_file, evidence_is_weak}

abbrev pub max_blocking_per_report : ℕ
max_blocking_per_report = 5

module _ (x : Externals) where
  unfoldable pub build_finding :
      RawReviewReport → RawFinding → FindingSeverity → Option DemotionReason → Finding
  unfolding normalize_file normalize finding_id
  build_finding report raw severity demoted_from =
      let file = normalize_file x raw.location in
      record {
        finding_id = finding_id x.sha256 file (category_str severity) (normalize x raw.problem);
        reviewer = report.reviewer;
        round = report.round;
        severity = severity;
        file = file;
        location = raw.location;
        problem = raw.problem;
        evidence = raw.evidence;
        recommendation = raw.recommendation;
        demoted_from = demoted_from;
      }

  -- Why the entry is demoted, if it is: `parsed` is its category, `kept` the blocking entries so far.
  unfoldable pub demotion : Option BlockingCategory → RawFinding → ℕ → Option DemotionReason
  unfolding evidence_is_weak
  demotion none raw kept = some unknown_category
  demotion (some _) raw kept =
      if evidence_is_weak x raw.problem raw.evidence
      then some weak_evidence
      else if leb max_blocking_per_report kept
      then some over_blocking_limit
      else none

  abbrev pub severity_of : Option DemotionReason → Option BlockingCategory → FindingSeverity
  severity_of none (some category) = blocking category
  severity_of _ _ = non_blocking other

  abbrev pub count_kept : FindingSeverity → ℕ → ℕ
  count_kept (blocking _) kept = suc kept
  count_kept (non_blocking _) kept = kept

  -- The first loop, over `report.blocking`.
  unfoldable pub validate_blocking : RawReviewReport → ℕ → List RawFinding → List Finding
  unfolding build_finding demotion
  validate_blocking report kept [] = []
  validate_blocking report kept (raw ∷ raws) =
      let parsed = blocking_parse raw.category in
      let reason = demotion parsed raw kept in
      let severity = severity_of reason parsed in
      build_finding report raw severity reason
      ∷ validate_blocking report (count_kept severity kept) raws

  -- The second loop, over `report.non_blocking`.
  unfoldable pub validate_non_blocking : RawReviewReport → List RawFinding → List Finding
  unfolding build_finding
  validate_non_blocking report [] = []
  validate_non_blocking report (raw ∷ raws) =
      build_finding report raw (non_blocking (parse_or_other raw.category)) none
      ∷ validate_non_blocking report raws

  unfoldable pub validate_report : RawReviewReport → List Finding
  unfolding validate_blocking validate_non_blocking
  validate_report report =
      validate_blocking report 0 report.blocking ++ validate_non_blocking report report.non_blocking

  unfoldable pub validate_round : List RawReviewReport → List Finding
  unfolding validate_report
  validate_round [] = []
  validate_round (report ∷ reports) = validate_report report ++ validate_round reports
