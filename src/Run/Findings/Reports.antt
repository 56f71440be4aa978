-- ===== src/Run/Findings/Reports.antt =====
-- findings.rs: what validation keeps, demotes and records.
use mathlib.Core.List.{map-append}
use agentchat.Prelude.{
  map, mem-append, ℕ, suc, ◌+◌, ◌*◌, ◌≤◌, min, ◌≡◌, refl, sym, ap, ◌∙◌, Bool, true, false, not,
  ◌&&◌, List, [], ◌∷◌, ◌++◌, Option, none, some, is_some, length, filter, arith, Memᴰ,
  length-append, filter-append, inl, inr,
}
use agentchat.Text.{Text}
use agentchat.Protocol.Run.{
  RawFinding, RawReviewReport, Finding, blocking, BlockingCategory, is_blocking, blocking_parse,
}
use agentchat.Run.Findings.Normalize.{Externals, evidence_is_weak}
use agentchat.Run.Findings.Validate.{
  max_blocking_per_report, build_finding, demotion, severity_of, validate_blocking,
  validate_non_blocking, validate_report, validate_round,
}

-- The words of an entry and of a finding.
abbrev pub raw_words : RawFinding → Text × Text × Text × Text
raw_words r = (r.location, r.problem, r.evidence, r.recommendation)

abbrev pub finding_words : Finding → Text × Text × Text × Text
finding_words f = (f.location, f.problem, f.evidence, f.recommendation)

module _ (x : Externals) where
  -- An entry that may block: a known category, and evidence that is not weak.
  abbrev pub is_justified : RawFinding → Bool
  is_justified raw =
      is_some (blocking_parse raw.category) && not (evidence_is_weak x raw.problem raw.evidence)

  blocking_count_from :
      (report : RawReviewReport) (kept : ℕ) (raws : List RawFinding)
      → kept ≤ max_blocking_per_report
      → length (filter is_blocking (validate_blocking x report kept raws)) + kept
        ≡ min max_blocking_per_report (length (filter is_justified raws) + kept)
  unfolding validate_blocking
  blocking_count_from report kept [] h = omega arith
  blocking_count_from report kept (raw ∷ raws) h =
      ground
        (arith, blocking_count_from report kept raws, blocking_count_from report (suc kept) raws)

  no_blocking :
      (report : RawReviewReport) (raws : List RawFinding)
      → filter is_blocking (validate_non_blocking x report raws) ≡ []
  unfolding validate_non_blocking
  no_blocking report [] = refl
  no_blocking report (raw ∷ raws) = no_blocking report raws

  -- A report yields as many blocking findings as it has justified entries in `blocking`, up to the
  -- limit of five: only unjustified entries and those past the limit are demoted, and nothing in
  -- `non_blocking` is promoted.
  pub validate_report-blocking :
      (report : RawReviewReport)
      → length (filter is_blocking (validate_report x report))
        ≡ min max_blocking_per_report (length (filter is_justified report.blocking))
  unfolding validate_report
  validate_report-blocking report =
      rw
        (
          filter-append is_blocking (validate_blocking x report 0 report.blocking)
              (validate_non_blocking x report report.non_blocking),
          no_blocking report report.non_blocking,
          length-append,
        )
        (omega (arith, blocking_count_from report 0 report.blocking))

  -- The reports of a round yield at most five blocking findings for each report.
  pub validate_round-blocking-le :
      (reports : List RawReviewReport)
      → length (filter is_blocking (validate_round x reports))
        ≤ max_blocking_per_report * length reports
  unfolding validate_round
  validate_round-blocking-le [] = omega arith
  validate_round-blocking-le (r ∷ rs) =
      rw (filter-append is_blocking (validate_report x r) (validate_round x rs), length-append)
        (omega (arith, validate_report-blocking r, validate_round-blocking-le rs))

  -- What a blocking finding rests on: an entry of the list with a known category, and evidence that is
  -- not weak, from which it was built undemoted.
  abbrev pub Supported : RawReviewReport → List RawFinding → Finding → Type 0
  Supported report raws f =
      (raw : RawFinding) × (c : BlockingCategory) × Memᴰ raw raws
      × (blocking_parse raw.category ≡ some c)
      × (evidence_is_weak x raw.problem raw.evidence ≡ false)
      × (f ≡ build_finding x report raw (blocking c) none)

  Supported-later :
      (report : RawReviewReport) (raw : RawFinding) {raws : List RawFinding} {f : Finding}
      → Supported report raws f
      → Supported report (raw ∷ raws) f
  Supported-later report raw s = (s.0, s.1, Memᴰ.tail s.2, s.3, s.4, s.5)

  -- The head of the loop's output, if it blocks.
  Supported-head :
      (report : RawReviewReport) (kept : ℕ) (raw : RawFinding) (raws : List RawFinding)
      (parsed : Option BlockingCategory) (weak : Bool)
      → blocking_parse raw.category ≡ parsed
      → evidence_is_weak x raw.problem raw.evidence ≡ weak
      → {f : Finding}
      → f
        ≡ build_finding x report raw
            (severity_of x (demotion x parsed raw kept) parsed)
            (demotion x parsed raw kept)
      → is_blocking f ≡ true
      → Supported report (raw ∷ raws) f
  unfolding demotion build_finding
  Supported-head report kept raw raws none weak p w e b = absurd (ground arith)
  Supported-head report kept raw raws (some c) true p w e b = absurd (ground arith)
  Supported-head report kept raw raws (some c) false p w e b =
      (raw, c, Memᴰ.head refl, p, w, ground arith)

  Supported-from :
      (report : RawReviewReport) (raws : List RawFinding) (kept : ℕ) {f : Finding}
      → Memᴰ f (validate_blocking x report kept raws)
      → is_blocking f ≡ true
      → Supported report raws f
  unfolding validate_blocking
  Supported-from report [] kept m b = elim m [ ]
  Supported-from report (raw ∷ raws) kept (Memᴰ.head e) b =
      Supported-head report kept raw raws _ _ refl refl e b
  Supported-from report (raw ∷ raws) kept (Memᴰ.tail m) b =
      Supported-later report raw (Supported-from report raws _ m b)

  advisory_only :
      (report : RawReviewReport) (raws : List RawFinding) {f : Finding}
      → Memᴰ f (validate_non_blocking x report raws)
      → is_blocking f ≡ false
  unfolding validate_non_blocking build_finding
  advisory_only report [] m = elim m [ ]
  advisory_only report (raw ∷ raws) (Memᴰ.head e) = ap is_blocking e
  advisory_only report (raw ∷ raws) (Memᴰ.tail m) = advisory_only report raws m

  -- Severity is never the reviewer's say: every blocking finding of a validated report was built from
  -- an entry of `blocking` that names a known category and whose evidence is not weak.
  pub validate_report-Supported :
      (report : RawReviewReport) {f : Finding}
      → Memᴰ f (validate_report x report)
      → is_blocking f ≡ true
      → Supported report report.blocking f
  unfolding validate_report
  validate_report-Supported report m b =
      elim (mem-append (validate_blocking x report 0 report.blocking) m) [
        | inl m ↦ Supported-from report report.blocking 0 m b
        | inr m ↦ absurd (ground (arith, advisory_only report report.non_blocking m))
      ]

  words_blocking :
      (report : RawReviewReport) (raws : List RawFinding) (kept : ℕ)
      → map finding_words (validate_blocking x report kept raws) ≡ map raw_words raws
  unfolding validate_blocking build_finding
  words_blocking report [] kept = refl
  words_blocking report (raw ∷ raws) kept =
      ap (λ t. raw_words raw ∷ t) (words_blocking report raws _)

  words_non_blocking :
      (report : RawReviewReport) (raws : List RawFinding)
      → map finding_words (validate_non_blocking x report raws) ≡ map raw_words raws
  unfolding validate_non_blocking build_finding
  words_non_blocking report [] = refl
  words_non_blocking report (raw ∷ raws) =
      ap (λ t. raw_words raw ∷ t) (words_non_blocking report raws)

  -- Validation drops, adds, reorders and rewords nothing: the findings are the report's entries, those
  -- of `blocking` first, with location, problem, evidence and recommendation verbatim.
  pub validate_report-words :
      (report : RawReviewReport)
      → map finding_words (validate_report x report)
        ≡ map raw_words (report.blocking ++ report.non_blocking)
  unfolding validate_report
  validate_report-words report =
      map-append finding_words (validate_blocking x report 0 report.blocking) _
      ∙ rw (words_blocking report report.blocking 0, words_non_blocking report report.non_blocking)
          (sym (map-append raw_words report.blocking report.non_blocking))
