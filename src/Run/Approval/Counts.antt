-- ===== src/Run/Approval/Counts.antt =====
-- approval.rs: which answer counts, and the counts of the summary.
use agentchat.Prelude.{
  ◌≡◌, refl, sym, ap, subst, ◌∙◌, ◌&&◌, firsts, unique_from-firsts, pair_eq, ◌+◌, Bool, false, not,
  ◌||◌, List, [], ◌∷◌, Option, none, some, map, filter, length, arith, ◌==◌, list_eq, nat_eq,
  SplitsInto, length-filter_split, length-filter-not, length-map,
}
use mathlib.Core.Path.{fun_ext}
use agentchat.Text.{Text}
use agentchat.Protocol.Run.{
  Finding, is_blocking, Disposition, DispositionAction, accepted, disputed, action_eqb,
  ReviewedFinding, DiscussionSummary,
}
use agentchat.Run.State.{PhaseState}
use agentchat.Run.Approval.{
  reviewer_and_id, dedupe, Answers, insert_answer, fill_answers, disposition_map, reviewed,
  has_action, build_packet,
}

-- The last element, or a default.
abbrev last_or : Option Disposition → List Disposition → Option Disposition
last_or o [] = o
last_or o (d ∷ ds) = last_or (some d) ds

abbrev pub last_answer : List Disposition → Text → Option Disposition
last_answer ds id = last_or none (filter (λ d. d.finding_id == id) ds)

fill_answers-last :
    (ds : List Disposition) (answers : Answers) (id : Text)
    → fill_answers ds answers id ≡ last_or (answers id) (filter (λ d. d.finding_id == id) ds)
unfolding fill_answers
fill_answers-last [] answers id = refl
fill_answers-last (d ∷ ds) answers id =
    ground (arith, fill_answers-last ds (insert_answer d answers) id)

-- The answer to a finding is the last disposition that names it, if there is one.
pub disposition_map-last :
    (ds : List Disposition) (id : Text) → disposition_map ds id ≡ last_answer ds id
unfolding disposition_map
disposition_map-last ds id = fill_answers-last ds (λ _. none) id

disposition_map-last_answer : (ds : List Disposition) → disposition_map ds ≡ last_answer ds
disposition_map-last_answer ds = fun_ext (disposition_map-last ds)

-- The findings of a phase, of those with one reviewer and one id the first.
abbrev pub findings_once : List Finding → List Finding
findings_once fs = firsts (λ f g. f.reviewer == g.reviewer && f.finding_id == g.finding_id) fs

dedupe-findings_once : (fs : List Finding) → dedupe fs ≡ findings_once fs
unfolding dedupe
dedupe-findings_once fs =
    unique_from-firsts reviewer_and_id
      (λ f g. f.reviewer == g.reviewer && f.finding_id == g.finding_id) (λ f g. refl) fs

-- A statement on the code's findings and answers is one on those.
pub as_described {ℓ} :
    (P : List Finding → Answers → Type ℓ) (p : PhaseState)
    → P (dedupe p.findings) (disposition_map p.dispositions)
    → P (findings_once p.findings) (last_answer p.dispositions)
as_described P p h =
    subst (λ fs. P fs (last_answer p.dispositions)) (dedupe-findings_once p.findings)
      (subst (P (dedupe p.findings)) (disposition_map-last_answer p.dispositions) h)

abbrev pub finding_of : ReviewedFinding → Finding
finding_of item = item.finding

module _ (answers : Answers) where
  -- The author's answer to the finding takes the action.
  abbrev pub answered_by : DispositionAction → Finding → Bool
  answered_by action f = elim (answers f.finding_id) [
    | none ↦ false
    | some d ↦ action_eqb d.action action
  ]

  -- The author neither accepted nor disputed the finding.
  abbrev pub is_unsettled : Finding → Bool
  is_unsettled f = not (answered_by accepted f || answered_by disputed f)

  -- What the packet lists by an action is what the author answered by it.
  pub reviewed_by :
      (action : DispositionAction) (fs : List Finding)
      → map finding_of (filter (has_action action) (reviewed fs answers))
        ≡ filter (answered_by action) fs
  unfolding reviewed
  reviewed_by action [] = refl
  reviewed_by action (f ∷ fs) = ground (arith, reviewed_by action fs)

  pub length-reviewed_by :
      (action : DispositionAction) (fs : List Finding)
      → length (filter (has_action action) (reviewed fs answers))
        ≡ length (filter (answered_by action) fs)
  length-reviewed_by action fs =
      sym (length-map finding_of (filter (has_action action) (reviewed fs answers)))
      ∙ ap length (reviewed_by action fs)

  length-followups :
      (fs : List Finding)
      → length (filter (λ item. not (has_action accepted item)) (reviewed fs answers))
        ≡ length (filter (λ f. not (answered_by accepted f)) fs)
  unfolding reviewed
  length-followups [] = refl
  length-followups (f ∷ fs) = ground (arith, length-followups fs)

  pub settled_split :
      SplitsInto (answered_by disputed) (answered_by accepted) (λ f. not (is_unsettled f))
  settled_split = record { either = λ f. ground arith; never_both = λ f. ground arith }

  counts_settled :
      (fs : List Finding)
      → length (filter (answered_by accepted) fs)
          + length (filter (answered_by disputed) fs)
          + length (filter is_unsettled fs)
        ≡ length fs
  counts_settled fs = omega (
    arith,
    length-filter_split (answered_by disputed) (answered_by accepted) _ fs settled_split,
    length-filter-not is_unsettled fs,
  )

-- What the summary counts, of these findings by these answers.
abbrev AddsUp : DiscussionSummary → List Finding → Answers → Type 0
AddsUp s findings answers =
    (s.blocking_raised + s.non_blocking_raised ≡ length findings)
    × (s.blocking_accepted
          + s.blocking_disputed
          + length (filter (is_unsettled answers) (filter is_blocking findings))
        ≡ s.blocking_raised)
    × (s.blocking_accepted
        ≡ length (filter (answered_by answers accepted) (filter is_blocking findings)))
    × (s.non_blocking_adopted
        ≡ length
            (filter (answered_by answers accepted) (filter (λ f. not (is_blocking f)) findings)))
    × (s.non_blocking_adopted + s.non_blocking_declined ≡ s.non_blocking_raised)

module _ (run_id : Text) (p : PhaseState) where
  summary-AddsUp :
      AddsUp (build_packet run_id p).summary (dedupe p.findings) (disposition_map p.dispositions)
  unfolding build_packet
  summary-AddsUp =
      let findings = dedupe p.findings in
      let answers = disposition_map p.dispositions in
      let required = filter is_blocking findings in
      let advisory = filter (λ f. not (is_blocking f)) findings in
      let all = length-filter-not is_blocking findings in
      let a = length-reviewed_by answers accepted required in
      let d = length-reviewed_by answers disputed required in
      let n = length-followups answers advisory in
      let c = counts_settled answers required in
      let k = length-filter-not (answered_by answers accepted) advisory in
      (all, omega arith, omega arith, omega arith, omega arith)

  -- The summary adds up. Of the findings of the phase, the first for each reviewer and id, each is
  -- blocking or advisory; of the blocking ones as many are accepted, disputed, or neither of the two,
  -- as were raised; the accepted blocking ones and the adopted advisory ones are those whose answer
  -- accepts them; and the adopted and the declined make all advisory ones that were raised. The
  -- answer to a finding is the last disposition with its id.
  pub build_packet-summary :
      let s = (build_packet run_id p).summary in
      let findings = findings_once p.findings in
      let answers = last_answer p.dispositions in
      (s.blocking_raised + s.non_blocking_raised ≡ length findings)
      × (s.blocking_accepted
            + s.blocking_disputed
            + length (filter (is_unsettled answers) (filter is_blocking findings))
          ≡ s.blocking_raised)
      × (s.blocking_accepted
          ≡ length (filter (answered_by answers accepted) (filter is_blocking findings)))
      × (s.non_blocking_adopted
          ≡ length
              (filter (answered_by answers accepted) (filter (λ f. not (is_blocking f)) findings)))
      × (s.non_blocking_adopted + s.non_blocking_declined ≡ s.non_blocking_raised)
  build_packet-summary = as_described (AddsUp (build_packet run_id p).summary) p summary-AddsUp
