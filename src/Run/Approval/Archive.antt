-- ===== src/Run/Approval/Archive.antt =====
-- approval.rs: what the archive holds, and what the packet shows at all.
use mathlib.Core.List.{Perm, append_assoc, append-nil, perm_append_comm}
use mathlib.Core.List.Perm
use agentchat.Prelude.{
  ◌≡◌, refl, sym, ap, ℕ, Bool, true, not, ◌&&◌, List, [], ◌∷◌, ◌++◌, map, filter, arith, leb, ltb,
  filter_split-perm, filter-filter, filter_all, is_empty, Bool-cases, inl, inr,
}
use agentchat.Text.{Text}
use agentchat.Protocol.Run.{
  Finding, is_blocking, FindingGroup, accepted, disputed, ArchiveGroup, ArchiveSection,
  ApprovalPacket,
}
use agentchat.Run.Findings.{group_findings}
use agentchat.Run.Findings.Grouping.{members, group_findings-perm}
use agentchat.Run.State.{PhaseState}
use agentchat.Run.Approval.{
  dedupe, Answers, disposition_map, reviewed, archive_group, archive_groups, accepted_in, sections,
  archive_of, build_packet,
}
use agentchat.Run.Approval.Counts.{
  last_answer, findings_once, as_described, finding_of, answered_by, is_unsettled, reviewed_by,
  settled_split,
}

abbrev pub group_items : List ArchiveGroup → List Finding
group_items [] = []
group_items (g ∷ gs) = map finding_of g.items ++ group_items gs

abbrev pub archived : List ArchiveSection → List Finding
archived [] = []
archived (s ∷ ss) = group_items s.groups ++ archived ss

-- Every finding that the packet shows, in the disputes or in the archive.
abbrev pub shown : ApprovalPacket → List Finding
shown packet = map finding_of packet.disputes ++ archived packet.archive

archived-nonempty :
    (ss : List ArchiveSection) → archived (filter (λ s. not (is_empty s.groups)) ss) ≡ archived ss
archived-nonempty [] = refl
archived-nonempty (s ∷ ss) = ground (arith, archived-nonempty ss)

module _ (answers : Answers) where
  map-reviewed : (fs : List Finding) → map finding_of (reviewed fs answers) ≡ fs
  unfolding reviewed
  map-reviewed [] = refl
  map-reviewed (f ∷ fs) = ap (λ t. f ∷ t) (map-reviewed fs)

  items-groups :
      (gs : List FindingGroup) → group_items (map (archive_group answers) gs) ≡ members gs
  items-groups [] = refl
  items-groups (g ∷ gs) = rw (map-reviewed g.findings, items-groups gs)

move_front : (xs ys zs : List Finding) → Perm (xs ++ (ys ++ zs)) (ys ++ (xs ++ zs))
move_front xs ys zs =
    rw (sym (append_assoc xs ys zs), sym (append_assoc ys xs zs))
      (Perm.append_right zs (perm_append_comm xs ys))

-- Two filters of the groups, by opposite tests on consensus, hold all their findings.
members-split :
    (p q : ℕ → Bool) (gs : List FindingGroup)
    → ((c : ℕ) → q c ≡ not (p c))
    → Perm
        (members (filter (λ g. p g.consensus) gs) ++ members (filter (λ g. q g.consensus) gs))
        (members gs)
members-split p q [] h = Perm.refl []
members-split p q (g ∷ gs) h =
    let ih = members-split p q gs h in
    elim (Bool-cases (p g.consensus)) [
      | inl e ↦
          rw
            (h g.consensus, e, append_assoc g.findings (members (filter (λ g. p g.consensus) gs)) _)
            (Perm.append_left g.findings ih)
      | inr e ↦
          rw (h g.consensus, e)
            (Perm.trans (move_front (members (filter (λ g. p g.consensus) gs)) g.findings _)
              (Perm.append_left g.findings ih))
    ]

module _ (answers : Answers) (required advisory : List Finding) where
  -- The archive holds every advisory finding and every accepted blocking one.
  archive_of-perm :
      Perm
        (archived (archive_of answers required advisory))
        (advisory ++ filter (answered_by answers accepted) required)
  unfolding archive_of sections archive_groups
  archive_of-perm =
      let gs = group_findings advisory in
      let many = filter (λ g. leb 2 g.consensus) gs in
      let single = filter (λ g. ltb g.consensus 2) gs in
      let hs = group_findings (map finding_of (accepted_in answers required)) in
      rw
        (
          archived-nonempty (sections answers required advisory),
          items-groups answers many,
          items-groups answers single,
          items-groups answers (filter (λ _. true) hs),
          filter_all hs,
          append-nil (members hs),
          sym (append_assoc (members many) (members single) (members hs)),
        )
        (Perm.append
          (Perm.trans (members-split (λ c. leb 2 c) (λ c. ltb c 2) gs (λ c. ground arith))
            (group_findings-perm advisory))
          (Perm.trans (group_findings-perm (map finding_of (accepted_in answers required)))
            (rw (reviewed_by answers accepted required) (Perm.refl _))))

-- These findings are shown, save the blocking ones that these answers leave open.
abbrev Shows : List Finding → List Finding → Answers → Type 0
Shows shown_findings findings answers =
    Perm shown_findings (filter (λ f. not (is_blocking f && is_unsettled answers f)) findings)

module _ (run_id : Text) (p : PhaseState) where
  shown-Shows :
      Shows (shown (build_packet run_id p)) (dedupe p.findings) (disposition_map p.dispositions)
  unfolding build_packet
  shown-Shows =
      let answers = disposition_map p.dispositions in
      let findings = dedupe p.findings in
      let required = filter is_blocking findings in
      let advisory = filter (λ f. not (is_blocking f)) findings in
      let in_dispute = filter (answered_by answers disputed) required in
      let agreed = filter (answered_by answers accepted) required in
      rw (reviewed_by answers disputed required) (
        Perm.trans (Perm.append_left in_dispute (archive_of-perm answers required advisory)) (
          Perm.trans (move_front in_dispute advisory agreed) (
            Perm.trans
              (Perm.append_left advisory (filter_split-perm _ _ _ required (settled_split answers)))
              (rw (filter-filter (λ f. not (is_unsettled answers f)) is_blocking findings) (
                filter_split-perm _ _ _ findings
                  (record { either = λ f. ground arith; never_both = λ f. ground arith }))))))

  -- Of the findings of the phase, the first for each reviewer and id, the disputes and the archive of
  -- a packet show each exactly once, save the blocking ones that the author neither accepted nor
  -- disputed: those are shown nowhere. The answer to a finding is the last disposition with its id.
  pub build_packet-shown :
      let answers = last_answer p.dispositions in
      Perm
        (shown (build_packet run_id p))
        (filter (λ f. not (is_blocking f && is_unsettled answers f)) (findings_once p.findings))
  build_packet-shown = as_described (Shows (shown (build_packet run_id p))) p shown-Shows
