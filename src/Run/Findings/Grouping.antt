-- ===== src/Run/Findings/Grouping.antt =====
-- findings.rs: grouping loses nothing, mixes nothing, and ranks by agreement.
use Prim.Native.Nat.{Ordering}
use mathlib.Core.List.{Perm, perm_middle, append_assoc, append-nil, perm_append_comm}
use mathlib.Core.List.Perm
use agentchat.Prelude.{
  ◌≡◌, refl, ap, List, [], ◌∷◌, ◌++◌, map, arith, ◌⊎◌, ◌≢◌, inl, inr, list_eq, nat_eq,
}
use agentchat.Protocol.Run.{Finding, FindingGroup}
use agentchat.Run.Findings.Group.{
  group_key, key_cmp, Bucket, bucket_findings, push_finding, fill_buckets, to_group, group_cmp,
  insert_group, sort_groups, group_findings,
}

abbrev all_in : List Bucket → List Finding
all_in [] = []
all_in (b ∷ bs) = bucket_findings b ++ all_in bs

abbrev pub members : List FindingGroup → List Finding
members [] = []
members (g ∷ gs) = g.findings ++ members gs

Ordering-cases : (o : Ordering) → (o ≡ Ordering.lt) ⊎ ((o ≡ Ordering.eq) ⊎ (o ≡ Ordering.gt))
Ordering-cases Ordering.lt = inl refl
Ordering-cases Ordering.eq = inr (inl refl)
Ordering-cases Ordering.gt = inr (inr refl)

pub push_cases {ℓ} :
    (P : List Bucket → Type ℓ) (f : Finding) (b : Bucket) (bs : List Bucket)
    → (key_cmp (group_key f) b.key ≡ Ordering.lt
        → P (record { key = group_key f; first = f; rest = [] } ∷ (b ∷ bs)))
    → (key_cmp (group_key f) b.key ≡ Ordering.eq → P (record b { rest = b.rest ++ f ∷ [] } ∷ bs))
    → (key_cmp (group_key f) b.key ≡ Ordering.gt → P (b ∷ push_finding f bs))
    → P (push_finding f (b ∷ bs))
unfolding push_finding
push_cases P f b bs below same above = elim (Ordering-cases (key_cmp (group_key f) b.key)) [
  | inl e ↦ rw (e, push_finding) (below e)
  | inr (inl e) ↦ rw (e, push_finding) (same e)
  | inr (inr e) ↦ rw (e, push_finding) (above e)
]

pub insert_cases {ℓ} :
    (P : List FindingGroup → Type ℓ) (g h : FindingGroup) (hs : List FindingGroup)
    → (group_cmp g h ≢ Ordering.gt → P (g ∷ (h ∷ hs)))
    → (group_cmp g h ≡ Ordering.gt → P (h ∷ insert_group g hs))
    → P (insert_group g (h ∷ hs))
unfolding insert_group
insert_cases P g h hs before after = elim (Ordering-cases (group_cmp g h)) [
  | inl e ↦ rw (e, insert_group) (before (λ k. ground arith))
  | inr (inl e) ↦ rw (e, insert_group) (before (λ k. ground arith))
  | inr (inr e) ↦ rw (e, insert_group) (after e)
]

push_finding-perm :
    (f : Finding) (bs : List Bucket) → Perm (f ∷ all_in bs) (all_in (push_finding f bs))
unfolding push_finding
push_finding-perm f [] = Perm.refl (f ∷ [])
push_finding-perm f (b ∷ bs) =
    push_cases (λ cs. Perm (f ∷ all_in (b ∷ bs)) (all_in cs)) f b bs (λ _. Perm.refl _)
      (λ _. Perm.trans (Perm.swap b.first f (b.rest ++ all_in bs)) (
        Perm.cons b.first (
          rw (append_assoc b.rest (f ∷ []) (all_in bs))
            (Perm.symm (perm_middle b.rest (all_in bs))))))
      (λ _.
        Perm.trans (Perm.symm (perm_middle (bucket_findings b) (all_in bs)))
          (Perm.append_left (bucket_findings b) (push_finding-perm f bs)))

insert_group-perm :
    (g : FindingGroup) (hs : List FindingGroup)
    → Perm (g.findings ++ members hs) (members (insert_group g hs))
unfolding insert_group
insert_group-perm g [] = Perm.refl _
insert_group-perm g (h ∷ hs) =
    insert_cases (λ gs. Perm (g.findings ++ (h.findings ++ members hs)) (members gs)) g h hs
      (λ _. Perm.refl _)
      (λ _. rw (← append_assoc g.findings h.findings (members hs)) (
        Perm.trans (Perm.append_right (members hs) (perm_append_comm g.findings h.findings)) (
          rw (append_assoc h.findings g.findings (members hs))
            (Perm.append_left h.findings (insert_group-perm g hs)))))

sort_groups-perm : (gs : List FindingGroup) → Perm (members gs) (members (sort_groups gs))
unfolding sort_groups
sort_groups-perm [] = Perm.refl []
sort_groups-perm (g ∷ gs) =
    Perm.trans (Perm.append_left g.findings (sort_groups-perm gs))
      (insert_group-perm g (sort_groups gs))

fill_buckets-perm :
    (bs : List Bucket) (fs : List Finding) → Perm (fs ++ all_in bs) (all_in (fill_buckets bs fs))
unfolding fill_buckets
fill_buckets-perm bs [] = Perm.refl _
fill_buckets-perm bs (f ∷ fs) = Perm.trans (Perm.symm (perm_middle fs (all_in bs))) (
    Perm.trans (Perm.append_left fs (push_finding-perm f bs))
      (fill_buckets-perm (push_finding f bs) fs))

members-to_group : (bs : List Bucket) → members (map to_group bs) ≡ all_in bs
unfolding to_group
members-to_group [] = refl
members-to_group (b ∷ bs) = ap (λ t. bucket_findings b ++ t) (members-to_group bs)

-- Grouping is not merging: the groups together hold each finding as often as it was given.
pub group_findings-perm : (fs : List Finding) → Perm (members (group_findings fs)) fs
unfolding group_findings
group_findings-perm fs = Perm.symm (
    Perm.trans (rw (append-nil fs) at (fill_buckets-perm [] fs)) (
      rw (members-to_group (fill_buckets [] fs)) at
        (sort_groups-perm (map to_group (fill_buckets [] fs)))))
