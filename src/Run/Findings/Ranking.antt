-- ===== src/Run/Findings/Ranking.antt =====
-- findings.rs: the groups are homogeneous, no two share a key, and they come ranked by agreement.
use Prim.Native.Nat.{Ordering}
use agentchat.Prelude.{
  ◌≤◌, ◌<◌, ◌≡◌, refl, sym, subst, true, false, List, [], ◌∷◌, map, length, All, All-append, arith,
  ◌⊎◌, ◌≢◌, unique_from, list_eq, nat_eq, contains,
}
use agentchat.Protocol.Run.{Finding, FindingGroup, severity_is_blocking, category_str}
use agentchat.Run.Findings.Group.{
  GroupKey, group_key, Bucket, bucket_findings, push_finding, fill_buckets, reviewer_of, to_group,
  group_cmp, insert_group, sort_groups, group_findings,
}
use agentchat.Run.Findings.Grouping.{push_cases, insert_cases}
use agentchat.Run.Findings.Order.{key_cmp-eq, group_cmp-flip}

-- The findings of a bucket have its key.
abbrev pub IsPure : Bucket → Type 0
IsPure b = All (λ f. group_key f ≡ b.key) (bucket_findings b)

push_finding-IsPure :
    (f : Finding) (bs : List Bucket) → All IsPure bs → All IsPure (push_finding f bs)
unfolding push_finding
push_finding-IsPure f [] v = ((refl, tt), tt)
push_finding-IsPure f (b ∷ bs) v =
    push_cases (All IsPure) f b bs (λ _. ((refl, tt), v))
      (λ e. (
        All-append (λ g. group_key g ≡ b.key) (bucket_findings b) (f ∷ []) v.0
            (key_cmp-eq (group_key f) b.key e, tt),
        v.1,
      ))
      (λ _. (v.0, push_finding-IsPure f bs v.1))

pub fill_buckets-IsPure :
    (bs : List Bucket) (fs : List Finding) → All IsPure bs → All IsPure (fill_buckets bs fs)
unfolding fill_buckets
fill_buckets-IsPure bs [] v = v
fill_buckets-IsPure bs (f ∷ fs) v =
    fill_buckets-IsPure (push_finding f bs) fs (push_finding-IsPure f bs v)

-- The key of a group: its file, whether it blocks, and its category.
abbrev pub key_of_group : FindingGroup → GroupKey
key_of_group g = (g.file, severity_is_blocking g.severity, category_str g.severity)

-- The findings of a group have its key, and its consensus is the number of their reviewers, each
-- counted once.
pub record IsHomogeneous (g : FindingGroup) : Type 0 where
  pub same_key : All (λ f. group_key f ≡ key_of_group g) g.findings
  pub consensus : g.consensus ≡ length (unique_from reviewer_of [] g.findings)
  pub someone : 0 < g.consensus

to_group-IsHomogeneous : (b : Bucket) → IsPure b → IsHomogeneous (to_group b)
unfolding to_group group_key unique_from contains
to_group-IsHomogeneous b v = record {
  same_key = subst (λ k. All (λ f. group_key f ≡ k) (bucket_findings b)) (sym v.0) v;
  consensus = refl;
  someone = omega arith;
}

pub insert_group-All {ℓ} :
    (P : FindingGroup → Type ℓ) (g : FindingGroup) (hs : List FindingGroup)
    → P g
    → All P hs
    → All P (insert_group g hs)
unfolding insert_group
insert_group-All P g [] p v = (p, tt)
insert_group-All P g (h ∷ hs) p v =
    insert_cases (All P) g h hs (λ _. (p, v)) (λ _. (v.0, insert_group-All P g hs p v.1))

pub sort_groups-All {ℓ} :
    (P : FindingGroup → Type ℓ) (gs : List FindingGroup) → All P gs → All P (sort_groups gs)
unfolding sort_groups
sort_groups-All P [] v = tt
sort_groups-All P (g ∷ gs) v = insert_group-All P g (sort_groups gs) v.0 (sort_groups-All P gs v.1)

map-to_group-All : (bs : List Bucket) → All IsPure bs → All IsHomogeneous (map to_group bs)
map-to_group-All [] v = tt
map-to_group-All (b ∷ bs) v = (to_group-IsHomogeneous b v.0, map-to_group-All bs v.1)

-- Every group holds findings of one file and one category only, all blocking or none, and reports how
-- many distinct reviewers raised them, at least one.
pub group_findings-IsHomogeneous : (fs : List Finding) → All IsHomogeneous (group_findings fs)
unfolding group_findings
group_findings-IsHomogeneous fs =
    sort_groups-All IsHomogeneous (map to_group (fill_buckets [] fs))
      (map-to_group-All (fill_buckets [] fs) (fill_buckets-IsPure [] fs tt))

-- The order of two groups side by side: blocking before advisory, then by falling consensus.
abbrev pub Ranked : FindingGroup → FindingGroup → Type 0
Ranked g h =
    ((severity_is_blocking g.severity ≡ true) × (severity_is_blocking h.severity ≡ false))
    ⊎ ((severity_is_blocking g.severity ≡ severity_is_blocking h.severity)
        × (h.consensus ≤ g.consensus))

abbrev pub IsRanked : List FindingGroup → Type 0
IsRanked [] = Unit
IsRanked (g ∷ []) = Unit
IsRanked (g ∷ (h ∷ hs)) = Ranked g h × IsRanked (h ∷ hs)

Ranked-of_cmp : (g h : FindingGroup) → group_cmp g h ≢ Ordering.gt → Ranked g h
unfolding group_cmp
Ranked-of_cmp g h n = ground arith

Ranked-of_gt : (g h : FindingGroup) → group_cmp g h ≡ Ordering.gt → Ranked h g
Ranked-of_gt g h e = Ranked-of_cmp h g (λ k. ground (arith, group_cmp-flip g h))

tail_IsRanked : (h : FindingGroup) (hs : List FindingGroup) → IsRanked (h ∷ hs) → IsRanked hs
tail_IsRanked h [] v = tt
tail_IsRanked h (k ∷ ks) v = v.1

insert_behind :
    (g a : FindingGroup) (hs : List FindingGroup)
    → Ranked a g
    → IsRanked (a ∷ hs)
    → IsRanked (insert_group g hs)
    → IsRanked (a ∷ insert_group g hs)
unfolding insert_group
insert_behind g a [] r v w = (r, tt)
insert_behind g a (h ∷ hs) r v w =
    insert_cases (λ gs. IsRanked gs → IsRanked (a ∷ gs)) g h hs (λ _ u. (r, u)) (λ _ u. (v.0, u)) w

insert_group-IsRanked :
    (g : FindingGroup) (hs : List FindingGroup) → IsRanked hs → IsRanked (insert_group g hs)
unfolding insert_group
insert_group-IsRanked g [] v = tt
insert_group-IsRanked g (h ∷ hs) v =
    insert_cases IsRanked g h hs (λ n. (Ranked-of_cmp g h n, v))
      (λ e.
        insert_behind g h hs (Ranked-of_gt g h e) v
          (insert_group-IsRanked g hs (tail_IsRanked h hs v)))

sort_groups-IsRanked : (gs : List FindingGroup) → IsRanked (sort_groups gs)
unfolding sort_groups
sort_groups-IsRanked [] = tt
sort_groups-IsRanked (g ∷ gs) = insert_group-IsRanked g (sort_groups gs) (sort_groups-IsRanked gs)

-- The groups come with the blocking ones first, and within each kind by falling consensus.
pub group_findings-IsRanked : (fs : List Finding) → IsRanked (group_findings fs)
unfolding group_findings
group_findings-IsRanked fs = sort_groups-IsRanked (map to_group (fill_buckets [] fs))
