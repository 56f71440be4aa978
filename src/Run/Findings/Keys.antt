-- ===== src/Run/Findings/Keys.antt =====
-- findings.rs: no two groups share a file and category.
use Prim.Native.Nat.{Ordering}
use agentchat.Prelude.{◌≡◌, ◌≢◌, sym, ap, ◌∙◌, List, [], ◌∷◌, map, All, arith}
use agentchat.Protocol.Run.{Finding, FindingGroup}
use agentchat.Run.Findings.Group.{
  GroupKey, group_key, key_cmp, Bucket, push_finding, fill_buckets, to_group, insert_group,
  sort_groups, group_findings,
}
use agentchat.Run.Findings.Grouping.{push_cases, insert_cases}
use agentchat.Run.Findings.Order.{key_cmp_refl, key_cmp-flip, key_cmp_trans, flip}
use agentchat.Run.Findings.Ranking.{
  IsPure, fill_buckets-IsPure, key_of_group, insert_group-All, sort_groups-All,
}

-- All later buckets have greater keys.
abbrev Above : GroupKey → List Bucket → Type 0
Above k bs = All (λ b. key_cmp k b.key ≡ Ordering.lt) bs

abbrev IsAscending : List Bucket → Type 0
IsAscending [] = Unit
IsAscending (b ∷ bs) = Above b.key bs × IsAscending bs

Above-mono :
    (j k : GroupKey) (bs : List Bucket) → key_cmp j k ≡ Ordering.lt → Above k bs → Above j bs
Above-mono j k [] h v = tt
Above-mono j k (b ∷ bs) h v = (key_cmp_trans j k b.key h v.0, Above-mono j k bs h v.1)

push_finding-Above :
    (k : GroupKey) (f : Finding) (bs : List Bucket)
    → key_cmp k (group_key f) ≡ Ordering.lt
    → Above k bs
    → Above k (push_finding f bs)
unfolding push_finding
push_finding-Above k f [] h v = (h, tt)
push_finding-Above k f (b ∷ bs) h v =
    push_cases (Above k) f b bs (λ _. (h, v)) (λ _. v) (λ _. (v.0, push_finding-Above k f bs h v.1))

push_finding-IsAscending :
    (f : Finding) (bs : List Bucket) → IsAscending bs → IsAscending (push_finding f bs)
unfolding push_finding
push_finding-IsAscending f [] v = (tt, tt)
push_finding-IsAscending f (b ∷ bs) v =
    push_cases IsAscending f b bs (λ e. ((e, Above-mono (group_key f) b.key bs e v.0), v)) (λ _. v)
      (λ e. (
        push_finding-Above b.key f bs (key_cmp-flip (group_key f) b.key ∙ ap flip e) v.0,
        push_finding-IsAscending f bs v.1,
      ))

fill_buckets-IsAscending :
    (bs : List Bucket) (fs : List Finding) → IsAscending bs → IsAscending (fill_buckets bs fs)
unfolding fill_buckets
fill_buckets-IsAscending bs [] v = v
fill_buckets-IsAscending bs (f ∷ fs) v =
    fill_buckets-IsAscending (push_finding f bs) fs (push_finding-IsAscending f bs v)

-- No two groups have the same key.
abbrev pub KeysDiffer : List FindingGroup → Type 0
KeysDiffer [] = Unit
KeysDiffer (g ∷ gs) = All (λ h. key_of_group g ≢ key_of_group h) gs × KeysDiffer gs

key-to_group : (b : Bucket) → IsPure b → key_of_group (to_group b) ≡ b.key
unfolding to_group group_key
key-to_group b v = v.0

lt_ne : (j k : GroupKey) → key_cmp j k ≡ Ordering.lt → j ≢ k
lt_ne j k h e = ground (arith, key_cmp_refl j, ap (key_cmp j) e)

Above-differ :
    (b : Bucket) (bs : List Bucket)
    → IsPure b
    → All IsPure bs
    → Above b.key bs
    → All (λ h. key_of_group (to_group b) ≢ key_of_group h) (map to_group bs)
Above-differ b [] p v a = tt
Above-differ b (c ∷ cs) p v a = (
  (λ e. lt_ne b.key c.key a.0 (sym (key-to_group b p) ∙ e ∙ key-to_group c v.0)),
  Above-differ b cs p v.1 a.1,
)

map-to_group-KeysDiffer :
    (bs : List Bucket) → All IsPure bs → IsAscending bs → KeysDiffer (map to_group bs)
map-to_group-KeysDiffer [] v a = tt
map-to_group-KeysDiffer (b ∷ bs) v a =
    (Above-differ b bs v.0 v.1 a.0, map-to_group-KeysDiffer bs v.1 a.1)

insert_group-KeysDiffer :
    (g : FindingGroup) (hs : List FindingGroup)
    → All (λ h. key_of_group g ≢ key_of_group h) hs
    → KeysDiffer hs
    → KeysDiffer (insert_group g hs)
unfolding insert_group
insert_group-KeysDiffer g [] n v = (tt, tt)
insert_group-KeysDiffer g (h ∷ hs) n v =
    insert_cases KeysDiffer g h hs (λ _. (n, v))
      (λ _. (
        insert_group-All (λ k. key_of_group h ≢ key_of_group k) g hs (λ e. n.0 (sym e)) v.0,
        insert_group-KeysDiffer g hs n.1 v.1,
      ))

sort_groups-KeysDiffer : (gs : List FindingGroup) → KeysDiffer gs → KeysDiffer (sort_groups gs)
unfolding sort_groups
sort_groups-KeysDiffer [] v = tt
sort_groups-KeysDiffer (g ∷ gs) v =
    insert_group-KeysDiffer g (sort_groups gs)
      (sort_groups-All (λ h. key_of_group g ≢ key_of_group h) gs v.0)
      (sort_groups-KeysDiffer gs v.1)

-- No two groups share file, severity and category: findings that agree on these stand in one group.
pub group_findings-KeysDiffer : (fs : List Finding) → KeysDiffer (group_findings fs)
unfolding group_findings
group_findings-KeysDiffer fs = sort_groups-KeysDiffer (map to_group (fill_buckets [] fs)) (
    map-to_group-KeysDiffer (fill_buckets [] fs) (fill_buckets-IsPure [] fs tt)
      (fill_buckets-IsAscending [] fs tt))
