-- ===== src/Run/Findings/Group.antt =====
-- findings.rs: findings grouped by file and category, in a deterministic order. The `BTreeMap` is a
-- list of buckets in the order of their keys; a bucket is never empty, and keeps its first finding
-- apart, as `findings[0]` reads it.
use Prim.Native.Nat.{compare, Ordering}
use agentchat.Prelude.{
  ℕ, Bool, true, false, List, [], ◌∷◌, ◌++◌, map, unique_from, length, list_eq, nat_eq,
}
use agentchat.Text.{Text}
use agentchat.Protocol.Run.{Finding, FindingGroup, severity_is_blocking, is_blocking, category_str}

-- `Ordering::then`.
abbrev pub then_by : Ordering → Ordering → Ordering
then_by Ordering.eq o = o
then_by Ordering.lt o = Ordering.lt
then_by Ordering.gt o = Ordering.gt

-- `Ord for bool`, with false first.
abbrev pub bool_cmp : Bool → Bool → Ordering
bool_cmp false true = Ordering.lt
bool_cmp true false = Ordering.gt
bool_cmp false false = Ordering.eq
bool_cmp true true = Ordering.eq

-- `Ord for str`: bytes in order, which UTF-8 makes the order of the code points.
unfoldable pub text_cmp : Text → Text → Ordering
text_cmp [] [] = Ordering.eq
text_cmp [] (y ∷ ys) = Ordering.lt
text_cmp (x ∷ xs) [] = Ordering.gt
text_cmp (x ∷ xs) (y ∷ ys) = then_by (compare x y) (text_cmp xs ys)

abbrev pub GroupKey : Type 0
GroupKey = Text × Bool × Text

unfoldable pub group_key : Finding → GroupKey
group_key f = (f.file, is_blocking f, category_str f.severity)

unfoldable pub key_cmp : GroupKey → GroupKey → Ordering
unfolding text_cmp
key_cmp (f, b, c) (g, d, e) = then_by (text_cmp f g) (then_by (bool_cmp b d) (text_cmp c e))

pub record Bucket : Type 0 where
  pub key : GroupKey
  pub first : Finding
  pub rest : List Finding

abbrev pub bucket_findings : Bucket → List Finding
bucket_findings b = b.first ∷ b.rest

-- `entry(key).or_default().push(finding)`.
unfoldable pub push_finding : Finding → List Bucket → List Bucket
push_finding f [] = record { key = group_key f; first = f; rest = [] } ∷ []
push_finding f (b ∷ bs) = elim (key_cmp (group_key f) b.key) [
  | Ordering.lt ↦ record { key = group_key f; first = f; rest = [] } ∷ (b ∷ bs)
  | Ordering.eq ↦ record b { rest = b.rest ++ f ∷ [] } ∷ bs
  | Ordering.gt ↦ b ∷ push_finding f bs
]

-- The loop over the findings.
unfoldable pub fill_buckets : List Bucket → List Finding → List Bucket
unfolding push_finding
fill_buckets bs [] = bs
fill_buckets bs (f ∷ fs) = fill_buckets (push_finding f bs) fs

abbrev pub reviewer_of : Finding → Text
reviewer_of f = f.reviewer

-- The size of the set of reviewers.
unfoldable pub consensus_of : List Finding → ℕ
unfolding unique_from
consensus_of fs = length (unique_from reviewer_of [] fs)

unfoldable pub to_group : Bucket → FindingGroup
unfolding consensus_of
to_group b = record {
  file = b.first.file;
  severity = b.first.severity;
  consensus = consensus_of (bucket_findings b);
  findings = bucket_findings b;
}

-- The comparison of `sort_by`.
unfoldable pub group_cmp : FindingGroup → FindingGroup → Ordering
unfolding text_cmp
group_cmp a b =
    then_by (bool_cmp (severity_is_blocking b.severity) (severity_is_blocking a.severity)) (
      then_by (compare b.consensus a.consensus) (
        then_by (text_cmp a.file b.file)
          (text_cmp (category_str a.severity) (category_str b.severity))))

-- `slice::sort_by` is stable: an element goes before the first one that is not smaller.
unfoldable pub insert_group : FindingGroup → List FindingGroup → List FindingGroup
insert_group g [] = g ∷ []
insert_group g (h ∷ hs) = elim (group_cmp g h) [
  | Ordering.gt ↦ h ∷ insert_group g hs
  | _ ↦ g ∷ (h ∷ hs)
]

unfoldable pub sort_groups : List FindingGroup → List FindingGroup
unfolding insert_group
sort_groups [] = []
sort_groups (g ∷ gs) = insert_group g (sort_groups gs)

unfoldable pub group_findings : List Finding → List FindingGroup
unfolding fill_buckets to_group sort_groups
group_findings fs = sort_groups (map to_group (fill_buckets [] fs))
