-- ===== src/Run/Disposition/Fields.antt =====
-- disposition.rs: what each list of a rejection holds.
use agentchat.Prelude.{
  ◌≡◌, refl, Bool, true, false, not, ◌&&◌, ◌||◌, List, [], ◌∷◌, ◌++◌, contains, contains-append,
  any, Distinct, map, is_empty, list_eq, nat_eq, arith, ◌==◌, ==_iff, Bool-cases, inl, inr,
  if◌then◌else◌, ◌↔◌,
}
use agentchat.Text.{Text}
use agentchat.Protocol.Run.{Finding, Disposition, disputed, declined, action_eqb}
use agentchat.Run.Findings.{id_of}
use agentchat.Run.Disposition.{
  GateState, push_once, has_no_reason, judge, check, check_all, add_missing,
}

pub contains-push_once :
    (target : List Text) (id k : Text)
    → contains (push_once target id) k ≡ (contains target k || id == k)
unfolding push_once
contains-push_once target id k = ground (arith, contains-append target (id ∷ []) k, ==_iff id k)

Distinct-snoc :
    (xs : List Text) (k : Text) → Distinct xs → contains xs k ≡ false → Distinct (xs ++ k ∷ [])
unfolding contains
Distinct-snoc [] k d h = (refl, tt)
Distinct-snoc (x ∷ xs) k d h = (
  ground (arith, contains-append xs (k ∷ []) x, ==_iff x k, ==_iff k x),
  Distinct-snoc xs k d.1 (ground arith),
)

pub push_once-Distinct :
    (target : List Text) (id : Text) → Distinct target → Distinct (push_once target id)
unfolding push_once
push_once-Distinct target id d = elim (Bool-cases (contains target id)) [
  | inl h ↦ rw h d
  | inr h ↦ rw h (Distinct-snoc target id d h)
]

module _ (known required : List Text) where
  -- The dispositions that each list records.
  abbrev pub is_unknown : Disposition → Bool
  is_unknown d = not (contains known d.finding_id)

  abbrev pub is_answer : Disposition → Bool
  is_answer d = contains known d.finding_id && contains required d.finding_id

  abbrev pub is_unargued : Disposition → Bool
  is_unargued d = is_answer d && (action_eqb d.action disputed && has_no_reason d)

  abbrev pub is_declined : Disposition → Bool
  is_declined d = is_answer d && action_eqb d.action declined

  abbrev pub names : (Disposition → Bool) → Text → List Disposition → Bool
  names p k = any (λ d. d.finding_id == k && p d)

  pub record Reads (k : Text) (s t : GateState) (p : (Disposition → Bool) → Bool) : Type 0 where
    pub unknown :
        contains t.rejection.unknown_finding_ids k
        ≡ (contains s.rejection.unknown_finding_ids k || p is_unknown)
    pub unargued :
        contains t.rejection.disputed_without_reason k
        ≡ (contains s.rejection.disputed_without_reason k || p is_unargued)
    pub declines :
        contains t.rejection.declined_blocking k
        ≡ (contains s.rejection.declined_blocking k || p is_declined)
    pub answers : contains t.answered k ≡ (contains s.answered k || p is_answer)

  check-Reads :
      (d : Disposition) (s : GateState) (k : Text)
      → Reads k s (check known required d s) (λ q. d.finding_id == k && q d)
  unfolding check judge contains
  check-Reads d s k = ground (
    arith,
    contains-push_once s.rejection.unknown_finding_ids d.finding_id k,
    contains-push_once s.rejection.disputed_without_reason d.finding_id k,
    contains-push_once s.rejection.declined_blocking d.finding_id k,
  )

  -- Each list holds what it held before, and the ids of the dispositions that belong to it.
  pub check_all-Reads :
      (ds : List Disposition) (s : GateState) (k : Text)
      → Reads k s (check_all known required ds s) (λ q. names q k ds)
  unfolding check_all
  check_all-Reads [] s k = ground arith
  check_all-Reads (d ∷ ds) s k =
      let first = check-Reads d s k in
      let rest = check_all-Reads ds (check known required d s) k in
      record {
        unknown = ground (arith, first.unknown, rest.unknown);
        unargued = ground (arith, first.unargued, rest.unargued);
        declines = ground (arith, first.declines, rest.declines);
        answers = ground (arith, first.answers, rest.answers);
      }

  -- No list names an id twice, and the loop leaves `missing` alone.
  pub record IsTidy (s : GateState) : Type 0 where
    pub none_missing : s.rejection.missing ≡ []
    pub unknown_once : Distinct s.rejection.unknown_finding_ids
    pub unargued_once : Distinct s.rejection.disputed_without_reason
    pub declined_once : Distinct s.rejection.declined_blocking

  check-IsTidy : (d : Disposition) (s : GateState) → IsTidy s → IsTidy (check known required d s)
  unfolding check judge
  check-IsTidy d s t = ground (
    arith,
    push_once-Distinct s.rejection.unknown_finding_ids d.finding_id,
    push_once-Distinct s.rejection.disputed_without_reason d.finding_id,
    push_once-Distinct s.rejection.declined_blocking d.finding_id,
  )

  pub check_all-IsTidy :
      (ds : List Disposition) (s : GateState) → IsTidy s → IsTidy (check_all known required ds s)
  unfolding check_all
  check_all-IsTidy [] s t = t
  check_all-IsTidy (d ∷ ds) s t =
      check_all-IsTidy ds (check known required d s) (check-IsTidy d s t)

-- The ids of the findings that nobody answered.
pub contains-add_missing :
    (fs : List Finding) (answered missing : List Text) (k : Text)
    → contains (add_missing fs answered missing) k
      ≡ (contains missing k || (contains (map id_of fs) k && not (contains answered k)))
unfolding add_missing contains
contains-add_missing [] answered missing k = ground arith
contains-add_missing (f ∷ fs) answered missing k = ground (
  arith,
  ==_iff f.finding_id k,
  contains-push_once missing f.finding_id k,
  contains-add_missing fs answered
      (if contains answered f.finding_id then missing else push_once missing f.finding_id) k,
)

pub add_missing-Distinct :
    (fs : List Finding) (answered missing : List Text)
    → Distinct missing
    → Distinct (add_missing fs answered missing)
unfolding add_missing
add_missing-Distinct [] answered missing d = d
add_missing-Distinct (f ∷ fs) answered missing d =
    add_missing-Distinct fs answered _ (elim (Bool-cases (contains answered f.finding_id)) [
      | inl h ↦ rw h d
      | inr h ↦ rw h (push_once-Distinct missing f.finding_id d)
    ])

-- A list is empty exactly when it holds nothing.
pub is_empty_iff : (xs : List Text) → (is_empty xs ≡ true) ↔ ((k : Text) → contains xs k ≡ false)
unfolding contains
is_empty_iff [] = (λ _ k. refl, λ _. refl)
is_empty_iff (x ∷ xs) = (λ h. cc, λ h. ground (arith, h x, ==_iff x x))
