-- ===== src/Run/Disposition/Acceptance.antt =====
-- disposition.rs: the gate passes exactly the answers that are complete.
use agentchat.Prelude.{
  ◌≡◌, refl, sym, ◌∙◌, subst, Bool, true, false, ◌&&◌, List, contains, Memᴰ, filter, map, is_empty,
  list_eq, nat_eq, arith, ◌==◌, ==_iff, ==_refl, Bool-cases, inl, inr, ◌↔◌, ◌⊎◌, mem→any, any→mem,
  mem→contains, contains→mem, mem-map, mem-map_inv, mem-filter_of, mem-filter,
}
use agentchat.Text.{Text, trim}
use agentchat.Protocol.Run.{
  Finding, is_blocking, Disposition, accepted, disputed, declined, action_eqb,
}
use agentchat.Run.Findings.{id_of, blocking_ids}
use agentchat.Run.Disposition.{
  GateRejection, pass, has_no_reason, gate_rejection, evaluate_gate, rejection_is_empty,
}
use agentchat.Run.Disposition.Fields.{is_empty_iff}
use agentchat.Run.Disposition.Gate.{some_answer, Reported, gate_rejection-Reports}

-- The author has answered the round: every answer is to a finding of the round, every blocking
-- finding has an answer, and no answer to a blocking finding is a refusal without an argument.
pub record IsComplete (fs : List Finding) (ds : List Disposition) : Type 0 where
  pub to_the_round :
      (d : Disposition) → Memᴰ d ds → (f : Finding) × Memᴰ f fs × (f.finding_id ≡ d.finding_id)
  pub answered :
      (f : Finding)
      → Memᴰ f fs
      → is_blocking f ≡ true
      → (d : Disposition) × Memᴰ d ds × (d.finding_id ≡ f.finding_id)
  pub argued :
      (f : Finding) (d : Disposition)
      → Memᴰ f fs
      → is_blocking f ≡ true
      → Memᴰ d ds
      → d.finding_id ≡ f.finding_id
      → (d.action ≡ accepted) ⊎ ((d.action ≡ disputed) × (is_empty (trim d.reason) ≡ false))

-- The rejection is empty.
record IsClean (r : GateRejection) : Type 0 where
  missing : (k : Text) → contains r.missing k ≡ false
  unknown : (k : Text) → contains r.unknown_finding_ids k ≡ false
  unargued : (k : Text) → contains r.disputed_without_reason k ≡ false
  declines : (k : Text) → contains r.declined_blocking k ≡ false

IsClean-of_pass :
    (fs : List Finding) (ds : List Disposition)
    → evaluate_gate fs ds ≡ pass
    → IsClean (gate_rejection fs ds)
unfolding evaluate_gate rejection_is_empty
IsClean-of_pass fs ds h =
    let r = gate_rejection fs ds in
    let e : (is_empty r.missing ≡ true)
        × (is_empty r.disputed_without_reason ≡ true)
        × (is_empty r.declined_blocking ≡ true)
        × (is_empty r.unknown_finding_ids ≡ true) =
      ground arith in
    record {
      missing = (is_empty_iff r.missing).0 e.0;
      unargued = (is_empty_iff r.disputed_without_reason).0 e.1;
      declines = (is_empty_iff r.declined_blocking).0 e.2;
      unknown = (is_empty_iff r.unknown_finding_ids).0 e.3;
    }

pass_of_IsClean :
    (fs : List Finding) (ds : List Disposition)
    → IsClean (gate_rejection fs ds)
    → evaluate_gate fs ds ≡ pass
unfolding evaluate_gate rejection_is_empty
pass_of_IsClean fs ds c =
    let r = gate_rejection fs ds in
    let m = (is_empty_iff r.missing).1 c.missing in
    let u = (is_empty_iff r.disputed_without_reason).1 c.unargued in
    let d = (is_empty_iff r.declined_blocking).1 c.declines in
    let n = (is_empty_iff r.unknown_finding_ids).1 c.unknown in ground arith

mem-blocking_ids :
    {fs : List Finding} {f : Finding}
    → Memᴰ f fs
    → is_blocking f ≡ true
    → contains (blocking_ids fs) f.finding_id ≡ true
mem-blocking_ids m b = mem→contains (mem-map id_of (mem-filter_of is_blocking m b))

blocking_ids-mem :
    (fs : List Finding) (k : Text)
    → contains (blocking_ids fs) k ≡ true
    → (f : Finding) × Memᴰ f fs × (is_blocking f ≡ true) × (k ≡ f.finding_id)
blocking_ids-mem fs k h =
    let (f, m, e) =
      mem-map_inv id_of (filter is_blocking fs) (contains→mem (blocking_ids fs) k h) in
    let (n, b) = mem-filter is_blocking fs m in (f, n, b, e)

some_answer_of :
    (p : Disposition → Bool) {d : Disposition} {ds : List Disposition}
    → Memᴰ d ds
    → p d ≡ true
    → some_answer p d.finding_id ds ≡ true
some_answer_of p {d} m h =
    mem→any (λ e. e.finding_id == d.finding_id && p e) m (ground (arith, ==_refl d.finding_id))

answer_of_some :
    (p : Disposition → Bool) (k : Text) (ds : List Disposition)
    → some_answer p k ds ≡ true
    → (d : Disposition) × Memᴰ d ds × (d.finding_id ≡ k) × (p d ≡ true)
answer_of_some p k ds h =
    let (d, m, e) = any→mem (λ e. e.finding_id == k && p e) ds h in
    (d, m, ground (arith, ==_iff d.finding_id k), ground arith)

argued_action :
    (d : Disposition)
    → (action_eqb d.action disputed && has_no_reason d) ≡ false
    → action_eqb d.action declined ≡ false
    → (d.action ≡ accepted) ⊎ ((d.action ≡ disputed) × (is_empty (trim d.reason) ≡ false))
argued_action d h k = ground arith

not_some :
    (p : Disposition → Bool) {d : Disposition} {ds : List Disposition}
    → Memᴰ d ds
    → some_answer p d.finding_id ds ≡ false
    → p d ≡ false
not_some p {d} m h = elim (Bool-cases (p d)) [
  | inl e ↦ ground (arith, some_answer_of p m e)
  | inr e ↦ e
]

false_of : {b : Bool} → ¬ (b ≡ true) → b ≡ false
false_of {b} h = elim (Bool-cases b) [ inl e ↦ absurd (h e) | inr e ↦ e ]

module _ (fs : List Finding) (ds : List Disposition) where
  reported : (k : Text) → Reported fs ds k (gate_rejection fs ds)
  reported k = gate_rejection-Reports fs ds k

  IsComplete-of_IsClean : IsClean (gate_rejection fs ds) → IsComplete fs ds
  IsComplete-of_IsClean c = record {
    to_the_round = λ d m.
        let k : contains (map id_of fs) d.finding_id ≡ true = ground (
          arith,
          c.unknown d.finding_id,
          (reported d.finding_id).unknown,
          some_answer_of (λ _. true) m,
        ) in
        let (f, n, e) = mem-map_inv id_of fs (contains→mem (map id_of fs) d.finding_id k) in
        (f, n, sym e);
    answered = λ f m b.
        let k : some_answer (λ _. true) f.finding_id ds ≡ true =
          ground (
            arith,
            c.missing f.finding_id,
            (reported f.finding_id).missing,
            mem-blocking_ids m b,
          ) in
        let (d, n, e, _) = answer_of_some (λ _. true) f.finding_id ds k in (d, n, e);
    argued = λ f d m b n e.
        let k : contains (blocking_ids fs) d.finding_id ≡ true = rw e (mem-blocking_ids m b) in
        let r = reported d.finding_id in
        argued_action d
          (not_some (λ a. action_eqb a.action disputed && has_no_reason a) n
            (ground (arith, r.unargued, c.unargued d.finding_id)))
          (not_some (λ a. action_eqb a.action declined) n
            (ground (arith, r.declines, c.declines d.finding_id)));
  }

  module _ (v : IsComplete fs ds) (k : Text) where
    answered_id : contains (blocking_ids fs) k ≡ true → some_answer (λ _. true) k ds ≡ true
    answered_id h =
        let (f, m, b, e) = blocking_ids-mem fs k h in
        let (d, n, e') = v.answered f m b in
        subst (λ j. some_answer (λ _. true) j ds ≡ true) (e' ∙ sym e)
          (some_answer_of (λ _. true) n refl)

    known_id : some_answer (λ _. true) k ds ≡ true → contains (map id_of fs) k ≡ true
    known_id h =
        let (d, n, e, _) = answer_of_some (λ _. true) k ds h in
        let (f, m, e') = v.to_the_round d n in
        subst (λ j. contains (map id_of fs) j ≡ true) (e' ∙ e) (mem→contains (mem-map id_of m))

    argued_id :
        contains (blocking_ids fs) k ≡ true
        → (p : Disposition → Bool) → some_answer p k ds ≡ true
        → (d : Disposition) × (p d ≡ true)
          × ((d.action ≡ accepted) ⊎ ((d.action ≡ disputed) × (is_empty (trim d.reason) ≡ false)))
    argued_id h p a =
        let (f, m, b, e) = blocking_ids-mem fs k h in
        let (d, n, e', q) = answer_of_some p k ds a in (d, q, v.argued f d m b n (e' ∙ e))

    no_unargued :
        contains (blocking_ids fs) k ≡ true
        → ¬ (some_answer (λ d. action_eqb d.action disputed && has_no_reason d) k ds ≡ true)
    no_unargued h a = let (d, q, w) = argued_id h _ a in ground arith

    no_declines :
        contains (blocking_ids fs) k ≡ true
        → ¬ (some_answer (λ d. action_eqb d.action declined) k ds ≡ true)
    no_declines h a = let (d, q, w) = argued_id h _ a in ground arith

  IsClean-of_IsComplete : IsComplete fs ds → IsClean (gate_rejection fs ds)
  IsClean-of_IsComplete v = record {
    missing = λ k. false_of (λ h. ground (arith, (reported k).missing, answered_id v k));
    unknown = λ k. false_of (λ h. ground (arith, (reported k).unknown, known_id v k));
    unargued = λ k. false_of (λ h.
        no_unargued v k (ground (arith, (reported k).unargued))
          (ground (arith, (reported k).unargued)));
    declines = λ k. false_of (λ h.
        no_declines v k (ground (arith, (reported k).declines))
          (ground (arith, (reported k).declines)));
  }

  -- The gate passes exactly the complete answers: those that name findings of the round only, leave no
  -- blocking finding without an answer, and neither decline one nor dispute it without a reason.
  pub evaluate_gate-pass_iff : (evaluate_gate fs ds ≡ pass) ↔ IsComplete fs ds
  evaluate_gate-pass_iff = (
    (λ h. IsComplete-of_IsClean (IsClean-of_pass fs ds h)),
    (λ v. pass_of_IsClean fs ds (IsClean-of_IsComplete v)),
  )
