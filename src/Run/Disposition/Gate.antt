-- ===== src/Run/Disposition/Gate.antt =====
-- disposition.rs: when the gate passes, and what it reports when it does not.
use agentchat.Prelude.{
  ◌≡◌, refl, ap, ◌∙◌, Bool, true, not, ◌&&◌, List, [], ◌∷◌, contains, any, Distinct, map, list_eq,
  nat_eq, arith, ◌==◌, ==_iff, Bool-cases, inl, inr,
}
use agentchat.Text.{Text}
use agentchat.Protocol.Run.{Finding, Disposition, disputed, declined, action_eqb}
use agentchat.Run.Findings.{id_of, blocking_ids, blocking_findings}
use agentchat.Run.Findings.Rounds.{blocking_findings-ids}
use agentchat.Run.Disposition.{
  GateRejection, GateState, no_rejection, add_missing, has_no_reason, check_all, gate_rejection,
}
use agentchat.Run.Disposition.Fields.{
  contains-add_missing, add_missing-Distinct, check_all-IsTidy, check_all-Reads, Reads, names,
  is_unknown, is_answer, IsTidy,
}

-- Some disposition with this id has the property.
abbrev pub some_answer : (Disposition → Bool) → Text → List Disposition → Bool
some_answer p k = any (λ d. d.finding_id == k && p d)

any_guard :
    (g : Text → Bool) (h : Disposition → Bool) (k : Text) (ds : List Disposition)
    → any (λ d. d.finding_id == k && (g d.finding_id && h d)) ds ≡ (g k && some_answer h k ds)
any_guard g h k [] = ground arith
any_guard g h k (d ∷ ds) = elim (Bool-cases (d.finding_id == k)) [
  | inl e ↦ let e' = ap g ((==_iff d.finding_id k).0 e) in ground (arith, any_guard g h k ds)
  | inr e ↦ ground (arith, any_guard g h k ds)
]

blocking-known :
    (fs : List Finding) (k : Text)
    → contains (blocking_ids fs) k ≡ true
    → contains (map id_of fs) k ≡ true
unfolding contains
blocking-known [] k h = h
blocking-known (f ∷ fs) k h = ground (arith, blocking-known fs k)

-- What each list of a rejection holds, in terms of the round and the answers.
pub record Reported (fs : List Finding) (ds : List Disposition) (k : Text) (r : GateRejection)
    : Type 0 where
  pub missing :
      contains r.missing k ≡ (contains (blocking_ids fs) k && not (some_answer (λ d. true) k ds))
  pub unknown :
      contains r.unknown_finding_ids k
      ≡ (not (contains (map id_of fs) k) && some_answer (λ d. true) k ds)
  pub unargued : contains r.disputed_without_reason k ≡ (
      contains (blocking_ids fs) k
      && some_answer (λ d. action_eqb d.action disputed && has_no_reason d) k ds)
  pub declines :
      contains r.declined_blocking k
      ≡ (contains (blocking_ids fs) k && some_answer (λ d. action_eqb d.action declined) k ds)

any-eq :
    (p q : Disposition → Bool) (ds : List Disposition)
    → ((d : Disposition) → p d ≡ q d)
    → any p ds ≡ any q ds
any-eq p q [] h = refl
any-eq p q (d ∷ ds) h = ground (arith, h d, any-eq p q ds h)

-- The sets and the starting state of `evaluate_gate`.
module _ (fs : List Finding) (ds : List Disposition) (k : Text) where
  known : List Text
  known = map id_of fs

  required : List Text
  required = map id_of (blocking_findings fs)

  abbrev start : GateState
  start = record { rejection = no_rejection; answered = [] }

  required-blocking : (j : Text) → contains required j ≡ contains (blocking_ids fs) j
  unfolding required
  required-blocking j = (blocking_findings-ids fs).0 j

  answers_guard :
      (h : Disposition → Bool)
      → names known required (λ d. is_answer known required d && h d) k ds
        ≡ (contains (blocking_ids fs) k && some_answer h k ds)
  unfolding known
  answers_guard h =
      any-eq _ (λ d. d.finding_id == k && (contains (blocking_ids fs) d.finding_id && h d)) ds
        (λ d. ground (arith, required-blocking d.finding_id, blocking-known fs d.finding_id))
      ∙ any_guard (contains (blocking_ids fs)) h k ds

  answers_all :
      names known required (is_answer known required) k ds
      ≡ (contains (blocking_ids fs) k && some_answer (λ d. true) k ds)
  answers_all = any-eq _ _ ds (λ d. ground arith) ∙ answers_guard (λ d. true)

  unknown_all :
      names known required (is_unknown known required) k ds
      ≡ (not (contains (map id_of fs) k) && some_answer (λ d. true) k ds)
  unfolding known
  unknown_all =
      any-eq _ (λ d. d.finding_id == k && (not (contains (map id_of fs) d.finding_id) && true)) ds
        (λ d. ground arith)
      ∙ any_guard (λ j. not (contains (map id_of fs) j)) (λ d. true) k ds

  start-IsTidy : IsTidy known required start
  start-IsTidy = record {
    none_missing = refl;
    unknown_once = tt;
    unargued_once = tt;
    declined_once = tt;
  }

  gate_state : GateState
  gate_state = check_all known required ds start

  gate_state-Reads : Reads known required k start gate_state (λ q. names known required q k ds)
  unfolding gate_state
  gate_state-Reads = check_all-Reads known required ds start k

  gate_state-IsTidy : IsTidy known required gate_state
  unfolding gate_state
  gate_state-IsTidy = check_all-IsTidy known required ds start start-IsTidy

  missing_all :
      contains
        (add_missing (blocking_findings fs) gate_state.answered gate_state.rejection.missing)
        k
      ≡ (contains (blocking_ids fs) k && not (some_answer (λ d. true) k ds))
  unfolding contains required
  missing_all =
      contains-add_missing (blocking_findings fs) gate_state.answered gate_state.rejection.missing k
      ∙ rw gate_state-IsTidy.none_missing
          (ground (arith, gate_state-Reads.answers, answers_all, required-blocking k))

  -- A rejection reports exactly what is owed: the blocking ids that no disposition names, the ids of
  -- no finding of the round, and the blocking ids disputed without a reason or declined.
  pub gate_rejection-Reports : Reported fs ds k (gate_rejection fs ds)
  unfolding gate_rejection gate_state known required contains
  gate_rejection-Reports = record {
    missing = missing_all;
    unknown = gate_state-Reads.unknown ∙ unknown_all;
    unargued = gate_state-Reads.unargued ∙ answers_guard _;
    declines = gate_state-Reads.declines ∙ answers_guard _;
  }

  -- None of the four lists of a rejection names an id twice.
  pub gate_rejection-Distinct :
      let r = gate_rejection fs ds in
      Distinct r.missing
      × Distinct r.unknown_finding_ids
      × Distinct r.disputed_without_reason
      × Distinct r.declined_blocking
  unfolding gate_rejection gate_state known required
  gate_rejection-Distinct = (
    add_missing-Distinct (blocking_findings fs) gate_state.answered gate_state.rejection.missing
        (rw gate_state-IsTidy.none_missing tt),
    gate_state-IsTidy.unknown_once,
    gate_state-IsTidy.unargued_once,
    gate_state-IsTidy.declined_once,
  )
