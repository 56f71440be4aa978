-- ===== src/Run/Disposition.antt =====
-- daemon/core/src/run/disposition.rs: the gate that the author's answers must pass.
pub mod Fields
pub mod Gate
pub mod Acceptance
pub mod Carried
mod Samples
use agentchat.Prelude.{
  Bool, true, false, not, ◌&&◌, List, [], ◌∷◌, ◌++◌, Option, none, some, if◌then◌else◌, contains,
  map, filter, is_empty, list_eq, nat_eq,
}
use agentchat.Text.{Text, trim}
use agentchat.Protocol.Run.{
  Finding, is_blocking, Disposition, DispositionAction, accepted, disputed, declined, action_eqb,
}
use agentchat.Run.Findings.{id_of, blocking_findings}

pub record GateRejection : Type 0 where
  pub missing : List Text
  pub disputed_without_reason : List Text
  pub declined_blocking : List Text
  pub unknown_finding_ids : List Text

pub data GateResult : Type 0 where
  pass : GateResult
  reject : GateRejection → GateResult

abbrev pub is_pass : GateResult → Bool
is_pass pass = true
is_pass (reject _) = false

abbrev pub no_rejection : GateRejection
no_rejection = record {
  missing = [];
  disputed_without_reason = [];
  declined_blocking = [];
  unknown_finding_ids = [];
}

unfoldable pub rejection_is_empty : GateRejection → Bool
rejection_is_empty r =
    is_empty r.missing
    && is_empty r.disputed_without_reason
    && is_empty r.declined_blocking
    && is_empty r.unknown_finding_ids

unfoldable pub push_once : List Text → Text → List Text
unfolding contains
push_once target id = if contains target id then target else target ++ id ∷ []

-- The variables of the loop over the dispositions.
pub record GateState : Type 0 where
  pub rejection : GateRejection
  pub answered : List Text

abbrev pub has_no_reason : Disposition → Bool
has_no_reason d = is_empty (trim d.reason)

-- The `match` on the action of an answer to a blocking finding.
unfoldable pub judge : DispositionAction → Disposition → GateRejection → GateRejection
unfolding push_once
judge accepted d r = r
judge disputed d r =
    if has_no_reason d
    then record r { disputed_without_reason = push_once r.disputed_without_reason d.finding_id }
    else r
judge declined d r = record r { declined_blocking = push_once r.declined_blocking d.finding_id }

module _ (known_ids required_ids : List Text) where
  unfoldable pub check : Disposition → GateState → GateState
  unfolding judge push_once
  check d s =
      let r = s.rejection in
      if not (contains known_ids d.finding_id)
      then record s {
        rejection = record r { unknown_finding_ids = push_once r.unknown_finding_ids d.finding_id };
      }
      else if not (contains required_ids d.finding_id)
      then s
      else record { rejection = judge d.action d r; answered = d.finding_id ∷ s.answered }

  unfoldable pub check_all : List Disposition → GateState → GateState
  unfolding check
  check_all [] s = s
  check_all (d ∷ ds) s = check_all ds (check d s)

-- The loop over the blocking findings.
unfoldable pub add_missing : List Finding → List Text → List Text → List Text
unfolding push_once
add_missing [] answered missing = missing
add_missing (f ∷ fs) answered missing =
    add_missing fs answered
      (if contains answered f.finding_id then missing else push_once missing f.finding_id)

-- The rejection as it stands after both loops.
unfoldable pub gate_rejection : List Finding → List Disposition → GateRejection
unfolding check_all add_missing
gate_rejection findings dispositions =
    let required = blocking_findings findings in
    let s =
      check_all (map id_of findings) (map id_of required) dispositions
        (record { rejection = no_rejection; answered = [] }) in
    let r = s.rejection in record r { missing = add_missing required s.answered r.missing }

unfoldable pub evaluate_gate : List Finding → List Disposition → GateResult
unfolding gate_rejection rejection_is_empty
evaluate_gate findings dispositions =
    let r = gate_rejection findings dispositions in if rejection_is_empty r then pass else reject r

abbrev pub ids_with : DispositionAction → List Disposition → List Text
ids_with action ds = map (λ d. d.finding_id) (filter (λ d. action_eqb d.action action) ds)

unfoldable pub disputed_findings : List Finding → List Disposition → List Finding
unfolding blocking_findings
disputed_findings findings dispositions =
    filter (λ f. contains (ids_with disputed dispositions) (id_of f)) (blocking_findings findings)

unfoldable pub declined_advisory : List Finding → List Disposition → List Finding
declined_advisory findings dispositions =
    filter (λ f. not (contains (ids_with accepted dispositions) (id_of f)))
      (filter (λ f. not (is_blocking f)) findings)
