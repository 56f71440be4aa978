-- ===== src/Run/Supervisor/Registry.antt =====
-- supervisor.rs: `RunSupervisor` and its methods. A `oneshot::Sender` is a number that names its
-- channel; whether the receiver still waits is the argument `waits` of `decide`. The clock's reading
-- is an argument, `now`.
use agentchat.Prelude.{
  ℕ, ◌+◌, ◌-◌, ◌%◌, ◌^◌, Bool, true, false, not, ◌||◌, List, [], ◌∷◌, ◌++◌, Option, none, some,
  if◌then◌else◌, ltb, filter, length, drop, HashMap, lookup, insert, erase, modify, unwrap_or,
  contains_key, Result, ok, err, list_eq, nat_eq,
}
use agentchat.Text.{Text, codes}
use agentchat.Protocol.Run.{
  RunStatus, is_terminal, PhaseKind, StageKind, ExitReason, ApprovalPacket, ApprovalDecision,
}
use agentchat.Run.State.{RunState, PhaseState, active_phase, exit_reason}

pub record LogEntry : Type 0 where
  pub seq : ℕ
  pub at_ms : ℕ
  pub line : Text

pub record RunView : Type 0 where
  pub run_id : Text
  pub status : RunStatus
  pub phase : Option PhaseKind
  pub stage : Option StageKind
  pub exit_reason : Option ExitReason
  pub version : ℕ
  pub round : ℕ
  pub cycles_used : ℕ
  pub updated_at_ms : ℕ
  pub pending : Option ApprovalPacket
  pub error : Option Text
  pub finished : Bool

-- `phase.map(f).unwrap_or(d)` and `phase.map(f)`.
abbrev from_phase {ℓ} : {A : Type ℓ} → A → (PhaseState → A) → Option PhaseState → A
from_phase d f none = d
from_phase d f (some p) = f p

unfoldable pub from_state : RunState → RunView
unfolding active_phase
from_state r = record {
  run_id = r.run_id;
  status = r.status;
  phase = from_phase none (λ p. some p.kind) (active_phase r);
  stage = from_phase none (λ p. some p.stage) (active_phase r);
  exit_reason = from_phase none exit_reason (active_phase r);
  version = from_phase 0 (λ p. p.version) (active_phase r);
  round = from_phase 0 (λ p. p.round) (active_phase r);
  cycles_used = from_phase 0 (λ p. p.ledger.cycles_used) (active_phase r);
  updated_at_ms = r.updated_at_ms;
  pending = none;
  error = none;
  finished = is_terminal r.status;
}

-- `order` holds the newest run first.
pub record RunSupervisor : Type 0 where
  pub runs : HashMap Text RunView
  pub logs : HashMap Text (List LogEntry)
  pub next_seq : HashMap Text ℕ
  pub gates : HashMap Text ℕ
  pub order : List Text

abbrev pub max_log_lines : ℕ
max_log_lines = 5000

unfoldable pub new_supervisor : RunSupervisor
new_supervisor = record { runs = []; logs = []; next_seq = []; gates = []; order = [] }

unfoldable pub register : Text → RunView → RunSupervisor → RunSupervisor
unfolding contains_key insert
register id view s = record s {
  order = if contains_key s.runs id then s.order else id ∷ s.order;
  runs = insert s.runs id view;
}

-- The fields that only the interface sets outlive a refresh.
unfoldable pub keep_fields : Option RunView → RunView → RunView
keep_fields none view = view
keep_fields (some existing) view = record view {
  pending = existing.pending;
  error = existing.error;
  finished = existing.finished || view.finished;
}

unfoldable pub sync : RunState → RunSupervisor → RunSupervisor
unfolding register keep_fields from_state lookup
sync r s = register r.run_id (keep_fields (lookup s.runs r.run_id) (from_state r)) s

unfoldable pub view : Text → RunSupervisor → Option RunView
unfolding lookup
view id s = lookup s.runs id

-- `filter_map(|run_id| self.runs.get(run_id))`.
unfoldable pub views_of : HashMap Text RunView → List Text → List RunView
unfolding lookup
views_of runs [] = []
views_of runs (id ∷ ids) = elim (lookup runs id) [
  | none ↦ views_of runs ids
  | some v ↦ v ∷ views_of runs ids
]

unfoldable pub list : RunSupervisor → List RunView
unfolding views_of
list s = views_of s.runs s.order

-- The oldest lines go when there are too many.
unfoldable pub keep_newest : List LogEntry → List LogEntry
keep_newest log =
    if ltb max_log_lines (length log) then drop (length log - max_log_lines) log else log

-- The number of the line, and the supervisor after it; the `u64` counter wraps in a release build.
unfoldable pub append_log : Text → Text → ℕ → RunSupervisor → ℕ × RunSupervisor
unfolding lookup insert keep_newest
append_log id line now s =
    let seq = (unwrap_or 0 (lookup s.next_seq id) + 1) % 2 ^ 64 in
    let entry : LogEntry = record { seq = seq; at_ms = now; line = line } in
    (
      seq,
      record s {
        next_seq = insert s.next_seq id seq;
        logs = insert s.logs id (keep_newest (unwrap_or [] (lookup s.logs id) ++ entry ∷ []));
      },
    )

unfoldable pub log_after : Text → ℕ → RunSupervisor → List LogEntry
unfolding lookup
log_after id after s = filter (λ e. ltb after e.seq) (unwrap_or [] (lookup s.logs id))

unfoldable pub park : Text → ApprovalPacket → ℕ → ℕ → RunSupervisor → RunSupervisor
unfolding modify insert
park id packet channel now s = record s {
  runs = modify s.runs id (λ v. record v { pending = some packet; updated_at_ms = now });
  gates = insert s.gates id channel;
}

unfoldable pub unpark : Text → RunSupervisor → RunSupervisor
unfolding modify erase
unpark id s = record s {
  runs = modify s.runs id (λ v. record v { pending = none });
  gates = erase s.gates id;
}

-- The errors of `decide`.
abbrev pub not_waiting : Text → Text
not_waiting id = codes "run " ++ (id ++ codes " is not waiting for a decision")

abbrev pub stopped : Text → Text
stopped id = codes "run " ++ (id ++ codes " stopped before the decision arrived")

-- On success the channel that gets the decision.
unfoldable pub decide :
    (ℕ → Bool)
    → Text
    → ApprovalDecision
    → ℕ
    → RunSupervisor
    → Result Text (ℕ × ApprovalDecision) × RunSupervisor
unfolding lookup erase modify
decide waits id decision now s = elim (lookup s.gates id) [
  | none ↦ (err (not_waiting id), s)
  | some channel ↦ (
    if waits channel then ok (channel, decision) else err (stopped id),
    record s {
      gates = erase s.gates id;
      runs = modify s.runs id (λ v. record v { pending = none; updated_at_ms = now });
    },
  )
]

unfoldable pub finish : Text → Option Text → ℕ → RunSupervisor → RunSupervisor
unfolding modify erase
finish id problem now s = record s {
  runs =
      modify s.runs id
        (λ v. record v { finished = true; pending = none; error = problem; updated_at_ms = now });
  gates = erase s.gates id;
}

abbrev pub running : Option RunView → Bool
running none = false
running (some v) = not v.finished

unfoldable pub is_running : Text → RunSupervisor → Bool
unfolding lookup
is_running id s = running (lookup s.runs id)
