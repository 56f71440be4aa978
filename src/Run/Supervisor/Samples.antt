-- ===== src/Run/Supervisor/Samples.antt =====
-- A run that is watched, asked about and answered, and the theorems there.
use agentchat.Prelude.{
  ℕ, ◌≡◌, refl, true, false, List, [], ◌∷◌, none, some, is_some, map, contains, Distinct, length,
  drop, lookup, if◌then◌else◌, ltb, ◌-◌, ◌+◌, ok, err, arith, list_eq, nat_eq, list_eqb,
}
use agentchat.Text.{Text, codes}
use agentchat.Protocol.Run.{plan, ApprovalPacket, ApprovalDecision, approve, cancel}
use agentchat.Run.State.{RunState, new_run}
use agentchat.Run.Supervisor.Registry.{
  new_supervisor, view, list, decide, finish, is_running, log_after, not_waiting, stopped,
  max_log_lines,
}
use agentchat.Run.Supervisor.Approvals.{request_parks, request_wakes}
use agentchat.Run.Supervisor.Calls.{Call, synced, logged, parked, run}
use agentchat.Run.Supervisor.Consistent.{
  IsConsistent, shows_packet, run-new_supervisor-IsConsistent,
}
use mathlib.Core.List.{reverse}
use agentchat.Run.Supervisor.Listed.{reported, once_each, list-run}
use agentchat.Run.Supervisor.Watched.{decide-shown, is_running-finish}
use agentchat.Run.Supervisor.Delivered.{packet_of, request_wakes-decide}
use agentchat.Run.Supervisor.Lines.{number, lines_of, log_after-run}

abbrev first : Text
first = codes "run-1"

abbrev packet : ApprovalPacket
packet = record {
  run_id = first;
  phase = plan;
  version = 2;
  exit_reason = none;
  disputes = [];
  summary = record {
    blocking_raised = 0;
    blocking_accepted = 0;
    blocking_disputed = 0;
    non_blocking_raised = 0;
    non_blocking_adopted = 0;
    non_blocking_declined = 0;
    cycles_used = 1;
    human_iterations = 0;
  };
  followups = [];
  archive = [];
}

abbrev started : RunState
started = new_run first (codes "/tmp/worktree") 7

abbrev calls : List Call
calls =
    synced started
    ∷ logged first (codes "round 1") 8
    ∷ logged first (codes "round 2") 9
    ∷ parked first packet 3 10
    ∷ synced started
    ∷ []

run-new_supervisor-IsConsistent_example : IsConsistent (run calls new_supervisor)
run-new_supervisor-IsConsistent_example = run-new_supervisor-IsConsistent calls

-- A second run is reported between two reports of the first.
abbrev two_runs : List Call
two_runs = synced started ∷ synced (record started { run_id = codes "run-2" }) ∷ synced started ∷ []

list-run_example :
    let s = run two_runs new_supervisor in
    let shown = map (λ v. v.run_id) (list s) in
    (shown ≡ reverse (once_each (reported two_runs)))
    × Distinct shown
    × ((id : Text) → contains shown id ≡ is_some (view id s))
list-run_example = list-run two_runs

newest_first : map (λ v. v.run_id) (list (run two_runs new_supervisor)) ≡ codes "run-2" ∷ first ∷ []
unfolding list run new_supervisor list_eqb new_run
newest_first = refl

decide-shown_example :
    let s = run calls new_supervisor in
    (channel : ℕ) × (lookup s.gates first ≡ some channel)
    × ((decide (λ _. true) first approve 11 s).0
        ≡ (if true then ok (channel, approve) else err (stopped first)))
    × (shows_packet (view first (decide (λ _. true) first approve 11 s).1) ≡ false)
    × ((again : ApprovalDecision) (later : ℕ)
        → (decide (λ _. true) first again later (decide (λ _. true) first approve 11 s).1).0
          ≡ err (not_waiting first))
unfolding view run new_supervisor list_eqb new_run
decide-shown_example = decide-shown calls first approve 11 (λ _. true) refl

is_running-finish_example :
    is_running first (run calls (finish first none 12 (run calls new_supervisor))) ≡ false
unfolding view run new_supervisor list_eqb new_run
is_running-finish_example = is_running-finish first none 12 (run calls new_supervisor) calls refl

request_wakes-decide_example :
    let asked = request_parks first packet 4 10 (run calls new_supervisor) in
    let told = decide (λ _. true) first cancel 11 asked in
    let woken = request_wakes first (some cancel) 12 told.1 in
    (packet_of (view first asked) ≡ some packet)
    × (told.0 ≡ ok (4, cancel))
    × (woken.0 ≡ ok cancel)
    × (packet_of (view first woken.1) ≡ none)
    × (lookup woken.1.gates first ≡ none)
unfolding view run new_supervisor list_eqb new_run
request_wakes-decide_example =
    request_wakes-decide first packet 4 10 cancel 11 12 (run calls new_supervisor) refl

log_after-run_example :
    let lost = length (lines_of calls first) - max_log_lines in
    let from = if ltb lost 1 then 1 else lost in
    log_after first 1 (run calls new_supervisor)
    ≡ number (1 + from) (drop from (lines_of calls first))
log_after-run_example = log_after-run calls first 1 (omega arith)

-- The reader that saw the first line gets the second.
second_line :
    log_after first 1 (run calls new_supervisor)
    ≡ record { seq = 2; at_ms = 9; line = codes "round 2" } ∷ []
unfolding log_after run new_supervisor list_eqb
second_line = refl
