-- ===== src/Run/Supervisor/Approvals.antt =====
-- supervisor.rs: `SupervisorGate::request`, as what it does before it waits and what it does when it
-- wakes. Between the two other calls change the supervisor.
use agentchat.Prelude.{ℕ, ◌++◌, Option, none, some, length, Result, ok, err}
use agentchat.Text.{Text, codes, show_number}
use agentchat.Protocol.Run.{
  PhaseKind, plan, code, ApprovalPacket, ApprovalDecision, approve, request_changes, cancel,
}
use agentchat.Run.Supervisor.Registry.{RunSupervisor, append_log, park, unpark}

-- `PhaseKind::as_str`.
abbrev pub phase_str : PhaseKind → Text
phase_str plan = codes "plan"
phase_str code = codes "code"

unfoldable pub ready_line : ApprovalPacket → Text
unfolding show_number
ready_line packet =
    codes "⏸ "
    ++ (phase_str packet.phase
        ++ (codes " ready for review — "
            ++ (show_number (length packet.disputes)
                ++ (codes " dispute(s), "
                    ++ (show_number (length packet.followups) ++ codes " follow-up(s)")))))

unfoldable pub decision_line : ApprovalDecision → Text
decision_line approve = codes "▶ approved"
decision_line (request_changes _) = codes "↩ changes requested — budget reset"
decision_line cancel = codes "■ cancelled"

unfoldable pub request_parks : Text → ApprovalPacket → ℕ → ℕ → RunSupervisor → RunSupervisor
unfolding append_log park ready_line
request_parks id packet channel now s =
    park id packet channel now (append_log id (ready_line packet) now s).1

-- The decision that arrived, or none if the sender was dropped.
unfoldable pub request_wakes :
    Text
    → Option ApprovalDecision
    → ℕ
    → RunSupervisor
    → Result Text ApprovalDecision × RunSupervisor
unfolding unpark append_log decision_line
request_wakes id none now s =
    (err (codes "run " ++ (id ++ codes " was dropped while waiting for a decision")), s)
request_wakes id (some decision) now s =
    (ok decision, (append_log id (decision_line decision) now (unpark id s)).1)
