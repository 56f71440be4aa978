-- ===== src/Run/Supervisor/Calls.antt =====
-- Sequences of calls on a supervisor. `register` is called by `sync` alone.
use agentchat.Prelude.{ℕ, Bool, List, [], ◌∷◌, Option}
use agentchat.Text.{Text}
use agentchat.Protocol.Run.{ApprovalPacket, ApprovalDecision}
use agentchat.Run.State.{RunState}
use agentchat.Run.Supervisor.Registry.{
  RunSupervisor, sync, append_log, park, unpark, decide, finish,
}

pub data Call : Type 0 where
  synced : RunState → Call
  logged : (id line : Text) (now : ℕ) → Call
  parked : (id : Text) → ApprovalPacket → (channel now : ℕ) → Call
  unparked : Text → Call
  decided : (ℕ → Bool) → (id : Text) → ApprovalDecision → (now : ℕ) → Call
  finished : (id : Text) → Option Text → (now : ℕ) → Call

unfoldable pub call : Call → RunSupervisor → RunSupervisor
unfolding sync append_log park unpark decide finish
call (synced r) s = sync r s
call (logged id line now) s = (append_log id line now s).1
call (parked id packet channel now) s = park id packet channel now s
call (unparked id) s = unpark id s
call (decided waits id decision now) s = (decide waits id decision now s).1
call (finished id problem now) s = finish id problem now s

unfoldable pub run : List Call → RunSupervisor → RunSupervisor
unfolding call
run [] s = s
run (c ∷ cs) s = run cs (call c s)
