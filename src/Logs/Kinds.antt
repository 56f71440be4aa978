-- ===== src/Logs/Kinds.antt =====
-- daemon/core/src/thread_event_log.rs and session_event_log.rs: the two journals, one keyed by the
-- event's thread and one by its session.
use agentchat.Prelude.{ℕ, List}
use agentchat.Text.{Text}
use agentchat.Protocol.Wire.{
  ResponseEvent, event_thread_id, thread_seq, event_session_id, event_seq,
}
use agentchat.Logs.Numbered.{
  Journal, new_journal, init, take_seq, append, remove, tail_seq, replay_after,
}

abbrev pub ThreadEventLog : Type 0
ThreadEventLog = Journal ResponseEvent

unfoldable pub thread_append : ResponseEvent → ThreadEventLog → ThreadEventLog
unfolding append event_thread_id
thread_append = append event_thread_id

unfoldable pub thread_tail_seq : Text → ThreadEventLog → ℕ
unfolding tail_seq thread_seq
thread_tail_seq = tail_seq thread_seq

unfoldable pub thread_replay_after : Text → ℕ → ThreadEventLog → List ResponseEvent
unfolding replay_after thread_seq
thread_replay_after = replay_after thread_seq

abbrev pub SessionEventLog : Type 0
SessionEventLog = Journal ResponseEvent

unfoldable pub new_session_log : SessionEventLog
unfolding new_journal
new_session_log = new_journal

unfoldable pub init_session : Text → SessionEventLog → SessionEventLog
unfolding init
init_session = init

unfoldable pub session_next_seq : Text → SessionEventLog → ℕ × SessionEventLog
unfolding take_seq
session_next_seq = take_seq

unfoldable pub session_append : ResponseEvent → SessionEventLog → SessionEventLog
unfolding append event_session_id
session_append = append event_session_id

unfoldable pub session_tail_seq : Text → SessionEventLog → ℕ
unfolding tail_seq event_seq
session_tail_seq = tail_seq event_seq

unfoldable pub session_replay_after : Text → ℕ → SessionEventLog → List ResponseEvent
unfolding replay_after event_seq
session_replay_after = replay_after event_seq

unfoldable pub remove_log_of_session : Text → SessionEventLog → SessionEventLog
unfolding remove
remove_log_of_session = remove
