-- ===== src/Server/Attach.antt =====
-- app.rs: a client attaches to a thread or a session, and gets what it has not seen. What the agent
-- manager and the set of running prompts say is the record `Liveness`.
use agentchat.Prelude.{
  ℕ, Bool, false, not, List, [], ◌∷◌, ◌++◌, Option, none, some, if◌then◌else◌, ltb, map, any,
  unwrap_or,
}
use agentchat.Text.{Text, codes, show_number}
use agentchat.Protocol.Wire.{
  ResponseEvent, thread_attached, thread_snapshot, thread_replay_complete, error, ParticipantState,
  ThreadState, SessionState, ThreadParticipant, ThreadSnapshot, Unicode,
}
use agentchat.Logs.{ThreadEventLog, thread_tail_seq, thread_replay_after}
use agentchat.Threads.{
  ThreadParticipantRecord, ThreadRecord, ThreadStore, get_thread, participant_to_protocol,
  thread_to_snapshot,
}

-- `active_prompt_sessions.contains`, `manager.is_agent_alive`, and whether `manager.session_binding`
-- finds the session.
pub record Liveness : Type 0 where
  pub is_prompting : Text → Bool
  pub is_agent_alive : Text → Bool
  pub has_binding : Text → Bool

abbrev state_of : Liveness → Option Text → Option Text → ParticipantState
state_of live none agent = ParticipantState.idle
state_of live (some session) none =
    if live.is_prompting session then ParticipantState.prompting else ParticipantState.idle
state_of live (some session) (some agent) =
    if live.is_prompting session
    then ParticipantState.prompting
    else if not (live.is_agent_alive agent)
    then ParticipantState.offline
    else if not (live.has_binding session)
    then ParticipantState.error
    else ParticipantState.idle

unfoldable pub build_thread_participant :
    Unicode → Liveness → ThreadParticipantRecord → ThreadParticipant
unfolding participant_to_protocol
build_thread_participant u live p =
    participant_to_protocol u p (state_of live p.session_id p.agent_id)

unfoldable pub build_thread_snapshot :
    Unicode → Liveness → ThreadEventLog → ThreadRecord → ThreadSnapshot
unfolding build_thread_participant thread_to_snapshot thread_tail_seq
build_thread_snapshot u live log t =
    thread_to_snapshot t (map (build_thread_participant u live) t.participants)
      (thread_tail_seq t.thread_id log)

abbrev is_running : Liveness → Option Text → Bool
is_running live none = false
is_running live (some session) = live.is_prompting session

abbrev running_thread : Liveness → Option ThreadRecord → Bool
running_thread live none = false
running_thread live (some t) = any (λ p. is_running live p.session_id) t.participants

unfoldable pub thread_state : Liveness → Text → ThreadStore → ThreadState
unfolding get_thread
thread_state live id s =
    if running_thread live (get_thread id s) then ThreadState.prompting else ThreadState.idle

unfoldable pub session_state : Liveness → Text → SessionState
session_state live session =
    if live.is_prompting session then SessionState.prompting else SessionState.idle

abbrev pub plain_error : Text → Text → ResponseEvent
plain_error code message = error none none code message

unfoldable pub ahead_of_tail : ℕ → ℕ → ResponseEvent
unfolding show_number
ahead_of_tail after tail = plain_error (codes "thread_replay_after_seq_ahead_of_tail") (
    codes "requested after_seq "
    ++ (show_number after ++ (codes " is ahead of current thread tail " ++ show_number tail)))

unfoldable pub attach_found : ThreadEventLog → Text → ThreadSnapshot → ℕ → List ResponseEvent
unfolding thread_replay_after ahead_of_tail
attach_found log id snapshot after =
    if ltb snapshot.last_thread_seq after
    then ahead_of_tail after snapshot.last_thread_seq ∷ []
    else thread_attached id
      ∷ thread_snapshot snapshot
      ∷ (thread_replay_after id after log
          ++ thread_replay_complete id snapshot.last_thread_seq ∷ [])

-- What is sent to the client.
unfoldable pub handle_attach_thread :
    Unicode → Liveness → ThreadStore → ThreadEventLog → Text → Option ℕ → List ResponseEvent
unfolding get_thread build_thread_snapshot attach_found
handle_attach_thread u live s log id after_seq = elim (get_thread id s) [
  | none ↦ plain_error (codes "thread_not_found") (codes "no live thread with this id") ∷ []
  | some t ↦ attach_found log id (build_thread_snapshot u live log t) (unwrap_or 0 after_seq)
]
