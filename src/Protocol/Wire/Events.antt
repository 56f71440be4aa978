-- ===== src/Protocol/Wire/Events.antt =====
-- daemon/protocol/src/lib.rs: the events of the socket, with the thread or session they belong to and
-- their place in its journal.
use agentchat.Prelude.{ℕ, List, Option, none, some}
use agentchat.Text.{Text}
use agentchat.Protocol.Wire.Types.{
  Json, SkillInfo, AgentSummary, SessionSummary, SessionSnapshot, ThreadSummary, ThreadParticipant,
  ThreadSnapshot, ThreadSender, AssistantMessageState, DaemonLifecycleState, DaemonStopReason,
  DeltaType,
}

pub data ResponseEvent : Type 0 where
  daemon_status :
      (state : DaemonLifecycleState)
      → (reason : Option DaemonStopReason) → (message : Option Text) → ResponseEvent
  session_created : (session_id : Text) → (agent_id : Text) → (event_seq : ℕ) → ResponseEvent
  agent_list : (agents : List AgentSummary) → ResponseEvent
  thread_created : (thread_id : Text) → (created_at_ms : ℕ) → ResponseEvent
  thread_list : (threads : List ThreadSummary) → ResponseEvent
  thread_attached : (thread_id : Text) → ResponseEvent
  thread_snapshot : (snapshot : ThreadSnapshot) → ResponseEvent
  thread_closed : (thread_id : Text) → ResponseEvent
  thread_replay_complete : (thread_id : Text) → (last_thread_seq : ℕ) → ResponseEvent
  thread_participant_added :
      (thread_id : Text) → (thread_seq : ℕ) → (participant : ThreadParticipant) → ResponseEvent
  thread_participant_settings_updated :
      (thread_id : Text) → (thread_seq : ℕ) → (participant : ThreadParticipant) → ResponseEvent
  thread_participant_removed :
      (thread_id : Text) → (thread_seq : ℕ) → (participant_id : Text) → ResponseEvent
  session_list : (sessions : List SessionSummary) → ResponseEvent
  session_attached : (session_id : Text) → ResponseEvent
  session_snapshot : (snapshot : SessionSnapshot) → ResponseEvent
  session_closed : (session_id : Text) → ResponseEvent
  session_replay_complete : (session_id : Text) → (last_event_seq : ℕ) → ResponseEvent
  thread_message :
      (thread_id : Text)
      → (thread_seq : ℕ) → (message_id : Text) → (sender : ThreadSender) → (content : Text)
      → (target_participant_ids : List Text) → ResponseEvent
  thread_assistant_message :
      (thread_id : Text)
      → (thread_seq : ℕ) → (message_id : Text) → (turn_id : Text) → (participant_id : Text)
      → (agent_id : Text) → (session_id : Text) → (session_event_seq : ℕ) → (thinking : Text)
      → (response : Text) → (state : AssistantMessageState) → (stop_reason : Option Text)
      → ResponseEvent
  thread_agent_delta :
      (thread_id : Text)
      → (thread_seq : ℕ) → (turn_id : Text) → (participant_id : Text) → (agent_id : Text)
      → (session_id : Text) → (session_event_seq : ℕ) → (content : Text) → (delta_type : DeltaType)
      → ResponseEvent
  thread_agent_plan_update :
      (thread_id : Text)
      → (thread_seq : ℕ) → (turn_id : Text) → (participant_id : Text) → (agent_id : Text)
      → (session_id : Text) → (session_event_seq : ℕ) → (plan_json : Json) → ResponseEvent
  thread_agent_tool_update :
      (thread_id : Text)
      → (thread_seq : ℕ) → (turn_id : Text) → (participant_id : Text) → (agent_id : Text)
      → (session_id : Text) → (session_event_seq : ℕ) → (tool_call_id : Text) → (title : Text)
      → (status : Text) → (content : Option Text) → ResponseEvent
  thread_agent_turn_end :
      (thread_id : Text)
      → (thread_seq : ℕ) → (turn_id : Text) → (participant_id : Text) → (agent_id : Text)
      → (session_id : Text) → (session_event_seq : ℕ) → (stop_reason : Text) → ResponseEvent
  delta :
      (session_id : Text)
      → (event_seq : ℕ) → (content : Text) → (delta_type : DeltaType) → ResponseEvent
  plan_update : (session_id : Text) → (event_seq : ℕ) → (plan_json : Json) → ResponseEvent
  tool_update :
      (session_id : Text)
      → (event_seq : ℕ) → (tool_call_id : Text) → (title : Text) → (status : Text)
      → (content : Option Text) → ResponseEvent
  turn_end : (session_id : Text) → (event_seq : ℕ) → (stop_reason : Text) → ResponseEvent
  skill_list : (skills : List SkillInfo) → ResponseEvent
  skill_content : (name : Text) → (content : Text) → ResponseEvent
  distillation_status :
      (session_id : Text) → (event_seq : ℕ) → (status : Text) → (message : Text) → ResponseEvent
  error :
      (session_id : Option Text)
      → (event_seq : Option ℕ) → (code : Text) → (message : Text) → ResponseEvent

unfoldable pub event_session_id : ResponseEvent → Option Text
event_session_id (session_created id _ _) = some id
event_session_id (session_attached id) = some id
event_session_id (session_closed id) = some id
event_session_id (session_replay_complete id _) = some id
event_session_id (delta id _ _ _) = some id
event_session_id (plan_update id _ _) = some id
event_session_id (tool_update id _ _ _ _ _) = some id
event_session_id (turn_end id _ _) = some id
event_session_id (distillation_status id _ _ _) = some id
event_session_id (session_snapshot snapshot) = some snapshot.session_id
event_session_id (error id _ _ _) = id
event_session_id _ = none

unfoldable pub event_thread_id : ResponseEvent → Option Text
event_thread_id (thread_created id _) = some id
event_thread_id (thread_attached id) = some id
event_thread_id (thread_closed id) = some id
event_thread_id (thread_replay_complete id _) = some id
event_thread_id (thread_participant_added id _ _) = some id
event_thread_id (thread_participant_settings_updated id _ _) = some id
event_thread_id (thread_participant_removed id _ _) = some id
event_thread_id (thread_message id _ _ _ _ _) = some id
event_thread_id (thread_assistant_message id _ _ _ _ _ _ _ _ _ _ _) = some id
event_thread_id (thread_agent_delta id _ _ _ _ _ _ _ _) = some id
event_thread_id (thread_agent_plan_update id _ _ _ _ _ _ _) = some id
event_thread_id (thread_agent_tool_update id _ _ _ _ _ _ _ _ _ _) = some id
event_thread_id (thread_agent_turn_end id _ _ _ _ _ _ _) = some id
event_thread_id (thread_snapshot snapshot) = some snapshot.thread_id
event_thread_id _ = none

unfoldable pub event_seq : ResponseEvent → Option ℕ
event_seq (session_created _ _ n) = some n
event_seq (delta _ n _ _) = some n
event_seq (plan_update _ n _) = some n
event_seq (tool_update _ n _ _ _ _) = some n
event_seq (turn_end _ n _) = some n
event_seq (distillation_status _ n _ _) = some n
event_seq (error _ n _ _) = n
event_seq _ = none

unfoldable pub thread_seq : ResponseEvent → Option ℕ
thread_seq (thread_participant_added _ n _) = some n
thread_seq (thread_participant_settings_updated _ n _) = some n
thread_seq (thread_participant_removed _ n _) = some n
thread_seq (thread_message _ n _ _ _ _) = some n
thread_seq (thread_assistant_message _ n _ _ _ _ _ _ _ _ _ _) = some n
thread_seq (thread_agent_delta _ n _ _ _ _ _ _ _) = some n
thread_seq (thread_agent_plan_update _ n _ _ _ _ _ _) = some n
thread_seq (thread_agent_tool_update _ n _ _ _ _ _ _ _ _ _) = some n
thread_seq (thread_agent_turn_end _ n _ _ _ _ _ _) = some n
thread_seq _ = none
