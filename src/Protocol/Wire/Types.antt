-- ===== src/Protocol/Wire/Types.antt =====
-- daemon/protocol/src/lib.rs: what the daemon tells its clients about agents, sessions and threads. A
-- `serde_json::Value` is opaque to the daemon, and a text here.
use agentchat.Prelude.{ℕ, List, Option, HashMap}
use agentchat.Text.{Text}

-- `serde_json::Value`, by its text.
abbrev pub Json : Type 0
Json = Text

pub record AgentSessionSettings : Type 0 where
  pub model : Option Text
  pub reasoning_effort : Option Text

pub record AgentSettingValue : Type 0 where
  pub id : Text
  pub label : Text

pub record AgentSettingOption : Type 0 where
  pub id : Text
  pub name : Text
  pub category : Text
  pub values : List AgentSettingValue
  pub values_by_model : Option (HashMap Text (List AgentSettingValue))
  pub current_value : Option Text
  pub apply_scope : Text

pub record SkillInfo : Type 0 where
  pub name : Text
  pub path : Text
  pub size_bytes : ℕ

pub data AgentStatus : Type 0 where
  online : AgentStatus
  offline : AgentStatus
  starting : AgentStatus
  crashed : AgentStatus

pub record AgentSummary : Type 0 where
  pub agent_id : Text
  pub name : Text
  pub mention_handle : Option Text
  pub kind : Text
  pub status : AgentStatus
  pub default_working_dir : Option Text
  pub capabilities : List Text
  pub settings : List AgentSettingOption

pub data SessionState : Type 0 where
  idle : SessionState
  prompting : SessionState

pub data ThreadState : Type 0 where
  idle : ThreadState
  prompting : ThreadState

pub data ParticipantKind : Type 0 where
  human : ParticipantKind
  agent : ParticipantKind

pub data ParticipantState : Type 0 where
  idle : ParticipantState
  prompting : ParticipantState
  offline : ParticipantState
  error : ParticipantState

pub record SessionSummary : Type 0 where
  pub session_id : Text
  pub agent_id : Text
  pub working_dir : Text
  pub created_at_ms : ℕ
  pub state : SessionState
  pub last_event_seq : ℕ
  pub last_stop_reason : Option Text

pub record SessionSnapshot : Type 0 where
  pub session_id : Text
  pub agent_id : Text
  pub working_dir : Text
  pub created_at_ms : ℕ
  pub state : SessionState
  pub last_event_seq : ℕ
  pub last_stop_reason : Option Text
  pub last_error : Option Text

pub record ThreadSummary : Type 0 where
  pub thread_id : Text
  pub title : Option Text
  pub working_dir : Text
  pub created_at_ms : ℕ
  pub state : ThreadState
  pub participant_count : ℕ
  pub last_thread_seq : ℕ

pub record ThreadParticipant : Type 0 where
  pub participant_id : Text
  pub kind : ParticipantKind
  pub display_name : Text
  pub avatar : Text
  pub agent_id : Option Text
  pub mention_handle : Option Text
  pub session_id : Option Text
  pub state : ParticipantState
  pub settings : AgentSessionSettings

pub record ThreadParticipantConfig : Type 0 where
  pub display_name : Text
  pub avatar : Text
  pub settings : AgentSessionSettings

pub record ThreadSnapshot : Type 0 where
  pub thread_id : Text
  pub title : Option Text
  pub working_dir : Text
  pub created_at_ms : ℕ
  pub last_thread_seq : ℕ
  pub participants : List ThreadParticipant

pub record ThreadSender : Type 0 where
  pub kind : ParticipantKind
  pub participant_id : Text
  pub display_name : Text

pub data AssistantMessageState : Type 0 where
  streaming : AssistantMessageState
  completed : AssistantMessageState
  failed : AssistantMessageState

pub data DaemonLifecycleState : Type 0 where
  stopping : DaemonLifecycleState

pub data DaemonStopReason : Type 0 where
  user_shutdown : DaemonStopReason
  signal : DaemonStopReason

pub data DeltaType : Type 0 where
  text : DeltaType
  thinking : DeltaType
  tool_use : DeltaType
