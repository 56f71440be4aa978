-- ===== src/Server/Feed.antt =====
-- app.rs: an agent's session events turned into events of the thread that the session is bound to. The
-- ids that the source makes from `Uuid::new_v4` for a new message are an argument, `fresh`. Writing the
-- journals to disk is left out.
use agentchat.Prelude.{
  ℕ, Bool, false, not, List, [], ◌∷◌, ◌++◌, Option, none, some, if◌then◌else◌, is_empty, unwrap_or,
  HashMap, lookup, insert, erase, list_eq, nat_eq,
}
use agentchat.Text.{Text, codes}
use agentchat.Protocol.Wire.{
  ResponseEvent, thread_assistant_message, thread_agent_plan_update, thread_agent_tool_update,
  thread_agent_turn_end, delta, plan_update, tool_update, turn_end, event_session_id, event_seq,
  DeltaType, text, thinking, tool_use, AssistantMessageState, streaming, completed,
}
use agentchat.Logs.{ThreadEventLog, SessionEventLog, take_seq, thread_append, session_append}
use agentchat.Threads.{ThreadSessionBinding, ThreadStore, binding_for_session}

pub record ActiveAssistantMessage : Type 0 where
  pub message_id : Text
  pub turn_id : Text
  pub thinking : Text
  pub response : Text

-- The parts of `AppProtocolSession` that the feed of events works on; `sent` is what has been broadcast,
-- oldest first.
pub record Feed : Type 0 where
  pub threads : ThreadStore
  pub thread_log : ThreadEventLog
  pub session_log : SessionEventLog
  pub active : HashMap Text ActiveAssistantMessage
  pub sent : List ResponseEvent

-- `ActiveAssistantMessage::new`, with a message's and a turn's id.
unfoldable pub new_message : Text × Text → ActiveAssistantMessage
new_message (message, turn) = record {
  message_id = codes "message-" ++ message;
  turn_id = codes "turn-" ++ turn;
  thinking = [];
  response = [];
}

-- The session's message, and the messages with it among them.
unfoldable pub ensure_active_assistant_message :
    Text × Text
    → Text
    → HashMap Text ActiveAssistantMessage
    → ActiveAssistantMessage × HashMap Text ActiveAssistantMessage
unfolding lookup insert new_message
ensure_active_assistant_message fresh session active =
    let message = unwrap_or (new_message fresh) (lookup active session) in
    (message, insert active session message)

unfoldable pub journal_and_broadcast_thread_event : ResponseEvent → Feed → Feed
unfolding thread_append
journal_and_broadcast_thread_event event f = record f {
  thread_log = thread_append event f.thread_log;
  sent = f.sent ++ event ∷ [];
}

unfoldable pub journal_and_broadcast_event : ResponseEvent → Feed → Feed
unfolding session_append
journal_and_broadcast_event event f = record f {
  session_log = session_append event f.session_log;
  sent = f.sent ++ event ∷ [];
}

-- `next_seq`, then an event with that number.
unfoldable pub emit_in_thread : Text → (ℕ → ResponseEvent) → Feed → Feed
unfolding take_seq journal_and_broadcast_thread_event
emit_in_thread thread event f =
    let (seq, log) = take_seq thread f.thread_log in
    journal_and_broadcast_thread_event (event seq) (record f { thread_log = log })

-- The message after a chunk.
unfoldable pub push_chunk : DeltaType → Text → ActiveAssistantMessage → ActiveAssistantMessage
push_chunk thinking content m = record m { thinking = m.thinking ++ content }
push_chunk text content m = record m { response = m.response ++ content }
push_chunk tool_use content m = m

-- `DeltaType::Thinking | DeltaType::Text if !content.is_empty()`.
abbrev pub is_shown : DeltaType → Text → Bool
is_shown tool_use content = false
is_shown _ content = not (is_empty content)

abbrev pub message_event :
    ThreadSessionBinding
    → Text
    → ℕ
    → ActiveAssistantMessage
    → AssistantMessageState
    → Option Text
    → ℕ
    → ResponseEvent
message_event b session session_seq m state stop_reason seq =
    thread_assistant_message b.thread_id seq m.message_id m.turn_id b.participant_id b.agent_id
      session session_seq m.thinking m.response state stop_reason

unfoldable pub show_delta :
    Text × Text → ThreadSessionBinding → Text → ℕ → DeltaType → Text → Feed → Feed
unfolding ensure_active_assistant_message insert push_chunk emit_in_thread
show_delta fresh b session session_seq kind content f =
    let (found, active) = ensure_active_assistant_message fresh session f.active in
    let message = push_chunk kind content found in
    emit_in_thread b.thread_id (message_event b session session_seq message streaming none)
      (record f { active = insert active session message })

-- After the message, the end of its turn, if it is complete and has a reason to stop.
unfoldable pub end_turn :
    ThreadSessionBinding
    → Text
    → ℕ
    → ActiveAssistantMessage
    → AssistantMessageState
    → Option Text
    → Feed
    → Feed
unfolding emit_in_thread
end_turn b session session_seq m completed (some stop_reason) f =
    emit_in_thread b.thread_id
      (λ seq.
        thread_agent_turn_end b.thread_id seq m.turn_id b.participant_id b.agent_id session
          session_seq stop_reason)
      f
end_turn b session session_seq m _ _ f = f

unfoldable pub finalize_active_assistant_message :
    Text → ℕ → AssistantMessageState → Option Text → Feed → Feed
unfolding binding_for_session lookup erase emit_in_thread end_turn
finalize_active_assistant_message session session_seq state stop_reason f =
    let removed : Feed = record f { active = erase f.active session } in
    elim (binding_for_session session f.threads) [
      | none ↦ removed
      | some b ↦ elim (lookup f.active session) [
        | none ↦ removed
        | some m ↦ end_turn b session session_seq m state stop_reason (
            emit_in_thread b.thread_id (message_event b session session_seq m state stop_reason)
              removed)
      ]
    ]

-- The `match` on an event of a bound session.
unfoldable pub feed_bound : Text × Text → ThreadSessionBinding → ℕ → ResponseEvent → Feed → Feed
unfolding show_delta ensure_active_assistant_message emit_in_thread
    finalize_active_assistant_message
feed_bound fresh b session_seq (delta session _ content kind) f =
    if is_shown kind content then show_delta fresh b session session_seq kind content f else f
feed_bound fresh b session_seq (plan_update session _ plan_json) f =
    let (message, active) = ensure_active_assistant_message fresh session f.active in
    emit_in_thread b.thread_id
      (λ seq.
        thread_agent_plan_update b.thread_id seq message.turn_id b.participant_id b.agent_id session
          session_seq plan_json)
      (record f { active = active })
feed_bound fresh b session_seq (tool_update session _ tool_call_id title status content) f =
    let (message, active) = ensure_active_assistant_message fresh session f.active in
    emit_in_thread b.thread_id
      (λ seq.
        thread_agent_tool_update b.thread_id seq message.turn_id b.participant_id b.agent_id session
          session_seq tool_call_id title status content)
      (record f { active = active })
feed_bound fresh b session_seq (turn_end session _ stop_reason) f =
    finalize_active_assistant_message session session_seq completed (some stop_reason) f
feed_bound fresh b session_seq _ f = f

-- `maybe_broadcast_thread_event_for_session_event`.
unfoldable pub feed_thread : Text × Text → ResponseEvent → Feed → Feed
unfolding event_session_id event_seq binding_for_session feed_bound
feed_thread fresh event f = elim (event_session_id event) [
  | none ↦ f
  | some session ↦ elim (binding_for_session session f.threads) [
    | none ↦ f
    | some b ↦ elim (event_seq event) [
      | none ↦ f
      | some session_seq ↦ feed_bound fresh b session_seq event f
    ]
  ]
]
