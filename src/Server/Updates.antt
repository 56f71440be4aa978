-- ===== src/Server/Updates.antt =====
-- app.rs: updates from agents, and the end of a prompt, as events of a session and of its thread; and
-- the updates themselves, from daemon/core/src/backend.rs. The recording in the session's transcript,
-- the flush to disk and the short sleep before a turn's end are left out.
use agentchat.Prelude.{ℕ, List, [], ◌∷◌, Option, none, some, Result, ok, err}
use agentchat.Text.{Text, codes}
use agentchat.Protocol.Wire.{
  Json, ResponseEvent, delta, plan_update, tool_update, turn_end, error, text, thinking, failed,
}
use agentchat.Logs.{session_next_seq}
use agentchat.Server.Feed.{
  Feed, journal_and_broadcast_event, finalize_active_assistant_message, feed_thread,
}

pub data AgentUpdate : Type 0 where
  text_delta : (content : Text) → AgentUpdate
  thinking_delta : (content : Text) → AgentUpdate
  tool : (tool_call_id title status : Text) (content : Option Text) → AgentUpdate
  plan : (plan_json : Json) → AgentUpdate
  raw : (payload : Json) → AgentUpdate

pub record AgentNotification : Type 0 where
  pub session_id : Text
  pub update : AgentUpdate

-- `rewrite_notification_session_id`, by `AgentNotification::with_session_id`.
abbrev pub with_session_id : AgentNotification → Text → AgentNotification
with_session_id n session = record n { session_id = session }

unfoldable pub event_of_update : Text → ℕ → AgentUpdate → ResponseEvent
event_of_update sid seq (text_delta content) = delta sid seq content text
event_of_update sid seq (thinking_delta content) = delta sid seq content thinking
event_of_update sid seq (tool tool_call_id title status content) =
    tool_update sid seq tool_call_id title status content
event_of_update sid seq (plan plan_json) = plan_update sid seq plan_json
event_of_update sid seq (raw payload) = delta sid seq [] text

unfoldable pub map_session_update : AgentNotification → ℕ → ResponseEvent
unfolding event_of_update
map_session_update n seq = event_of_update n.session_id seq n.update

-- `next_seq` of a session, then the event with that number, for the session and then for its thread.
unfoldable pub emit_in_session : Text × Text → Text → (ℕ → ResponseEvent) → Feed → Feed
unfolding session_next_seq journal_and_broadcast_event feed_thread
emit_in_session fresh session event f =
    let (seq, log) = session_next_seq session f.session_log in
    feed_thread fresh (event seq)
      (journal_and_broadcast_event (event seq) (record f { session_log = log }))

-- The loop's body for an update of a public session.
unfoldable pub session_update : Text × Text → Text → AgentNotification → Feed → Feed
unfolding map_session_update emit_in_session
session_update fresh public_session n f =
    emit_in_session fresh public_session (map_session_update (with_session_id n public_session)) f

-- A prompt ends with a reason to stop, or with an error.
unfoldable pub handle_prompt_completion : Text × Text → Text → Result Text Text → Feed → Feed
unfolding emit_in_session session_next_seq finalize_active_assistant_message
    journal_and_broadcast_event
handle_prompt_completion fresh session (ok stop_reason) f =
    emit_in_session fresh session (λ seq. turn_end session seq stop_reason) f
handle_prompt_completion fresh session (err message) f =
    let (seq, log) = session_next_seq session f.session_log in
    journal_and_broadcast_event (error (some session) (some seq) (codes "prompt_failed") message)
      (finalize_active_assistant_message session seq failed none (record f { session_log = log }))

-- What reaches the feed from agents, in the order of its arrival.
pub data Input : Type 0 where
  updated : (fresh : Text × Text) (public_session : Text) → AgentNotification → Input
  prompted : (fresh : Text × Text) (session : Text) → Result Text Text → Input

unfoldable pub take_input : Input → Feed → Feed
unfolding session_update handle_prompt_completion
take_input (updated fresh session n) f = session_update fresh session n f
take_input (prompted fresh session result) f = handle_prompt_completion fresh session result f

unfoldable pub take_inputs : List Input → Feed → Feed
unfolding take_input
take_inputs [] f = f
take_inputs (i ∷ is) f = take_inputs is (take_input i f)
