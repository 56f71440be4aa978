-- ===== src/Server/Inputs.antt =====
-- app.rs: the journals of threads and sessions, when agents send updates and prompts end.
use agentchat.Prelude.{
  ℕ, ◌≡◌, refl, ap, inl, inr, List, [], ◌∷◌, Option, none, some, ok, err, lookup, list_eq, nat_eq,
  Option-cases,
}
use agentchat.Text.{Text, codes}
use agentchat.Protocol.Wire.{
  ResponseEvent, error, event_session_id, event_seq, turn_end, AssistantMessageState, completed,
  streaming, failed,
}
use agentchat.Logs.{session_append, session_next_seq}
use agentchat.Logs.Sequence.{emit_entry, call, run}
use agentchat.Threads.{ThreadSessionBinding, binding_for_session}
use agentchat.Server.Feed.{
  ActiveAssistantMessage, Feed, emit_in_thread, journal_and_broadcast_event,
  journal_and_broadcast_thread_event, end_turn, finalize_active_assistant_message,
}
use agentchat.Server.Updates.{
  Input, updated, prompted, take_input, take_inputs, AgentUpdate, text_delta, thinking_delta, tool,
  plan, raw, event_of_update, map_session_update, emit_in_session, session_update,
  handle_prompt_completion,
}
use agentchat.Server.Emits.{Grows, Grows-refl, Grows-trans, feed_thread-Grows, finalize-Grows}

emit_in_session-Grows :
    (fresh : Text × Text) (session : Text) (event : ℕ → ResponseEvent) (f : Feed)
    → ((n : ℕ) → event_session_id (event n) ≡ some session)
    → ((n : ℕ) → event_seq (event n) ≡ some n)
    → Grows f (emit_in_session fresh session event f)
unfolding emit_in_session journal_and_broadcast_event session_append session_next_seq run call
    emit_entry
emit_in_session-Grows fresh session event f owned numbered =
    Grows-trans
      record {
        in_threads = [];
        threads_grow = refl;
        in_sessions =
            record { id = session; make = event; owned = owned; numbered = numbered } ∷ [];
        sessions_grow = refl;
      }
      (feed_thread-Grows fresh (event (session_next_seq session f.session_log).0) _)

end_turn-session_log :
    (b : ThreadSessionBinding) (session : Text) (n : ℕ) (m : ActiveAssistantMessage)
    (state : AssistantMessageState) (reason : Option Text) (f : Feed)
    → (end_turn b session n m state reason f).session_log ≡ f.session_log
unfolding end_turn emit_in_thread journal_and_broadcast_thread_event
end_turn-session_log b session n m completed (some reason) f = refl
end_turn-session_log b session n m completed none f = refl
end_turn-session_log b session n m streaming reason f = refl
end_turn-session_log b session n m failed reason f = refl

-- The end of a message is no event of the session.
finalize-session_log :
    (session : Text) (n : ℕ) (state : AssistantMessageState) (reason : Option Text) (f : Feed)
    → (finalize_active_assistant_message session n state reason f).session_log ≡ f.session_log
unfolding finalize_active_assistant_message emit_in_thread journal_and_broadcast_thread_event
finalize-session_log session n state reason f =
    elim (Option-cases (binding_for_session session f.threads)) [
      | inl e ↦ rw (finalize_active_assistant_message, e) refl
      | inr (b, e) ↦ elim (Option-cases (lookup f.active session)) [
        | inl i ↦ rw (finalize_active_assistant_message, e, i) refl
        | inr (m, i) ↦
            rw (finalize_active_assistant_message, e, i)
              (end_turn-session_log b session n m state reason _)
      ]
    ]

event_of_update-owned :
    (session : Text) (update : AgentUpdate) (n : ℕ)
    → event_session_id (event_of_update session n update) ≡ some session
unfolding event_of_update event_session_id
event_of_update-owned session (text_delta content) n = refl
event_of_update-owned session (thinking_delta content) n = refl
event_of_update-owned session (tool id title status content) n = refl
event_of_update-owned session (plan plan_json) n = refl
event_of_update-owned session (raw payload) n = refl

event_of_update-numbered :
    (session : Text) (update : AgentUpdate) (n : ℕ)
    → event_seq (event_of_update session n update) ≡ some n
unfolding event_of_update event_seq
event_of_update-numbered session (text_delta content) n = refl
event_of_update-numbered session (thinking_delta content) n = refl
event_of_update-numbered session (tool id title status content) n = refl
event_of_update-numbered session (plan plan_json) n = refl
event_of_update-numbered session (raw payload) n = refl

-- A prompt that failed: the session's number is taken before its thread is told, and used after.
failure-Grows :
    (fresh : Text × Text) (session message : Text) (f : Feed)
    → Grows f (handle_prompt_completion fresh session (err message) f)
unfolding handle_prompt_completion journal_and_broadcast_event session_append session_next_seq run
    call emit_entry event_session_id event_seq
failure-Grows fresh session message f =
    let (seq, log) = session_next_seq session f.session_log in
    let ended = finalize-Grows session seq failed none (record f { session_log = log }) in
    record {
      in_threads = ended.in_threads;
      threads_grow = ended.threads_grow;
      in_sessions =
          record {
            id = session;
            make = λ k. error (some session) (some k) (codes "prompt_failed") message;
            owned = λ k. refl;
            numbered = λ k. refl;
          }
          ∷ [];
      sessions_grow =
          ap (session_append (error (some session) (some seq) (codes "prompt_failed") message))
            (finalize-session_log session seq failed none (record f { session_log = log }));
    }

take_input-Grows : (i : Input) (f : Feed) → Grows f (take_input i f)
unfolding take_input session_update handle_prompt_completion map_session_update event_session_id
    event_seq
take_input-Grows (updated fresh session n) f =
    emit_in_session-Grows fresh session (λ seq. event_of_update session seq n.update) f
      (event_of_update-owned session n.update) (event_of_update-numbered session n.update)
take_input-Grows (prompted fresh session (ok reason)) f =
    emit_in_session-Grows fresh session (λ seq. turn_end session seq reason) f (λ k. refl)
      (λ k. refl)
take_input-Grows (prompted fresh session (err message)) f = failure-Grows fresh session message f

-- Whatever agents send, updates, ends of prompts and failures in any order, the journals of threads and
-- of sessions change only as by taking a number of an id and appending an event of that id with that
-- number.
pub take_inputs-Grows : (is : List Input) (f : Feed) → Grows f (take_inputs is f)
unfolding take_inputs
take_inputs-Grows [] f = Grows-refl f
take_inputs-Grows (i ∷ is) f =
    Grows-trans (take_input-Grows i f) (take_inputs-Grows is (take_input i f))
