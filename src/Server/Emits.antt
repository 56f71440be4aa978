-- ===== src/Server/Emits.antt =====
-- app.rs: the journals of threads and sessions, when agents send updates.
use agentchat.Prelude.{
  ℕ, ◌≡◌, refl, sym, ap, ◌∙◌, inl, inr, List, [], ◌∷◌, ◌++◌, Option, none, some, if_cases, HashMap,
  lookup, erase, list_eq, nat_eq, Option-cases, map,
}
use agentchat.Text.{Text}
use agentchat.Protocol.Wire.{
  ResponseEvent, thread_agent_turn_end, thread_agent_plan_update, thread_agent_tool_update,
  event_thread_id, thread_seq, event_session_id, event_seq, delta, plan_update, tool_update,
  turn_end, AssistantMessageState, completed, streaming, failed,
}
use agentchat.Logs.{Journal, thread_append}
use agentchat.Logs.Sequence.{Entry, emit, emit_entry, call, run}
use agentchat.Threads.{ThreadSessionBinding, binding_for_session}
use agentchat.Server.Feed.{
  ActiveAssistantMessage, Feed, emit_in_thread, ensure_active_assistant_message,
  journal_and_broadcast_thread_event, message_event, show_delta, end_turn,
  finalize_active_assistant_message, feed_bound, feed_thread, is_shown,
}

abbrev pub ThreadEntry : Type 0
ThreadEntry = Entry event_thread_id thread_seq

abbrev pub SessionEntry : Type 0
SessionEntry = Entry event_session_id event_seq

-- One state of the feed after another: the journals are what emitting some entries makes of them.
pub record Grows (f g : Feed) : Type 0 where
  pub in_threads : List ThreadEntry
  pub threads_grow :
      g.thread_log ≡ run event_thread_id thread_seq (map emit in_threads) f.thread_log
  pub in_sessions : List SessionEntry
  pub sessions_grow :
      g.session_log ≡ run event_session_id event_seq (map emit in_sessions) f.session_log

pub Grows-refl : (f : Feed) → Grows f f
unfolding run
Grows-refl f = record {
  in_threads = [];
  threads_grow = refl;
  in_sessions = [];
  sessions_grow = refl;
}

module _ {Event : Type 0} (id_of : Event → Option Text) (seq_of : Event → Option ℕ) where
  run-emits :
      (es ds : List (Entry id_of seq_of)) (j : Journal Event)
      → run id_of seq_of (map emit (es ++ ds)) j
        ≡ run id_of seq_of (map emit ds) (run id_of seq_of (map emit es) j)
  unfolding run
  run-emits [] ds j = refl
  run-emits (e ∷ es) ds j = run-emits es ds (call id_of seq_of (emit e) j)

pub Grows-trans : {f g h : Feed} → Grows f g → Grows g h → Grows f h
Grows-trans {f} a b = record {
  in_threads = a.in_threads ++ b.in_threads;
  threads_grow =
      b.threads_grow
      ∙ ap (run event_thread_id thread_seq (map emit b.in_threads)) a.threads_grow
      ∙ sym (run-emits event_thread_id thread_seq a.in_threads b.in_threads f.thread_log);
  in_sessions = a.in_sessions ++ b.in_sessions;
  sessions_grow =
      b.sessions_grow
      ∙ ap (run event_session_id event_seq (map emit b.in_sessions)) a.sessions_grow
      ∙ sym (run-emits event_session_id event_seq a.in_sessions b.in_sessions f.session_log);
}

emit_in_thread-Grows :
    (f : Feed) (thread : Text) (event : ℕ → ResponseEvent)
    → ((n : ℕ) → event_thread_id (event n) ≡ some thread)
    → ((n : ℕ) → thread_seq (event n) ≡ some n)
    → Grows f (emit_in_thread thread event f)
unfolding emit_in_thread journal_and_broadcast_thread_event thread_append run call emit_entry
emit_in_thread-Grows f thread event owned numbered = record {
  in_threads = record { id = thread; make = event; owned = owned; numbered = numbered } ∷ [];
  threads_grow = refl;
  in_sessions = [];
  sessions_grow = refl;
}

-- What does not touch the journals.
pub same_logs :
    {f g : Feed} → g.thread_log ≡ f.thread_log → g.session_log ≡ f.session_log → Grows f g
unfolding run
same_logs t s = record { in_threads = []; threads_grow = t; in_sessions = []; sessions_grow = s }

-- An emission after the open messages have changed.
pub emit_with-Grows :
    (f : Feed) (active : HashMap Text ActiveAssistantMessage) (thread : Text)
    (event : ℕ → ResponseEvent)
    → ((n : ℕ) → event_thread_id (event n) ≡ some thread)
    → ((n : ℕ) → thread_seq (event n) ≡ some n)
    → Grows f (emit_in_thread thread event (record f { active = active }))
emit_with-Grows f active thread event owned numbered =
    Grows-trans (same_logs refl refl) (emit_in_thread-Grows _ thread event owned numbered)

message-Grows :
    (f : Feed) (active : HashMap Text ActiveAssistantMessage) (b : ThreadSessionBinding)
    (session : Text) (n : ℕ) (m : ActiveAssistantMessage) (state : AssistantMessageState)
    (reason : Option Text)
    → Grows f (
        emit_in_thread b.thread_id
          (message_event b session n m state reason)
          (record f { active = active }))
unfolding event_thread_id thread_seq
message-Grows f active b session n m state reason =
    emit_with-Grows f active b.thread_id (message_event b session n m state reason) (λ k. refl)
      (λ k. refl)

end_turn-Grows :
    (b : ThreadSessionBinding) (session : Text) (n : ℕ) (m : ActiveAssistantMessage)
    (state : AssistantMessageState) (reason : Option Text) (f : Feed)
    → Grows f (end_turn b session n m state reason f)
unfolding end_turn event_thread_id thread_seq
end_turn-Grows b session n m completed (some reason) f =
    emit_in_thread-Grows f b.thread_id
      (λ seq.
        thread_agent_turn_end b.thread_id seq m.turn_id b.participant_id b.agent_id session n
          reason)
      (λ k. refl) (λ k. refl)
end_turn-Grows b session n m completed none f = Grows-refl f
end_turn-Grows b session n m streaming reason f = Grows-refl f
end_turn-Grows b session n m failed reason f = Grows-refl f

pub finalize-Grows :
    (session : Text) (n : ℕ) (state : AssistantMessageState) (reason : Option Text) (f : Feed)
    → Grows f (finalize_active_assistant_message session n state reason f)
unfolding finalize_active_assistant_message
finalize-Grows session n state reason f =
    elim (Option-cases (binding_for_session session f.threads)) [
      | inl e ↦ rw (finalize_active_assistant_message, e) (same_logs refl refl)
      | inr (b, e) ↦ elim (Option-cases (lookup f.active session)) [
        | inl i ↦ rw (finalize_active_assistant_message, e, i) (same_logs refl refl)
        | inr (m, i) ↦
            rw (finalize_active_assistant_message, e, i)
              (Grows-trans (message-Grows f (erase f.active session) b session n m state reason)
                (end_turn-Grows b session n m state reason _))
      ]
    ]

feed_bound-Grows :
    (fresh : Text × Text) (b : ThreadSessionBinding) (n : ℕ) (event : ResponseEvent) (f : Feed)
    → Grows f (feed_bound fresh b n event f)
unfolding feed_bound show_delta event_thread_id thread_seq
feed_bound-Grows fresh b n (delta session _ content kind) f =
    if_cases (Grows f) (is_shown kind content) (λ _. message-Grows f _ b session n _ streaming none)
      (λ _. Grows-refl f)
feed_bound-Grows fresh b n (plan_update session _ plan_json) f =
    let m = (ensure_active_assistant_message fresh session f.active).0 in
    emit_with-Grows f _ b.thread_id
      (λ seq.
        thread_agent_plan_update b.thread_id seq m.turn_id b.participant_id b.agent_id session n
          plan_json)
      (λ k. refl) (λ k. refl)
feed_bound-Grows fresh b n (tool_update session _ tool_call_id title status content) f =
    let m = (ensure_active_assistant_message fresh session f.active).0 in
    emit_with-Grows f _ b.thread_id
      (λ seq.
        thread_agent_tool_update b.thread_id seq m.turn_id b.participant_id b.agent_id session n
          tool_call_id title status content)
      (λ k. refl) (λ k. refl)
feed_bound-Grows fresh b n (turn_end session _ stop_reason) f =
    finalize-Grows session n completed (some stop_reason) f
feed_bound-Grows fresh b n _ f = Grows-refl f

pub feed_thread-Grows :
    (fresh : Text × Text) (event : ResponseEvent) (f : Feed) → Grows f (feed_thread fresh event f)
unfolding feed_thread
feed_thread-Grows fresh event f = elim (Option-cases (event_session_id event)) [
  | inl e ↦ rw (feed_thread, e) (Grows-refl f)
  | inr (session, e) ↦ elim (Option-cases (binding_for_session session f.threads)) [
    | inl i ↦ rw (feed_thread, e, i) (Grows-refl f)
    | inr (b, i) ↦ elim (Option-cases (event_seq event)) [
      | inl k ↦ rw (feed_thread, e, i, k) (Grows-refl f)
      | inr (n, k) ↦ rw (feed_thread, e, i, k) (feed_bound-Grows fresh b n event f)
    ]
  ]
]
