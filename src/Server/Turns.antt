-- ===== src/Server/Turns.antt =====
-- app.rs: the end of an agent's turn in a thread, after the agent's chunks.
use agentchat.Prelude.{
  ℕ, ◌≡◌, refl, sym, ap, subst, ◌∙◌, true, List, [], ◌∷◌, ◌++◌, none, some, unwrap_or,
  saturating_suc64, lookup, erase, lookup-insert_self, lookup-erase_self, list_eq, nat_eq,
}
use agentchat.Text.{Text, codes}
use agentchat.Protocol.Wire.{
  event_thread_id, thread_seq, thread_agent_turn_end, turn_end, event_session_id, event_seq,
  completed, thread_assistant_message,
}
use agentchat.Logs.{take_seq, append, thread_append}
use agentchat.Logs.Refinement.{next_of}
use agentchat.Threads.{ThreadSessionBinding, binding_for_session}
use agentchat.Server.Feed.{
  ActiveAssistantMessage, Feed, new_message, emit_in_thread, journal_and_broadcast_thread_event,
  is_shown, message_event, end_turn, finalize_active_assistant_message, feed_bound, feed_thread,
}
use agentchat.Server.Streams.{Chunk, stream, thoughts, answers, assembled, stream-assembled}

-- The end of a turn on an open message.
finalize-open :
    (session : Text) (n : ℕ) (reason : Text) (g : Feed) {b : ThreadSessionBinding}
    {m : ActiveAssistantMessage}
    → binding_for_session session g.threads ≡ some b
    → lookup g.active session ≡ some m
    → finalize_active_assistant_message session n completed (some reason) g
      ≡ end_turn b session n m completed (some reason) (
          emit_in_thread b.thread_id
            (message_event b session n m completed (some reason))
            (record g { active = erase g.active session }))
unfolding finalize_active_assistant_message
finalize-open session n reason g bound open_now =
    rw (finalize_active_assistant_message, bound, open_now) refl

feed_thread-turn_end :
    (fresh : Text × Text) (session : Text) (n : ℕ) (reason : Text) (g : Feed)
    {b : ThreadSessionBinding}
    → binding_for_session session g.threads ≡ some b
    → feed_thread fresh (turn_end session n reason) g
      ≡ finalize_active_assistant_message session n completed (some reason) g
unfolding feed_thread event_session_id event_seq feed_bound
feed_thread-turn_end fresh session n reason g e = rw (feed_thread, e) refl

turn_end-open :
    (session : Text) (n : ℕ) (reason : Text) (g : Feed) (b : ThreadSessionBinding)
    (m : ActiveAssistantMessage)
    → let seq = next_of event_thread_id thread_seq b.thread_id g.thread_log in
      let h = end_turn b session n m completed (some reason) (
        emit_in_thread b.thread_id
          (message_event b session n m completed (some reason))
          (record g { active = erase g.active session })) in
      (h.sent
        ≡ g.sent
          ++ message_event b session n m completed (some reason) seq ∷ []
          ++ thread_agent_turn_end b.thread_id
              (saturating_suc64 seq)
              m.turn_id
              b.participant_id
              b.agent_id
              session
              n
              reason
            ∷ [])
      × (lookup h.active session ≡ none)
unfolding end_turn emit_in_thread take_seq journal_and_broadcast_thread_event thread_append append
    event_thread_id
turn_end-open session n reason g b m = (
  ap
      (λ k.
        g.sent
        ++ message_event b session n m completed (some reason)
            (next_of event_thread_id thread_seq b.thread_id g.thread_log)
          ∷ []
        ++ thread_agent_turn_end b.thread_id (unwrap_or 1 k) m.turn_id b.participant_id b.agent_id
            session n reason
          ∷ [])
      (lookup-insert_self g.thread_log.next_seqs b.thread_id _),
  lookup-erase_self g.active session,
)

-- Where a session bound to a thread has no open message, then sends chunks, of which the first is
-- shown, and ends its turn, the thread is sent one message of that turn, by the session's participant:
-- its thinking is the thinking chunks put together in order, its response the text chunks, its state
-- `completed`, and it has the reason to stop. Then comes the end of the turn. These two have the next
-- two numbers of the thread, and the session has no open message any more.
pub turn_end-stream :
    (session : Text) (c : Chunk) (cs : List Chunk) (f : Feed) (b : ThreadSessionBinding)
    (fresh : Text × Text) (n : ℕ) (reason : Text)
    → binding_for_session session f.threads ≡ some b
    → lookup f.active session ≡ none
    → is_shown c.kind c.content ≡ true
    → let g = stream session (c ∷ cs) f in
      let h = feed_thread fresh (turn_end session n reason) g in
      let seq = next_of event_thread_id thread_seq b.thread_id g.thread_log in
      (h.sent
        ≡ g.sent
          ++ thread_assistant_message b.thread_id seq
              (codes "message-" ++ c.fresh.0)
              (codes "turn-" ++ c.fresh.1)
              b.participant_id
              b.agent_id
              session
              n
              (thoughts (c ∷ cs))
              (answers (c ∷ cs))
              completed
              (some reason)
            ∷ []
          ++ thread_agent_turn_end b.thread_id
              (saturating_suc64 seq)
              (codes "turn-" ++ c.fresh.1)
              b.participant_id
              b.agent_id
              session
              n
              reason
            ∷ [])
      × (lookup h.active session ≡ none)
unfolding new_message
turn_end-stream session c cs f b fresh n reason bound idle shown =
    let g = stream session (c ∷ cs) f in
    let streamed = stream-assembled session c cs f b bound idle shown in
    let still_bound : binding_for_session session g.threads ≡ some b =
      ap (binding_for_session session) streamed.0 ∙ bound in
    subst
      (λ h.
        (h.sent
          ≡ g.sent
            ++ message_event b session n (assembled c cs) completed (some reason)
                (next_of event_thread_id thread_seq b.thread_id g.thread_log)
              ∷ []
            ++ thread_agent_turn_end b.thread_id
                (saturating_suc64 (next_of event_thread_id thread_seq b.thread_id g.thread_log))
                (assembled c cs).turn_id b.participant_id b.agent_id session n reason
              ∷ [])
        × (lookup h.active session ≡ none))
      (sym (
        feed_thread-turn_end fresh session n reason g still_bound
        ∙ finalize-open session n reason g still_bound streamed.1))
      (turn_end-open session n reason g b (assembled c cs))
