-- ===== src/Sessions/Recorded.antt =====
-- session_store.rs: the transcript of one session, over sequences of calls on a store.
use agentchat.Prelude.{
  ◌≡◌, refl, ap, ◌∙◌, ℕ, List, [], ◌∷◌, ◌++◌, Option, none, some, if◌then◌else◌, lookup,
  lookup-insert, lookup-erase, lookup-modify, ◌==◌, list_eq, nat_eq, arith,
}
use agentchat.Text.{Text}
use agentchat.Protocol.Wire.{Json}
use agentchat.Server.{AgentNotification}
use agentchat.Sessions.Transcripts.{
  SessionEvent, SessionTranscript, SessionStore, TranscriptCodec, start_session, pushed, push_event,
  push_update, record_prompt, record_notification, record_turn_end, remove_session,
  new_with_sessions_dir, get_transcript, user_prompt, agent_update, turn_ended,
}

pub data Call : Type 0 where
  start : (id agent working_dir : Text) → Call
  prompt : (id content : Text) → Call
  notify : (id : Text) (n : AgentNotification) → Call
  end : (id stop_reason : Text) → Call
  remove : (id : Text) → Call

abbrev pub session_of : Call → Text
session_of (start id _ _) = id
session_of (prompt id _) = id
session_of (notify id _) = id
session_of (end id _) = id
session_of (remove id) = id

-- A transcript that is there, with one more event at its end.
abbrev noted : SessionEvent → Option SessionTranscript → Option SessionTranscript
noted event none = none
noted event (some t) = some (record t { events = t.events ++ event ∷ [] })

abbrev updated : ℕ → Option Json → Option SessionTranscript → Option SessionTranscript
updated now none t = t
updated now (some json) t = noted (agent_update json now) t

get_transcript-push_update :
    (id i : Text) (now : ℕ) (s : SessionStore) (o : Option Json)
    → lookup (push_update i now s o).transcripts id
      ≡ (if i == id then updated now o (lookup s.transcripts id) else lookup s.transcripts id)
unfolding push_update push_event
get_transcript-push_update id i now s none = ground arith
get_transcript-push_update id i now s (some json) =
    lookup-modify s.transcripts i id (pushed (agent_update json now))

module _ (codec : TranscriptCodec) where
  -- Calls with the clock's readings.
  abbrev call : Call × ℕ → SessionStore → SessionStore
  call (start id agent dir, now) s = start_session id agent dir now s
  call (prompt id content, now) s = record_prompt id content now s
  call (notify id n, now) s = record_notification codec id n now s
  call (end id reason, now) s = record_turn_end id reason now s
  call (remove id, now) s = (remove_session id s).1

  abbrev pub run : List (Call × ℕ) → SessionStore → SessionStore
  run [] s = s
  run (c ∷ cs) s = run cs (call c s)

  abbrev next : Call × ℕ → Option SessionTranscript → Option SessionTranscript
  next (start id agent dir, now) t = some (record {
    session_id = id;
    agent_id = agent;
    working_dir = dir;
    created_at_ms = now;
    events = [];
  })
  next (prompt id content, now) t = noted (user_prompt content now) t
  next (notify id n, now) t = updated now (codec.to_value n) t
  next (end id reason, now) t = noted (turn_ended reason now) t
  next (remove id, now) t = none

  -- What the calls on one session make of its transcript, the others being left out.
  pub transcript_of : Text → List (Call × ℕ) → Option SessionTranscript → Option SessionTranscript
  transcript_of id [] t = t
  transcript_of id (c ∷ cs) t = transcript_of id cs (if session_of c.0 == id then next c t else t)

  get_transcript-call :
      (id : Text) (c : Call × ℕ) (s : SessionStore)
      → lookup (call c s).transcripts id ≡ (
          if session_of c.0 == id
          then next c (lookup s.transcripts id)
          else lookup s.transcripts id)
  unfolding start_session record_prompt record_notification record_turn_end remove_session
      push_event
  get_transcript-call id (start i agent dir, now) s = lookup-insert s.transcripts i id _
  get_transcript-call id (prompt i content, now) s =
      lookup-modify s.transcripts i id (pushed (user_prompt content now))
  get_transcript-call id (notify i n, now) s =
      get_transcript-push_update id i now s (codec.to_value n)
  get_transcript-call id (end i reason, now) s =
      lookup-modify s.transcripts i id (pushed (turn_ended reason now))
  get_transcript-call id (remove i, now) s = lookup-erase s.transcripts i id

  get_transcript-run :
      (id : Text) (cs : List (Call × ℕ)) (s : SessionStore)
      → lookup (run cs s).transcripts id ≡ transcript_of id cs (lookup s.transcripts id)
  unfolding transcript_of
  get_transcript-run id [] s = refl
  get_transcript-run id (c ∷ cs) s =
      get_transcript-run id cs (call c s) ∙ ap (transcript_of id cs) (get_transcript-call id c s)

-- After any calls on a new store, a session's transcript is what the calls on this session make,
-- whatever is called on others: none before it is started and after it is removed, else the record of
-- its last start, with the prompts, the notifications that have a JSON value and the ends of turns
-- since then, in order and with their times.
pub get_transcript-calls :
    (codec : TranscriptCodec) (dir id : Text) (cs : List (Call × ℕ))
    → get_transcript (run codec cs (new_with_sessions_dir dir)) id ≡ transcript_of codec id cs none
unfolding get_transcript new_with_sessions_dir
get_transcript-calls codec dir id cs = get_transcript-run codec id cs _
