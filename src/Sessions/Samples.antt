-- ===== src/Sessions/Samples.antt =====
-- A session with a prompt and the end of its turn, between calls on another.
use agentchat.Prelude.{◌≡◌, refl, ℕ, List, [], ◌∷◌, none, some, ok, list_eqb}
use agentchat.Text.{codes}
use agentchat.Sessions.Transcripts.{
  SessionTranscript, TranscriptCodec, get_transcript, new_with_sessions_dir, user_prompt,
  turn_ended, remove_session, record_turn_end, record_prompt, start_session,
}
use agentchat.Sessions.Recorded.{
  Call, start, prompt, end, remove, run, transcript_of, get_transcript-calls,
}

abbrev blank : SessionTranscript
blank = record { session_id = []; agent_id = []; working_dir = []; created_at_ms = 0; events = [] }

abbrev codec : TranscriptCodec
codec = record { to_json = λ t. ok []; of_json = λ t. ok blank; to_value = λ n. none }

abbrev made : List (Call × ℕ)
made =
    (start (codes "s1") (codes "codex") (codes "/w"), 1)
    ∷ (start (codes "s2") (codes "codex") (codes "/w"), 2)
    ∷ (prompt (codes "s1") (codes "fix"), 3)
    ∷ (prompt (codes "s2") (codes "look"), 4)
    ∷ (end (codes "s1") (codes "end_turn"), 5)
    ∷ (remove (codes "s2"), 6)
    ∷ []

recorded :
    get_transcript (run codec made (new_with_sessions_dir (codes "/d"))) (codes "s1")
    ≡ some (record {
      session_id = codes "s1";
      agent_id = codes "codex";
      working_dir = codes "/w";
      created_at_ms = 1;
      events = user_prompt (codes "fix") 3 ∷ turn_ended (codes "end_turn") 5 ∷ [];
    })
unfolding get_transcript list_eqb remove_session record_turn_end record_prompt start_session
    new_with_sessions_dir
recorded = refl

get_transcript-calls_example :
    get_transcript (run codec made (new_with_sessions_dir (codes "/d"))) (codes "s1")
    ≡ transcript_of codec (codes "s1") made none
get_transcript-calls_example = get_transcript-calls codec (codes "/d") (codes "s1") made
