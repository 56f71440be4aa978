-- ===== src/Sessions/Transcripts.antt =====
-- session_store.rs: `SessionStore`, and the transcripts of daemon/protocol/src/lib.rs. The files, the
-- errors of the file system and `serde_json` are as in Run/Store; the JSON value of a notification is
-- an argument.
use agentchat.Prelude.{
  ℕ, List, [], ◌∷◌, ◌++◌, Option, none, some, HashMap, lookup, insert, erase, modify, values,
  Result, ok, ◌>>=◌, list_eq, nat_eq,
}
use agentchat.Text.{Text, codes, path_join}
use agentchat.Protocol.Wire.{Json}
use agentchat.Run.Store.{Files, FlushFaults, fails_with, or_else_err, map_err, not_found}
use agentchat.Server.{AgentNotification}

pub data SessionEvent : Type 0 where
  user_prompt : (content : Text) (timestamp_ms : ℕ) → SessionEvent
  agent_update : (notification_json : Json) (timestamp_ms : ℕ) → SessionEvent
  turn_ended : (stop_reason : Text) (timestamp_ms : ℕ) → SessionEvent

pub record SessionTranscript : Type 0 where
  pub session_id : Text
  pub agent_id : Text
  pub working_dir : Text
  pub created_at_ms : ℕ
  pub events : List SessionEvent

pub record SessionStore : Type 0 where
  pub transcripts : HashMap Text SessionTranscript
  pub sessions_dir : Text

-- `serde_json::to_string_pretty` and `from_str` at `SessionTranscript`, and `to_value` of a notification.
pub record TranscriptCodec : Type 0 where
  pub to_json : SessionTranscript → Result Text Text
  pub of_json : Text → Result Text SessionTranscript
  pub to_value : AgentNotification → Option Json

unfoldable pub new_with_sessions_dir : Text → SessionStore
new_with_sessions_dir sessions_dir = record { transcripts = []; sessions_dir = sessions_dir }

unfoldable pub new_session_store : Text → SessionStore
unfolding path_join new_with_sessions_dir
new_session_store project_root =
    new_with_sessions_dir
      (path_join (path_join project_root (codes ".agentchat")) (codes "sessions"))

unfoldable pub start_session : Text → Text → Text → ℕ → SessionStore → SessionStore
unfolding insert
start_session id agent working_dir now s = record s {
  transcripts = insert s.transcripts id (record {
    session_id = id;
    agent_id = agent;
    working_dir = working_dir;
    created_at_ms = now;
    events = [];
  });
}

-- `transcript.events.push(event)`.
abbrev pub pushed : SessionEvent → SessionTranscript → SessionTranscript
pushed event t = record t { events = t.events ++ event ∷ [] }

-- A transcript that is there takes one more event.
unfoldable pub push_event : Text → SessionEvent → SessionStore → SessionStore
unfolding modify
push_event id event s = record s { transcripts = modify s.transcripts id (pushed event) }

unfoldable pub record_prompt : Text → Text → ℕ → SessionStore → SessionStore
unfolding push_event
record_prompt id content now s = push_event id (user_prompt content now) s

-- A notification that has no JSON is not recorded.
unfoldable pub push_update : Text → ℕ → SessionStore → Option Json → SessionStore
unfolding push_event
push_update id now s none = s
push_update id now s (some json) = push_event id (agent_update json now) s

unfoldable pub record_notification :
    TranscriptCodec → Text → AgentNotification → ℕ → SessionStore → SessionStore
unfolding push_update
record_notification codec id n now s = push_update id now s (codec.to_value n)

unfoldable pub record_turn_end : Text → Text → ℕ → SessionStore → SessionStore
unfolding push_event
record_turn_end id stop_reason now s = push_event id (turn_ended stop_reason now) s

unfoldable pub get_transcript : SessionStore → Text → Option SessionTranscript
unfolding lookup
get_transcript s id = lookup s.transcripts id

unfoldable pub list_transcripts : SessionStore → List SessionTranscript
list_transcripts s = values s.transcripts

unfoldable pub remove_session : Text → SessionStore → Option SessionTranscript × SessionStore
unfolding lookup erase
remove_session id s = (lookup s.transcripts id, record s { transcripts = erase s.transcripts id })

unfoldable pub transcript_path : SessionStore → Text → Text
unfolding path_join
transcript_path s id = path_join s.sessions_dir (id ++ codes ".json")

-- The path that is written, and the files after it.
unfoldable pub flush_session :
    TranscriptCodec → FlushFaults → Text → SessionStore → Files → Result Text (Text × Files)
unfolding lookup insert transcript_path
flush_session codec faults id s files = do
  transcript ← or_else_err (lookup s.transcripts id) (codes "session not found: " ++ id)
  json ←
      map_err (codes "failed to serialize transcript " ++ (id ++ codes ": "))
        (codec.to_json transcript)
  _ ← fails_with faults.create_dir_all (codes "failed to create sessions dir: ")
  _ ← fails_with faults.write (codes "failed to write transcript " ++ (id ++ codes ": "))
  ok (transcript_path s id, insert files (transcript_path s id) json)

unfoldable pub load_transcript :
    TranscriptCodec → Option Text → SessionStore → Text → Files → Result Text SessionTranscript
unfolding lookup transcript_path
load_transcript codec fault s id files = do
  _ ← fails_with fault (codes "failed to read transcript " ++ (id ++ codes ": "))
  json ←
      or_else_err (lookup files (transcript_path s id))
        (codes "failed to read transcript " ++ (id ++ codes ": " ++ not_found))
  map_err (codes "failed to parse transcript " ++ (id ++ codes ": ")) (codec.of_json json)
