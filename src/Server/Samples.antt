-- ===== src/Server/Samples.antt =====
-- An agent's turn in a thread, from its first chunk to its end, a client that comes back, and messages
-- with mentions.
use agentchat.Prelude.{map, ℕ, ◌&&◌, All}
use agentchat.Threads.{ThreadParticipantRecord, default_settings}
use agentchat.Protocol.Wire.{ParticipantKind}
use agentchat.Server.Mentions.{parse_agent_mention_spans}
use agentchat.Server.Spans.{Spans, parse_agent_mention_spans-Spans}
use agentchat.Server.Send.{handle_send_thread_message}
use agentchat.Server.Targets.{IsAllowed, handle_send_thread_message-IsAllowed}
use agentchat.Prelude.{
  ◌≡◌, refl, true, false, List, [], ◌∷◌, ◌++◌, none, some, if◌then◌else◌, ltb, length, drop, lookup,
  saturating_suc64, list_eqb, ok, err, list_eq, nat_eq, arith,
}
use agentchat.Text.{Text, codes}
use agentchat.Protocol.Wire.{
  Unicode, thread_participant_removed, thread_agent_turn_end, thread_assistant_message,
  thread_attached, thread_snapshot, thread_replay_complete, turn_end, text, thinking, tool_use,
  completed, event_thread_id, thread_seq,
}
use agentchat.Logs.Sequence.{Entry, Call, emit, number}
use agentchat.Logs.Refinement.{next_of, emitted_by}
use agentchat.Threads.{
  ThreadSessionBinding, ThreadRecord, ThreadStore, binding_for_session, get_thread,
}
use agentchat.Server.Feed.{Feed, feed_thread}
use agentchat.Server.Updates.{Input, updated, prompted, text_delta, take_inputs}
use agentchat.Server.Streams.{Chunk, stream}
use agentchat.Server.Turns.{turn_end-stream}
use agentchat.Server.Emits.{Grows}
use agentchat.Server.Inputs.{take_inputs-Grows}
use agentchat.Server.Attach.{Liveness, build_thread_snapshot, handle_attach_thread, ahead_of_tail}
use agentchat.Server.Replays.{journal, handle_attach_thread-replays}

abbrev talk : Text
talk = codes "thread-1"

abbrev session : Text
session = codes "session-1"

abbrev bound : ThreadSessionBinding
bound = record {
  thread_id = talk;
  participant_id = codes "p1";
  agent_id = codes "codex";
  session_id = session;
  display_name = codes "Codex";
}

abbrev record_of_talk : ThreadRecord
record_of_talk = record {
  thread_id = talk;
  title = none;
  working_dir = codes "/w";
  created_at_ms = 1;
  participants = [];
}

abbrev threads : ThreadStore
threads = record {
  threads = (talk, record_of_talk) ∷ [];
  session_to_binding = (session, bound) ∷ [];
}

abbrev quiet : Feed
quiet = record {
  threads = threads;
  thread_log = record { next_seqs = []; events = [] };
  session_log = record { next_seqs = []; events = [] };
  active = [];
  sent = [];
}

abbrev opening : Chunk
opening = record { fresh = (codes "m", codes "t"); seq = 1; kind = thinking; content = codes "hm" }

abbrev later : List Chunk
later =
    record { fresh = (codes "n", codes "u"); seq = 2; kind = text; content = codes "ye" }
    ∷ record { fresh = (codes "o", codes "v"); seq = 3; kind = tool_use; content = codes "ls" }
    ∷ record { fresh = (codes "o", codes "v"); seq = 4; kind = text; content = codes "s" }
    ∷ []

turn_end-stream_example :
    let g = stream session (opening ∷ later) quiet in
    let h = feed_thread (codes "x", codes "y") (turn_end session 5 (codes "end_turn")) g in
    let seq = next_of event_thread_id thread_seq bound.thread_id g.thread_log in
    (h.sent
      ≡ g.sent
        ++ thread_assistant_message bound.thread_id seq
            (codes "message-m")
            (codes "turn-t")
            bound.participant_id
            bound.agent_id
            session
            5
            (codes "hm")
            (codes "yes")
            completed
            (some (codes "end_turn"))
          ∷ []
        ++ thread_agent_turn_end bound.thread_id
            (saturating_suc64 seq)
            (codes "turn-t")
            bound.participant_id
            bound.agent_id
            session
            5
            (codes "end_turn")
          ∷ [])
    × (lookup h.active session ≡ none)
unfolding binding_for_session list_eqb
turn_end-stream_example =
    turn_end-stream session opening later quiet bound (codes "x", codes "y") 5 (codes "end_turn")
      refl refl refl

abbrev inputs : List Input
inputs =
    updated (codes "m", codes "t") session
      (record { session_id = codes "up-1"; update = text_delta (codes "yes") })
    ∷ prompted (codes "n", codes "u") session (err (codes "gone"))
    ∷ prompted (codes "n", codes "u") session (ok (codes "end_turn"))
    ∷ []

take_inputs-Grows_example : Grows quiet (take_inputs inputs quiet)
take_inputs-Grows_example = take_inputs-Grows inputs quiet

abbrev removal : Text → Entry event_thread_id thread_seq
removal participant = record {
  id = talk;
  make = λ n. thread_participant_removed talk n participant;
  owned = λ n. unfold event_thread_id in refl;
  numbered = λ n. unfold thread_seq in refl;
}

abbrev made : List (Call event_thread_id thread_seq)
made = emit (removal (codes "p1")) ∷ emit (removal (codes "p2")) ∷ emit (removal (codes "p3")) ∷ []

abbrev plain : Unicode
plain = record { to_lowercase = λ c. c ∷ []; is_alphanumeric = λ c. true }

abbrev idle : Liveness
idle = record { is_prompting = λ s. false; is_agent_alive = λ a. true; has_binding = λ s. true }

handle_attach_thread-replays_example :
    let entries = emitted_by event_thread_id thread_seq made talk in
    handle_attach_thread plain idle threads (journal made) talk (some 2) ≡ (
      if ltb (length entries) 2
      then ahead_of_tail 2 (length entries) ∷ []
      else thread_attached talk
        ∷ thread_snapshot (build_thread_snapshot plain idle (journal made) record_of_talk)
        ∷ (number event_thread_id thread_seq 3 (drop 2 entries)
            ++ thread_replay_complete talk (length entries) ∷ []))
unfolding get_thread list_eqb
handle_attach_thread-replays_example =
    handle_attach_thread-replays plain idle threads made talk 2 record_of_talk (omega arith) refl
      refl

-- Two agents, and a message for both.
abbrev agent : Text → Text → Text → ThreadParticipantRecord
agent id name own = record {
  participant_id = id;
  kind = ParticipantKind.agent;
  agent_id = some name;
  session_id = some own;
  display_name = name;
  mention_handle = name;
  avatar = [];
  settings = default_settings;
}

abbrev pair : ThreadRecord
pair = record record_of_talk {
  participants =
      agent (codes "p1") (codes "codex") session
      ∷ agent (codes "p2") (codes "opencode") (codes "session-2")
      ∷ [];
}

abbrev pair_feed : Feed
pair_feed = record quiet { threads = record threads { threads = (talk, pair) ∷ [] } }

-- ASCII letters.
abbrev ascii : Unicode
ascii = record { to_lowercase = λ c. c ∷ []; is_alphanumeric = λ c. ltb 96 c && ltb c 123 }

parse_agent_mention_spans-Spans_example :
    Spans
      (codes "ask @codex, or @opencode!")
      0
      (parse_agent_mention_spans ascii (codes "ask @codex, or @opencode!"))
parse_agent_mention_spans-Spans_example =
    parse_agent_mention_spans-Spans ascii refl (codes "ask @codex, or @opencode!")

handle_send_thread_message-IsAllowed_example :
    All
      (IsAllowed pair (some (codes "p1" ∷ [])))
      (handle_send_thread_message ascii
        (λ s. s)
        (codes "x")
        talk
        (codes "@codex look")
        (some (codes "p1" ∷ []))
        pair_feed).1
unfolding get_thread list_eqb
handle_send_thread_message-IsAllowed_example =
    handle_send_thread_message-IsAllowed ascii (λ s. s) (codes "x") talk (codes "@codex look")
      (some (codes "p1" ∷ [])) pair_feed pair refl

-- The sessions that a message prompts.
abbrev prompted_by : Text → List (Text × Text)
prompted_by content =
    map {B = Text × Text} (λ q. (q.session_id, q.content))
      (handle_send_thread_message ascii (λ s. s) (codes "x") talk content none pair_feed).1

spans_found :
    map {B = ℕ × ℕ}
      (λ m. (m.start, m.end))
      (parse_agent_mention_spans ascii (codes "ask @codex, or @opencode!"))
    ≡ (4, 10) ∷ (15, 24) ∷ []
unfolding parse_agent_mention_spans
spans_found = refl

each_its_part :
    prompted_by (codes "@codex look, @opencode fix")
    ≡ (session, codes "look,") ∷ (codes "session-2", codes "fix") ∷ []
unfolding handle_send_thread_message list_eqb
each_its_part = refl

-- An agent that is mentioned after the text gets no prompt.
mentioned_last : prompted_by (codes "@codex fix @opencode") ≡ (session, codes "fix") ∷ []
unfolding handle_send_thread_message list_eqb
mentioned_last = refl

-- Agents that are mentioned together get their text twice each.
mentioned_together :
    prompted_by (codes "@codex @opencode fix")
    ≡ (session, codes "fix")
      ∷ (codes "session-2", codes "fix")
      ∷ (session, codes "fix")
      ∷ (codes "session-2", codes "fix")
      ∷ []
unfolding handle_send_thread_message list_eqb
mentioned_together = refl
