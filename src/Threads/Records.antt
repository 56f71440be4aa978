-- ===== src/Threads/Records.antt =====
-- thread_store.rs: records, and the handle by which a message mentions a participant. An id that the
-- source makes from `Uuid::new_v4` is an argument.
use agentchat.Prelude.{
  ℕ, zero, suc, ◌%◌, Bool, true, false, ◌&&◌, not, List, [], ◌∷◌, ◌++◌, Option, none, some,
  if◌then◌else◌, any, is_empty, length, HashMap, ◌==◌, nat_eq, list_eq,
}
use agentchat.Text.{Text, codes, show_number}
use agentchat.Protocol.Wire.{
  ParticipantKind, human, agent, AgentSessionSettings, ThreadParticipant, ParticipantState,
  ThreadState, ThreadSummary, ThreadSnapshot, Unicode, canonical_mention_handle,
}

pub record ThreadParticipantRecord : Type 0 where
  pub participant_id : Text
  pub kind : ParticipantKind
  pub display_name : Text
  pub avatar : Text
  pub mention_handle : Text
  pub agent_id : Option Text
  pub session_id : Option Text
  pub settings : AgentSessionSettings

pub record ThreadRecord : Type 0 where
  pub thread_id : Text
  pub title : Option Text
  pub working_dir : Text
  pub created_at_ms : ℕ
  pub participants : List ThreadParticipantRecord

pub record ThreadSessionBinding : Type 0 where
  pub thread_id : Text
  pub participant_id : Text
  pub agent_id : Text
  pub session_id : Text
  pub display_name : Text

pub record ThreadStore : Type 0 where
  pub threads : HashMap Text ThreadRecord
  pub session_to_binding : HashMap Text ThreadSessionBinding

-- `kind == ParticipantKind::Agent`.
abbrev pub is_agent : ParticipantKind → Bool
is_agent human = false
is_agent agent = true

-- `Some(participant_id) != excluded_participant_id`.
abbrev pub differs : Text → Option Text → Bool
differs id none = true
differs id (some excluded) = not (id == excluded)

module _ (u : Unicode) where
  abbrev handle_of_agent : Option Text → Text
  handle_of_agent none = []
  handle_of_agent (some id) = canonical_mention_handle u id

  unfoldable pub effective_mention_handle : ThreadParticipantRecord → Text
  unfolding canonical_mention_handle
  effective_mention_handle p =
      if is_empty p.mention_handle then handle_of_agent p.agent_id else p.mention_handle

  -- Another participant answers to the handle.
  unfoldable pub is_taken : List ThreadParticipantRecord → Option Text → Text → Bool
  unfolding effective_mention_handle
  is_taken ps excluded handle =
      any (λ p. differs p.participant_id excluded && effective_mention_handle p == handle) ps

  -- `for index in 2..=999`: `left` indices from `index` on, then the one with a fresh id.
  unfoldable pub first_free :
      List ThreadParticipantRecord → Option Text → Text → Text → ℕ → ℕ → Text
  unfolding is_taken show_number
  first_free ps excluded base fresh zero index = base ++ (codes "-" ++ fresh)
  first_free ps excluded base fresh (suc left) index =
      let later = first_free ps excluded base fresh left (suc index) in
      let candidate = base ++ (codes "-" ++ show_number index) in
      if not (is_taken ps excluded candidate) then candidate else later

  unfoldable pub unique_mention_handle :
      List ThreadParticipantRecord → Text → Option Text → Text → Text
  unfolding first_free is_taken
  unique_mention_handle ps preferred excluded fresh =
      let base = if is_empty preferred then codes "agent" else preferred in
      if not (is_taken ps excluded base) then base else first_free ps excluded base fresh 998 2

  abbrev handle_shown : Text → Option Text → Option Text
  handle_shown [] none = none
  handle_shown [] (some id) = some (canonical_mention_handle u id)
  handle_shown (c ∷ cs) id = some (c ∷ cs)

  unfoldable pub participant_to_protocol :
      ThreadParticipantRecord → ParticipantState → ThreadParticipant
  unfolding canonical_mention_handle
  participant_to_protocol p state = record {
    participant_id = p.participant_id;
    kind = p.kind;
    display_name = p.display_name;
    avatar = p.avatar;
    agent_id = p.agent_id;
    mention_handle = handle_shown p.mention_handle p.agent_id;
    session_id = p.session_id;
    state = state;
    settings = p.settings;
  }

unfoldable pub thread_to_summary : ThreadRecord → ThreadState → ℕ → ThreadSummary
thread_to_summary t state last_thread_seq = record {
  thread_id = t.thread_id;
  title = t.title;
  working_dir = t.working_dir;
  created_at_ms = t.created_at_ms;
  state = state;
  participant_count = length t.participants % 4294967296;
  last_thread_seq = last_thread_seq;
}

unfoldable pub thread_to_snapshot : ThreadRecord → List ThreadParticipant → ℕ → ThreadSnapshot
thread_to_snapshot t participants last_thread_seq = record {
  thread_id = t.thread_id;
  title = t.title;
  working_dir = t.working_dir;
  created_at_ms = t.created_at_ms;
  last_thread_seq = last_thread_seq;
  participants = participants;
}
