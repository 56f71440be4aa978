-- ===== src/Threads/Calls.antt =====
-- thread_store.rs: sequences of calls on a store, with the fresh ids that each is given.
use agentchat.Prelude.{
  ℕ, ◌≡◌, false, List, [], ◌∷◌, Option, none, some, contains, nat_eq, list_eq, lookup, Result, ok,
  err, unwrap_or,
}
use agentchat.Text.{Text}
use agentchat.Protocol.Wire.{
  Unicode, canonical_mention_handle, AgentSessionSettings, ThreadParticipantConfig,
}
use agentchat.Threads.Records.{ThreadParticipantRecord, ThreadRecord, ThreadStore, is_taken}
use agentchat.Threads.Store.{
  create_thread, add_agent_participant_with_mention_handle, set_participant_configuration,
  set_participant_settings, remove_participant, remove_thread,
}
use agentchat.Threads.Handles.{spare, base_of}
use agentchat.Threads.Unique.{ids}

pub data Call : Type 0 where
  created : (title : Option Text) (working_dir fresh_id : Text) (now : ℕ) → Call
  added :
      (thread agent session : Text) (config : ThreadParticipantConfig) (preferred : Option Text)
      (fresh fresh_id : Text)
      → Call
  configured : (thread participant : Text) (config : ThreadParticipantConfig) (fresh : Text) → Call
  set : (thread participant : Text) (settings : AgentSessionSettings) → Call
  left : (thread participant : Text) → Call
  closed : (thread : Text) → Call

-- The store after a result, where an error changes nothing.
abbrev pub after {ℓ} : {A : Type ℓ} → ThreadStore → Result Text (A × ThreadStore) → ThreadStore
after s (ok (a, t)) = t
after s (err e) = s

abbrev pub participants_of : Option ThreadRecord → List ThreadParticipantRecord
participants_of none = []
participants_of (some t) = t.participants

-- The participants of a thread.
abbrev pub members : Text → ThreadStore → List ThreadParticipantRecord
members id s = participants_of (lookup s.threads id)

module _ (u : Unicode) where
  unfoldable pub call : Call → ThreadStore → ThreadStore
  unfolding create_thread add_agent_participant_with_mention_handle set_participant_configuration
      set_participant_settings remove_participant remove_thread
  call (created title working_dir fresh_id now) s =
      (create_thread title working_dir fresh_id now s).1
  call (added thread agent session config preferred fresh fresh_id) s = after s (
      add_agent_participant_with_mention_handle u thread agent session config preferred fresh
        fresh_id s)
  call (configured thread participant config fresh) s =
      after s (set_participant_configuration u thread participant config fresh s)
  call (set thread participant settings) s =
      after s (set_participant_settings thread participant settings s)
  call (left thread participant) s = (remove_participant thread participant s).1
  call (closed thread) s = (remove_thread thread s).1

  unfoldable pub run : List Call → ThreadStore → ThreadStore
  unfolding call
  run [] s = s
  run (c ∷ cs) s = run cs (call c s)

  -- What `Uuid::new_v4` promises: a new participant's id is new in its thread, and the last resort of
  -- `unique_mention_handle` is nobody's handle.
  abbrev pub IsFresh : Call → ThreadStore → Type 0
  IsFresh (added thread agent session config preferred fresh fresh_id) s =
      (contains (ids (members thread s)) fresh_id ≡ false)
      × (is_taken u (members thread s) none
            (spare (base_of (unwrap_or (canonical_mention_handle u agent) preferred)) fresh)
          ≡ false)
  IsFresh (configured thread participant config fresh) s =
      is_taken u (members thread s) (some participant)
        (spare (base_of (canonical_mention_handle u config.display_name)) fresh)
      ≡ false
  IsFresh _ s = Unit

  abbrev pub AllFresh : List Call → ThreadStore → Type 0
  AllFresh [] s = Unit
  AllFresh (c ∷ cs) s = IsFresh c s × AllFresh cs (call c s)
