-- ===== src/Threads/Store.antt =====
-- thread_store.rs: `ThreadStore` and its methods. One that fails has changed nothing. An id that the
-- source makes from `Uuid::new_v4` is an argument: `fresh` ends a handle, `fresh_id` is the new
-- thread's or participant's.
use agentchat.Prelude.{
  ℕ, zero, suc, ◌-◌, ◌&&◌, List, [], ◌∷◌, ◌++◌, Option, none, some, if◌then◌else◌, filter, is_empty,
  unwrap_or, HashMap, lookup, insert, erase, values, Result, ok, err, ◌>>=◌, ◌==◌, nat_eq, list_eq,
  leb,
}
use agentchat.Text.{Text, codes, split_whitespace}
use agentchat.Protocol.Wire.{
  human, agent, AgentSessionSettings, ThreadParticipantConfig, Unicode, canonical_mention_handle,
}
use agentchat.Threads.Records.{
  ThreadParticipantRecord, ThreadRecord, ThreadSessionBinding, ThreadStore, is_agent,
  unique_mention_handle,
}

unfoldable pub new_thread_store : ThreadStore
new_thread_store = record { threads = []; session_to_binding = [] }

-- `AgentSessionSettings::default()`.
abbrev pub default_settings : AgentSessionSettings
default_settings = record { model = none; reasoning_effort = none }

abbrev pub user : ThreadParticipantRecord
user = record {
  participant_id = codes "participant-user";
  kind = human;
  display_name = codes "You";
  avatar = codes "YOU";
  mention_handle = [];
  agent_id = none;
  session_id = none;
  settings = default_settings;
}

unfoldable pub create_thread :
    Option Text → Text → Text → ℕ → ThreadStore → ThreadRecord × ThreadStore
unfolding insert
create_thread title working_dir fresh_id now s =
    let created : ThreadRecord = record {
      thread_id = fresh_id;
      title = title;
      working_dir = working_dir;
      created_at_ms = now;
      participants = user ∷ [];
    } in
    (created, record s { threads = insert s.threads fresh_id created })

unfoldable pub get_thread : Text → ThreadStore → Option ThreadRecord
unfolding lookup
get_thread id s = lookup s.threads id

unfoldable pub list_threads : ThreadStore → List ThreadRecord
list_threads s = values s.threads

abbrev pub ok_or {ℓ} : {A : Type ℓ} → Text → Option A → Result Text A
ok_or message none = err message
ok_or message (some a) = ok a

-- `participants.iter().find(|participant| participant.participant_id == id)`.
unfoldable pub find_participant :
    List ThreadParticipantRecord → Text → Option ThreadParticipantRecord
find_participant [] id = none
find_participant (p ∷ ps) id =
    let rest = find_participant ps id in if p.participant_id == id then some p else rest

-- The first participant with the id, changed.
unfoldable pub update_participant :
    Text
    → (ThreadParticipantRecord → ThreadParticipantRecord)
    → List ThreadParticipantRecord
    → List ThreadParticipantRecord
update_participant id f [] = []
update_participant id f (p ∷ ps) =
    let rest = update_participant id f ps in if p.participant_id == id then f p ∷ ps else p ∷ rest

-- The first participant with the id, taken out.
unfoldable pub drop_participant : Text → List ThreadParticipantRecord → List ThreadParticipantRecord
drop_participant id [] = []
drop_participant id (p ∷ ps) =
    let rest = drop_participant id ps in if p.participant_id == id then ps else p ∷ rest

abbrev pub put_participants :
    Text → ThreadRecord → List ThreadParticipantRecord → ThreadStore → ThreadStore
put_participants id t ps s = record s {
  threads = insert s.threads id (record t { participants = ps });
}

-- `word.chars().next()` in upper case, for two words at most.
unfoldable pub initials : ℕ → List Text → Text
initials zero words = []
initials (suc n) [] = []
initials (suc n) ([] ∷ words) = initials (suc n) words
initials (suc n) ((c ∷ word) ∷ words) =
    let rest = initials n words in (if leb b'a' c && leb c b'z' then c - 32 else c) ∷ rest

unfoldable pub default_avatar_for_name : Text → Text
unfolding initials split_whitespace
default_avatar_for_name name =
    let letters = initials 2 (split_whitespace name) in
    if is_empty letters then codes "AI" else letters

module _ (u : Unicode) where
  abbrev pub new_participant :
      List ThreadParticipantRecord
      → Text
      → Text
      → ThreadParticipantConfig
      → Text
      → Text
      → Text
      → ThreadParticipantRecord
  new_participant ps agent_id session_id config preferred fresh fresh_id = record {
    participant_id = fresh_id;
    kind = agent;
    display_name = config.display_name;
    avatar = config.avatar;
    mention_handle = unique_mention_handle u ps preferred none fresh;
    agent_id = some agent_id;
    session_id = some session_id;
    settings = config.settings;
  }

  unfoldable pub add_agent_participant_with_mention_handle :
      Text
      → Text
      → Text
      → ThreadParticipantConfig
      → Option Text
      → Text
      → Text
      → ThreadStore
      → Result Text (ThreadParticipantRecord × ThreadStore)
  unfolding lookup insert canonical_mention_handle
  add_agent_participant_with_mention_handle thread_id agent_id session_id config preferred fresh
        fresh_id s =
      ok_or (codes "thread not found") (lookup s.threads thread_id) >>= λ t.
      let added =
        new_participant t.participants agent_id session_id config
          (unwrap_or (canonical_mention_handle u agent_id) preferred) fresh fresh_id in
      let binding : ThreadSessionBinding = record {
        thread_id = thread_id;
        participant_id = fresh_id;
        agent_id = agent_id;
        session_id = session_id;
        display_name = config.display_name;
      } in
      ok (
        added,
        record (put_participants thread_id t (t.participants ++ added ∷ []) s) {
          session_to_binding = insert s.session_to_binding session_id binding;
        },
      )

  unfoldable pub add_agent_participant_with_settings :
      Text
      → Text
      → Text
      → Text
      → AgentSessionSettings
      → Text
      → Text
      → ThreadStore
      → Result Text (ThreadParticipantRecord × ThreadStore)
  unfolding add_agent_participant_with_mention_handle default_avatar_for_name
  add_agent_participant_with_settings thread_id agent_id display_name session_id settings fresh
        fresh_id s =
      add_agent_participant_with_mention_handle thread_id agent_id session_id
        (record {
          display_name = display_name;
          avatar = default_avatar_for_name display_name;
          settings = settings;
        })
        none fresh fresh_id s

  unfoldable pub add_agent_participant :
      Text
      → Text
      → Text
      → Text
      → Text
      → Text
      → ThreadStore
      → Result Text (ThreadParticipantRecord × ThreadStore)
  unfolding add_agent_participant_with_settings
  add_agent_participant thread_id agent_id display_name session_id fresh fresh_id s =
      add_agent_participant_with_settings thread_id agent_id display_name session_id
        default_settings fresh fresh_id s

  unfoldable pub add_agent_participant_with_config :
      Text
      → Text
      → ThreadParticipantConfig
      → Text
      → Text
      → Text
      → ThreadStore
      → Result Text (ThreadParticipantRecord × ThreadStore)
  unfolding add_agent_participant_with_mention_handle canonical_mention_handle
  add_agent_participant_with_config thread_id agent_id config session_id fresh fresh_id s =
      add_agent_participant_with_mention_handle thread_id agent_id session_id config
        (some (canonical_mention_handle u config.display_name)) fresh fresh_id s

  -- The thread's participant with the id, if it is an agent.
  abbrev pub agent_of : Option ThreadParticipantRecord → Option ThreadParticipantRecord
  agent_of none = none
  agent_of (some p) = if is_agent p.kind then some p else none

  unfoldable pub set_participant_configuration :
      Text
      → Text
      → ThreadParticipantConfig
      → Text
      → ThreadStore
      → Result Text (ThreadParticipantRecord × ThreadStore)
  unfolding lookup insert find_participant update_participant canonical_mention_handle
  set_participant_configuration thread_id participant_id config fresh s = do
    t ← ok_or (codes "thread not found") (lookup s.threads thread_id)
    p ←
        ok_or (codes "participant not found")
          (agent_of (find_participant t.participants participant_id))
    let configure : ThreadParticipantRecord → ThreadParticipantRecord = λ q. record q {
      display_name = config.display_name;
      avatar = config.avatar;
      mention_handle =
          unique_mention_handle u t.participants (canonical_mention_handle u config.display_name)
            (some participant_id) fresh;
      settings = config.settings;
    }
    ok (
      configure p,
      put_participants thread_id t (update_participant participant_id configure t.participants) s,
    )

unfoldable pub set_participant_settings :
    Text
    → Text
    → AgentSessionSettings
    → ThreadStore
    → Result Text (ThreadParticipantRecord × ThreadStore)
unfolding lookup insert find_participant update_participant
set_participant_settings thread_id participant_id settings s =
    ok_or (codes "thread not found") (lookup s.threads thread_id) >>= λ t.
    ok_or (codes "participant not found") (find_participant t.participants participant_id) >>= λ p.
    if is_agent p.kind
    then ok (
      record p { settings = settings },
      put_participants thread_id t
          (update_participant participant_id (λ q. record q { settings = settings }) t.participants)
          s,
    )
    else err (codes "human participants do not have agent settings")

-- The session of a participant that leaves is unbound.
abbrev pub unbind :
    Option Text → HashMap Text ThreadSessionBinding → HashMap Text ThreadSessionBinding
unbind none bindings = bindings
unbind (some session) bindings = erase bindings session

unfoldable pub unbind_all :
    List ThreadParticipantRecord
    → HashMap Text ThreadSessionBinding
    → HashMap Text ThreadSessionBinding
unfolding erase
unbind_all [] bindings = bindings
unbind_all (p ∷ ps) bindings = unbind_all ps (unbind p.session_id bindings)

unfoldable pub remove_participant :
    Text → Text → ThreadStore → Option ThreadParticipantRecord × ThreadStore
unfolding lookup insert erase find_participant drop_participant
remove_participant thread_id participant_id s = elim (lookup s.threads thread_id) [
  | none ↦ (none, s)
  | some t ↦ elim (find_participant t.participants participant_id) [
    | none ↦ (none, s)
    | some p ↦ (
      some p,
      record (put_participants thread_id t (drop_participant participant_id t.participants) s) {
        session_to_binding = unbind p.session_id s.session_to_binding;
      },
    )
  ]
]

unfoldable pub remove_thread : Text → ThreadStore → Option ThreadRecord × ThreadStore
unfolding lookup erase unbind_all
remove_thread thread_id s = elim (lookup s.threads thread_id) [
  | none ↦ (none, s)
  | some t ↦ (
    some t,
    record s {
      threads = erase s.threads thread_id;
      session_to_binding = unbind_all t.participants s.session_to_binding;
    },
  )
]

unfoldable pub binding_for_session : Text → ThreadStore → Option ThreadSessionBinding
unfolding lookup
binding_for_session session s = lookup s.session_to_binding session

-- The agents among the targets, in their order; a target that is no participant is an error.
unfoldable pub resolve_targets :
    List ThreadParticipantRecord → List Text → Result Text (List ThreadParticipantRecord)
unfolding find_participant
resolve_targets ps [] = ok []
resolve_targets ps (id ∷ ids) =
    let rest = resolve_targets ps ids in
    ok_or (codes "participant not found: " ++ id) (find_participant ps id) >>= λ p.
    rest >>= λ resolved. ok (if is_agent p.kind then p ∷ resolved else resolved)

abbrev pub targets_of :
    List ThreadParticipantRecord → Option (List Text) → Result Text (List ThreadParticipantRecord)
targets_of ps none = ok (filter (λ p. is_agent p.kind) ps)
targets_of ps (some ids) = resolve_targets ps ids

unfoldable pub target_agent_participants :
    Text → Option (List Text) → ThreadStore → Result Text (List ThreadParticipantRecord)
unfolding lookup resolve_targets
target_agent_participants thread_id targets s =
    ok_or (codes "thread not found") (lookup s.threads thread_id) >>= λ t.
    targets_of t.participants targets
