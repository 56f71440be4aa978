-- ===== src/Server/Send.antt =====
-- app.rs: a message to a thread, from its checks to the prompts of its agents. A prompt is the arguments
-- of `handle_prompt`: the context of the group chat is the participant and the ones that get the same
-- text, of which `build_group_chat_routing_context` makes a text. The message's id is an argument.
use agentchat.Prelude.{
  List, [], ◌∷◌, ◌++◌, Option, none, some, if◌then◌else◌, is_empty, all, filter, contains, Result,
  ok, err, ◌>>=◌, ◌==◌, nat_eq, list_eq,
}
use agentchat.Text.{Text, codes}
use agentchat.Protocol.Wire.{Unicode, ResponseEvent, thread_message, ParticipantKind, ThreadSender}
use agentchat.Threads.{
  ThreadParticipantRecord, ThreadRecord, ThreadStore, get_thread, target_agent_participants,
  find_participant,
}
use agentchat.Server.Feed.{Feed, emit_in_thread}
use agentchat.Server.Attach.{plain_error}
use agentchat.Server.Mentions.{ParsedAgentMention, parse_agent_mention_spans, mentioned}
use agentchat.Server.Routes.{
  ThreadMessageRoute, ids_of, extend_unique_ids, build_thread_message_routes,
}

-- The errors of the targets of a message.
pub data ThreadMessageTargetError : Type 0 where
  thread_not_found : ThreadMessageTargetError
  participant_not_found : ThreadMessageTargetError

abbrev known_targets : List Text → List Text → Result ThreadMessageTargetError (Unit {0})
known_targets members targets =
    if all (λ id. contains members id) targets then ok tt else err participant_not_found

abbrev targets_known : Option ThreadRecord → List Text → Result ThreadMessageTargetError (Unit {0})
targets_known none targets = err thread_not_found
targets_known (some t) targets = known_targets (ids_of t.participants) targets

unfoldable pub validate_thread_message_explicit_targets :
    ThreadStore → Text → Option (List Text) → Result ThreadMessageTargetError (Unit {0})
unfolding get_thread contains
validate_thread_message_explicit_targets s id none = ok tt
validate_thread_message_explicit_targets s id (some targets) =
    targets_known (get_thread id s) targets

unfoldable pub merge_thread_message_targets :
    Option (List Text) → Option (List Text) → Option (List Text)
unfolding contains
merge_thread_message_targets (some explicit) (some mentions) =
    some (filter (λ id. contains explicit id) mentions)
merge_thread_message_targets (some explicit) none = some explicit
merge_thread_message_targets none mentions = mentions

abbrev unknown_thread : ResponseEvent
unknown_thread = plain_error (codes "thread_not_found") (codes "no live thread with this id")

abbrev unknown_participant : ResponseEvent
unknown_participant =
    plain_error (codes "thread_participant_not_found")
      (codes "no participant with this id in the thread")

abbrev pub no_targets : Text → ResponseEvent
no_targets message = plain_error (codes "thread_no_matching_targets") message

-- The loop over the handles of the mentions.
unfoldable pub all_mentions :
    Unicode
    → (Text → Text)
    → List ThreadParticipantRecord
    → List ParsedAgentMention
    → List Text
    → List Text
unfolding mentioned extend_unique_ids
all_mentions u lower ps [] found = found
all_mentions u lower ps (m ∷ ms) found =
    all_mentions u lower ps ms (extend_unique_ids found (mentioned u lower ps m.handle))

unfoldable pub resolve_thread_message_mentions :
    Unicode → (Text → Text) → ThreadStore → Text → Text → Result ResponseEvent (List Text)
unfolding get_thread all_mentions parse_agent_mention_spans
resolve_thread_message_mentions u lower s id content = elim (get_thread id s) [
  | none ↦ err unknown_thread
  | some t ↦ ok (all_mentions u lower t.participants (parse_agent_mention_spans u content) [])
]

abbrev pub target_error : ThreadMessageTargetError → ResponseEvent
target_error thread_not_found = unknown_thread
target_error participant_not_found = unknown_participant

abbrev pub checked : Result ThreadMessageTargetError (Unit {0}) → Result ResponseEvent (Unit {0})
checked (ok x) = ok x
checked (err e) = err (target_error e)

-- `(!mention_targets.is_empty()).then_some(mention_targets)`.
abbrev pub some_targets : List Text → Option (List Text)
some_targets [] = none
some_targets (id ∷ ids) = some (id ∷ ids)

abbrev pub nonempty : Option (List Text) → Result ResponseEvent (Unit {0})
nonempty (some []) = err (no_targets (codes "no checked participants match the @mentions"))
nonempty _ = ok tt

abbrev pub participants_found :
    Result Text (List ThreadParticipantRecord) → Result ResponseEvent (List ThreadParticipantRecord)
participants_found (ok ps) = ok ps
participants_found (err e) =
    if e == codes "thread not found" then err unknown_thread else err unknown_participant

abbrev pub thread_found : Option ThreadRecord → Result ResponseEvent ThreadRecord
thread_found none = err unknown_thread
thread_found (some t) = ok t

-- What the checks find: the thread, and the agents that are selected.
unfoldable pub select_participants :
    Unicode
    → (Text → Text)
    → ThreadStore
    → Text
    → Text
    → Option (List Text)
    → Result ResponseEvent (ThreadRecord × List ThreadParticipantRecord)
unfolding validate_thread_message_explicit_targets resolve_thread_message_mentions
    merge_thread_message_targets target_agent_participants get_thread
select_participants u lower s id content explicit =
    checked (validate_thread_message_explicit_targets s id explicit) >>= λ _.
    resolve_thread_message_mentions u lower s id content >>= λ mentions.
    let targets = merge_thread_message_targets explicit (some_targets mentions) in
    nonempty targets >>= λ _.
    participants_found (target_agent_participants id targets s) >>= λ participants.
    thread_found (get_thread id s) >>= λ t. ok (t, participants)

pub record Prompt : Type 0 where
  pub session_id : Text
  pub content : Text
  pub participant : ThreadParticipantRecord
  pub together : List ThreadParticipantRecord

-- The selected participants that a route names.
unfoldable pub route_participants :
    List ThreadParticipantRecord → List Text → List ThreadParticipantRecord
unfolding find_participant
route_participants ps [] = []
route_participants ps (id ∷ ids) =
    let rest = route_participants ps ids in
    elim (find_participant ps id) [ none ↦ rest | some p ↦ p ∷ rest ]

-- The prompts of a route's participants that have a session.
unfoldable pub prompts_to :
    Text → List ThreadParticipantRecord → List ThreadParticipantRecord → List Prompt
prompts_to content together [] = []
prompts_to content together (p ∷ ps) =
    let rest = prompts_to content together ps in
    elim p.session_id [
      | none ↦ rest
      | some session ↦
          record { session_id = session; content = content; participant = p; together = together }
          ∷ rest
    ]

unfoldable pub route_prompts : List ThreadParticipantRecord → List ThreadMessageRoute → List Prompt
unfolding route_participants prompts_to
route_prompts ps [] = []
route_prompts ps (r ∷ rs) =
    let to = route_participants ps r.participant_ids in
    prompts_to r.content to to ++ route_prompts ps rs

unfoldable pub all_targets : List Text → List ThreadMessageRoute → List Text
unfolding extend_unique_ids
all_targets found [] = found
all_targets found (r ∷ rs) = all_targets (extend_unique_ids found r.participant_ids) rs

abbrev you : ThreadSender
you = record {
  kind = ParticipantKind.human;
  participant_id = codes "participant-user";
  display_name = codes "You";
}

unfoldable pub refuse : ResponseEvent → Feed → Feed × List Prompt
refuse event f = (record f { sent = f.sent ++ event ∷ [] }, [])

-- A message is sent along its routes, unless they name nobody.
unfoldable pub send_along :
    Text
    → Text
    → Text
    → List ThreadParticipantRecord
    → List ThreadMessageRoute
    → Feed
    → Feed × List Prompt
unfolding emit_in_thread refuse all_targets route_prompts
send_along fresh id content participants routes f =
    let targets = all_targets [] routes in
    if is_empty targets
    then refuse (no_targets (codes "no agent participants were matched by the @mentions")) f
    else (
      emit_in_thread id
          (λ seq. thread_message id seq (codes "message-" ++ fresh) you content targets) f,
      route_prompts participants routes,
    )

-- What follows the checks.
unfoldable pub deliver :
    Unicode
    → (Text → Text)
    → Text
    → Text
    → Text
    → Feed
    → Result ResponseEvent (ThreadRecord × List ThreadParticipantRecord)
    → Feed × List Prompt
unfolding refuse send_along build_thread_message_routes
deliver u lower fresh id content f (err event) = refuse event f
deliver u lower fresh id content f (ok (t, participants)) =
    if is_empty participants
    then refuse (no_targets (codes "no agent participants were selected for this message")) f
    else send_along fresh id content participants
        (build_thread_message_routes u lower t participants content) f

unfoldable pub handle_send_thread_message :
    Unicode → (Text → Text) → Text → Text → Text → Option (List Text) → Feed → Feed × List Prompt
unfolding select_participants deliver
handle_send_thread_message u lower fresh id content explicit f =
    deliver u lower fresh id content f (select_participants u lower f.threads id content explicit)
