-- ===== src/Server/Routes.antt =====
-- app.rs: the routes by which the parts of a message reach the agents that it mentions.
use agentchat.Prelude.{
  ℕ, Bool, true, false, not, ◌&&◌, List, [], ◌∷◌, ◌++◌, none, some, if◌then◌else◌, is_empty, filter,
  map, length, contains, unwrap_or, HashMap, lookup, insert, erase, nat_eq, list_eq,
}
use agentchat.Text.{Text, codes, trim, join}
use agentchat.Protocol.Wire.{Unicode}
use agentchat.Threads.{ThreadParticipantRecord, ThreadRecord}
use agentchat.Server.Mentions.{
  ParsedAgentMention, slice, resolve_mentions, parse_agent_mention_spans,
}

pub record ThreadMessageRoute : Type 0 where
  pub participant_ids : List Text
  pub content : Text

-- `target.push(id)` for each id that is not there.
unfoldable pub extend_unique_ids : List Text → List Text → List Text
unfolding contains
extend_unique_ids target [] = target
extend_unique_ids target (id ∷ ids) =
    extend_unique_ids (if contains target id then target else target ++ id ∷ []) ids

-- Where the text of a mention ends: at the next one.
abbrev pub segment_end : Text → List (ParsedAgentMention × List Text) → ℕ
segment_end content [] = length content
segment_end content ((m, ids) ∷ rest) = m.start

abbrev blank_line : Text
blank_line = codes "\n\n"

-- The loop over the mentions: whether no route is there yet, and the participants that wait for text.
unfoldable pub cut_routes :
    Text → Text → Bool → List Text → List (ParsedAgentMention × List Text) → List ThreadMessageRoute
unfolding extend_unique_ids trim
cut_routes content shared_prefix first pending [] = []
cut_routes content shared_prefix first pending ((m, ids) ∷ rest) =
    let waiting = extend_unique_ids pending ids in
    let segment = trim (slice m.end (segment_end content rest) content) in
    let later = cut_routes content shared_prefix first waiting rest in
    let after = cut_routes content shared_prefix false [] rest in
    if is_empty segment
    then later
    else record {
      participant_ids = waiting;
      content =
          if first && not (is_empty shared_prefix)
          then shared_prefix ++ (blank_line ++ segment)
          else segment;
    }
      ∷ after

abbrev Assignments : Type 0
Assignments = HashMap Text (List Text × List Text)

-- A route's text for each of its participants that is selected.
unfoldable pub assign_to : List Text → Text → List Text → Assignments → Assignments
unfolding lookup insert extend_unique_ids contains
assign_to chosen content [] assigned = assigned
assign_to chosen content (id ∷ ids) assigned =
    let old = unwrap_or ([], []) (lookup assigned id) in
    assign_to chosen content ids (
      if contains chosen id
      then insert assigned id (extend_unique_ids old.0 chosen, old.1 ++ content ∷ [])
      else assigned)

unfoldable pub assign_routes : List Text → List ThreadMessageRoute → Assignments → Assignments
unfolding assign_to contains
assign_routes selected [] assigned = assigned
assign_routes selected (r ∷ rs) assigned =
    let chosen = filter (λ id. contains selected id) r.participant_ids in
    assign_routes selected rs
      (if is_empty chosen then assigned else assign_to chosen r.content r.participant_ids assigned)

-- `assignments.remove(id)` for each selected participant.
unfoldable pub collect_routes : List Text → Assignments → List ThreadMessageRoute
unfolding lookup erase join
collect_routes [] assigned = []
collect_routes (id ∷ ids) assigned = elim (lookup assigned id) [
  | none ↦ collect_routes ids (erase assigned id)
  | some (recipients, texts) ↦
      record { participant_ids = recipients; content = join blank_line texts }
      ∷ collect_routes ids (erase assigned id)
]

abbrev pub ids_of : List ThreadParticipantRecord → List Text
ids_of ps = map (λ p. p.participant_id) ps

-- All mentions' participants, one after the other.
abbrev pub all_mentioned : List (ParsedAgentMention × List Text) → List Text
all_mentioned [] = []
all_mentioned ((m, ids) ∷ rest) = ids ++ all_mentioned rest

abbrev first_start : List (ParsedAgentMention × List Text) → ℕ
first_start [] = 0
first_start ((m, ids) ∷ rest) = m.start

unfoldable pub routes_of :
    List Text
    → Text
    → List (ParsedAgentMention × List Text)
    → List ThreadMessageRoute
    → List ThreadMessageRoute
unfolding assign_routes collect_routes
routes_of selected content resolved [] =
    record { participant_ids = all_mentioned resolved; content = content } ∷ []
routes_of selected content resolved (r ∷ rs) =
    collect_routes selected (assign_routes selected (r ∷ rs) [])

unfoldable pub build_thread_message_routes :
    Unicode
    → (Text → Text)
    → ThreadRecord
    → List ThreadParticipantRecord
    → Text
    → List ThreadMessageRoute
unfolding resolve_mentions parse_agent_mention_spans cut_routes trim routes_of
build_thread_message_routes u lower t selected content =
    let resolved = resolve_mentions u lower t.participants (parse_agent_mention_spans u content) in
    if is_empty resolved
    then record { participant_ids = ids_of selected; content = content } ∷ []
    else routes_of (ids_of selected) content resolved
        (cut_routes content (trim (slice 0 (first_start resolved) content)) true [] resolved)
