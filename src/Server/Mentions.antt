-- ===== src/Server/Mentions.antt =====
-- app.rs: mentions in a message. Positions count code points where the source counts bytes; both cut the
-- text at the same places.
use agentchat.Prelude.{
  ℕ, suc, ◌+◌, ◌-◌, Bool, true, false, not, ◌&&◌, ◌||◌, List, [], ◌∷◌, ◌++◌, Option, none, some,
  if◌then◌else◌, is_empty, any, filter, map, length, drop, ◌==◌, nat_eq, list_eq, zero,
}
use agentchat.Text.{Text, codes, is_whitespace}
use agentchat.Protocol.Wire.{Unicode, is_separator, canonical_mention_handle}
use agentchat.Threads.{ThreadParticipantRecord, is_agent}

pub record ParsedAgentMention : Type 0 where
  pub handle : Text
  pub start : ℕ
  pub end : ℕ

-- `matches!(value, …)`.
abbrev one_of : Text → ℕ → Bool
one_of [] c = false
one_of (d ∷ ds) c = c == d || one_of ds c

unfoldable pub is_agent_mention_leading_boundary : Option ℕ → Bool
unfolding is_whitespace
is_agent_mention_leading_boundary none = true
is_agent_mention_leading_boundary (some c) = is_whitespace c || one_of (codes "([{\"'，。,:;") c

unfoldable pub is_agent_mention_trailing_boundary : Option ℕ → Bool
unfolding is_whitespace
is_agent_mention_trailing_boundary none = true
is_agent_mention_trailing_boundary (some c) = is_whitespace c || one_of (codes ")]}\"'，。,:;!?") c

abbrev pub head : Text → Option ℕ
head [] = none
head (c ∷ cs) = some c

module _ (u : Unicode) where
  abbrev pub is_agent_mention_char : ℕ → Bool
  is_agent_mention_char c = u.is_alphanumeric c || is_separator c

  -- The characters of a mention, and what follows them.
  unfoldable pub take_handle : Text → Text × Text
  take_handle [] = ([], [])
  take_handle (c ∷ cs) =
      let rest = take_handle cs in
      if is_agent_mention_char c then (c ∷ rest.0, rest.1) else ([], c ∷ cs)

  -- The text from an `@` on is a mention.
  abbrev pub is_mention : Option ℕ → Text × Text → Bool
  is_mention previous cut =
      is_agent_mention_leading_boundary previous
      && not (is_empty cut.0)
      && is_agent_mention_trailing_boundary (head cut.1)

  -- The loop over the characters: the one before, and the position.
  unfoldable pub mention_spans : Option ℕ → ℕ → Text → List ParsedAgentMention
  unfolding take_handle is_agent_mention_leading_boundary is_agent_mention_trailing_boundary
  mention_spans previous position [] = []
  mention_spans previous position (c ∷ cs) =
      let rest = mention_spans (some c) (suc position) cs in
      let cut = take_handle cs in
      if c == b'@' && is_mention previous cut
      then record { handle = cut.0; start = position; end = suc position + length cut.0 } ∷ rest
      else rest

  unfoldable pub parse_agent_mention_spans : Text → List ParsedAgentMention
  unfolding mention_spans
  parse_agent_mention_spans content = mention_spans none 0 content

  abbrev agent_handle : Text → Option Text → List Text
  agent_handle own none = []
  agent_handle own (some id) =
      if not (is_empty own) && own == canonical_mention_handle u id
      then []
      else canonical_mention_handle u id ∷ []

  unfoldable pub participant_mention_handles : ThreadParticipantRecord → List Text
  unfolding canonical_mention_handle
  participant_mention_handles p =
      if is_agent p.kind
      then (if is_empty p.mention_handle then [] else p.mention_handle ∷ [])
        ++ agent_handle p.mention_handle p.agent_id
      else []

  -- `str::to_lowercase` is the argument `lower`.
  unfoldable pub participant_matches_agent_mention :
      (Text → Text) → ThreadParticipantRecord → Text → Bool
  unfolding participant_mention_handles
  participant_matches_agent_mention lower p mention =
      is_agent p.kind
      && any (λ handle. lower handle == lower mention) (participant_mention_handles p)

  -- The participants that a handle names.
  unfoldable pub mentioned : (Text → Text) → List ThreadParticipantRecord → Text → List Text
  unfolding participant_matches_agent_mention
  mentioned lower ps handle =
      map (λ p. p.participant_id)
        (filter (λ p. participant_matches_agent_mention lower p handle) ps)

  -- The mentions that name somebody.
  unfoldable pub resolve_mentions :
      (Text → Text)
      → List ThreadParticipantRecord
      → List ParsedAgentMention
      → List (ParsedAgentMention × List Text)
  unfolding mentioned
  resolve_mentions lower ps [] = []
  resolve_mentions lower ps (m ∷ ms) =
      let rest = resolve_mentions lower ps ms in
      let ids = mentioned lower ps m.handle in if is_empty ids then rest else (m, ids) ∷ rest

-- `&content[from..to]`.
abbrev pub take : ℕ → Text → Text
take zero cs = []
take (suc n) [] = []
take (suc n) (c ∷ cs) = c ∷ take n cs

abbrev pub slice : ℕ → ℕ → Text → Text
slice from to content = take (to - from) (drop from content)
