-- ===== src/Server/Streams.antt =====
-- app.rs: what a thread shows of an agent's turn, and the agent's chunks.
use agentchat.Prelude.{
  ℕ, ◌≡◌, refl, sym, ap, subst, ◌∙◌, true, false, List, [], ◌∷◌, ◌++◌, none, some, if◌then◌else◌,
  if_cases, unwrap_or, lookup, lookup-insert_self, list_eq, nat_eq,
}
use mathlib.Core.List.{append-nil, append_assoc}
use agentchat.Text.{Text}
use agentchat.Protocol.Wire.{
  delta, event_session_id, event_seq, DeltaType, text, thinking, tool_use,
}
use agentchat.Threads.{ThreadSessionBinding, binding_for_session}
use agentchat.Server.Feed.{
  ActiveAssistantMessage, Feed, new_message, ensure_active_assistant_message, emit_in_thread,
  journal_and_broadcast_thread_event, push_chunk, is_shown, show_delta, feed_bound, feed_thread,
}

-- A chunk that an agent sends: the ids for a new message, its number in the session, and its content.
pub record Chunk : Type 0 where
  pub fresh : Text × Text
  pub seq : ℕ
  pub kind : DeltaType
  pub content : Text

-- The chunks of one session, fed one after the other.
unfoldable pub stream : Text → List Chunk → Feed → Feed
unfolding feed_thread
stream session [] f = f
stream session (c ∷ cs) f =
    stream session cs (feed_thread c.fresh (delta session c.seq c.content c.kind) f)

-- What the chunks add up to, by their kind.
abbrev thought : DeltaType → Text → Text
thought thinking content = content
thought _ content = []

abbrev answer : DeltaType → Text → Text
answer text content = content
answer _ content = []

abbrev pub thoughts : List Chunk → Text
thoughts [] = []
thoughts (c ∷ cs) = thought c.kind c.content ++ thoughts cs

abbrev pub answers : List Chunk → Text
answers [] = []
answers (c ∷ cs) = answer c.kind c.content ++ answers cs

-- A message with more at its ends.
abbrev pub longer : Text → Text → ActiveAssistantMessage → ActiveAssistantMessage
longer more_thinking more_response m = record m {
  thinking = m.thinking ++ more_thinking;
  response = m.response ++ more_response;
}

push_chunk-longer :
    (kind : DeltaType) (content : Text) (m : ActiveAssistantMessage)
    → push_chunk kind content m ≡ longer (thought kind content) (answer kind content) m
unfolding push_chunk
push_chunk-longer thinking content m =
    ap (λ r. record m { thinking = m.thinking ++ content; response = r })
      (sym (append-nil m.response))
push_chunk-longer text content m =
    ap (λ t. record m { thinking = t; response = m.response ++ content })
      (sym (append-nil m.thinking))
push_chunk-longer tool_use content m =
    ap (λ t. record m { thinking = t }) (sym (append-nil m.thinking))
    ∙ ap (λ r. record m { thinking = m.thinking ++ []; response = r }) (sym (append-nil m.response))

longer-longer :
    (a b c d : Text) (m : ActiveAssistantMessage)
    → longer c d (longer a b m) ≡ longer (a ++ c) (b ++ d) m
longer-longer a b c d m =
    ap (λ t. record m { thinking = t; response = m.response ++ b ++ d })
      (append_assoc m.thinking a c)
    ∙ ap (λ r. record m { thinking = m.thinking ++ (a ++ c); response = r })
        (append_assoc m.response b d)

-- A chunk that is not shown adds nothing.
hidden_chunk :
    (kind : DeltaType) (content : Text) (m : ActiveAssistantMessage)
    → is_shown kind content ≡ false
    → push_chunk kind content m ≡ m
unfolding push_chunk
hidden_chunk thinking [] m h = ap (λ t. record m { thinking = t }) (append-nil m.thinking)
hidden_chunk thinking (c ∷ cs) m h = cc
hidden_chunk text [] m h = ap (λ t. record m { response = t }) (append-nil m.response)
hidden_chunk text (c ∷ cs) m h = cc
hidden_chunk tool_use content m h = refl

-- A chunk of a bound session.
feed_thread-delta :
    (fresh : Text × Text) (session : Text) (n : ℕ) (kind : DeltaType) (content : Text) (f : Feed)
    {b : ThreadSessionBinding}
    → binding_for_session session f.threads ≡ some b
    → feed_thread fresh (delta session n content kind) f
      ≡ (if is_shown kind content then show_delta fresh b session n kind content f else f)
unfolding feed_thread event_session_id event_seq feed_bound
feed_thread-delta fresh session n kind content f e = rw (feed_thread, e) refl

show_delta-active :
    (fresh : Text × Text) (b : ThreadSessionBinding) (session : Text) (n : ℕ) (kind : DeltaType)
    (content : Text) (f : Feed)
    → lookup (show_delta fresh b session n kind content f).active session
      ≡ some (push_chunk kind content (unwrap_or (new_message fresh) (lookup f.active session)))
unfolding show_delta ensure_active_assistant_message emit_in_thread
    journal_and_broadcast_thread_event
show_delta-active fresh b session n kind content f = lookup-insert_self _ session _

-- One chunk on an open message.
feed_thread-open :
    (session : Text) (c : Chunk) (f : Feed) {b : ThreadSessionBinding} {m : ActiveAssistantMessage}
    → binding_for_session session f.threads ≡ some b
    → lookup f.active session ≡ some m
    → let g = feed_thread c.fresh (delta session c.seq c.content c.kind) f in
      (g.threads ≡ f.threads)
      × (lookup g.active session
          ≡ some (longer (thought c.kind c.content) (answer c.kind c.content) m))
unfolding show_delta emit_in_thread journal_and_broadcast_thread_event
feed_thread-open session c f {b} {m} bound open_now =
    subst
      (λ g.
        (g.threads ≡ f.threads)
        × (lookup g.active session
            ≡ some (longer (thought c.kind c.content) (answer c.kind c.content) m)))
      (sym (feed_thread-delta c.fresh session c.seq c.kind c.content f bound))
      (if_cases {A = Feed}
        (λ g.
          (g.threads ≡ f.threads)
          × (lookup g.active session
              ≡ some (longer (thought c.kind c.content) (answer c.kind c.content) m)))
        (is_shown c.kind c.content)
        (λ _. (
          refl,
          show_delta-active c.fresh b session c.seq c.kind c.content f
              ∙ ap (λ o. some (push_chunk c.kind c.content (unwrap_or (new_message c.fresh) o)))
                  open_now
              ∙ ap some (push_chunk-longer c.kind c.content m),
        ))
        (λ hidden. (
          refl,
          open_now
              ∙ ap some (
                  sym (hidden_chunk c.kind c.content m hidden)
                  ∙ push_chunk-longer c.kind c.content m),
        )))

stream-open :
    (session : Text) (cs : List Chunk) (f : Feed) {b : ThreadSessionBinding}
    {m : ActiveAssistantMessage}
    → binding_for_session session f.threads ≡ some b
    → lookup f.active session ≡ some m
    → ((stream session cs f).threads ≡ f.threads)
      × (lookup (stream session cs f).active session ≡ some (longer (thoughts cs) (answers cs) m))
unfolding stream
stream-open session [] f {b} {m} bound open_now = (
  refl,
  open_now
      ∙ ap some (
          ap (λ t. record m { thinking = t }) (sym (append-nil m.thinking))
          ∙ ap (λ r. record m { thinking = m.thinking ++ []; response = r })
              (sym (append-nil m.response))),
)
stream-open session (c ∷ cs) f {b} {m} bound open_now =
    let one = feed_thread-open session c f bound open_now in
    let rest =
      stream-open session cs (feed_thread c.fresh (delta session c.seq c.content c.kind) f)
        (ap (binding_for_session session) one.0 ∙ bound) one.1 in
    (
      rest.0 ∙ one.0,
      rest.1
          ∙ ap some (
              longer-longer (thought c.kind c.content) (answer c.kind c.content) (thoughts cs)
                (answers cs) m),
    )

-- The message of a turn whose first chunk is shown.
abbrev pub assembled : Chunk → List Chunk → ActiveAssistantMessage
assembled c cs = longer (thoughts (c ∷ cs)) (answers (c ∷ cs)) (new_message c.fresh)

-- While a bound session has no open message, a chunk that is shown opens one; it and all further chunks
-- of the session leave as the open message their texts put together, thoughts and answers apart.
pub stream-assembled :
    (session : Text) (c : Chunk) (cs : List Chunk) (f : Feed) (b : ThreadSessionBinding)
    → binding_for_session session f.threads ≡ some b
    → lookup f.active session ≡ none
    → is_shown c.kind c.content ≡ true
    → ((stream session (c ∷ cs) f).threads ≡ f.threads)
      × (lookup (stream session (c ∷ cs) f).active session ≡ some (assembled c cs))
unfolding stream show_delta emit_in_thread journal_and_broadcast_thread_event
stream-assembled session c cs f b bound idle shown =
    let fed : feed_thread c.fresh (delta session c.seq c.content c.kind) f
        ≡ show_delta c.fresh b session c.seq c.kind c.content f =
      feed_thread-delta c.fresh session c.seq c.kind c.content f bound
      ∙ ap (λ s. if s then show_delta c.fresh b session c.seq c.kind c.content f else f) shown in
    let opened =
      ap (λ g. lookup g.active session) fed
      ∙ show_delta-active c.fresh b session c.seq c.kind c.content f
      ∙ ap (λ o. some (push_chunk c.kind c.content (unwrap_or (new_message c.fresh) o))) idle
      ∙ ap some (push_chunk-longer c.kind c.content (new_message c.fresh)) in
    let same = ap (λ g. g.threads) fed in
    let rest =
      stream-open session cs (feed_thread c.fresh (delta session c.seq c.content c.kind) f)
        (ap (binding_for_session session) same ∙ bound) opened in
    (
      rest.0 ∙ same,
      rest.1
          ∙ ap some (
              longer-longer (thought c.kind c.content) (answer c.kind c.content) (thoughts cs)
                (answers cs) (new_message c.fresh)),
    )
