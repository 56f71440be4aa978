-- ===== src/Server/Spans.antt =====
-- app.rs: where the mentions of a message stand in it.
use agentchat.Prelude.{
  ◌≡◌, refl, sym, ap, ℕ, suc, ◌+◌, ◌≤◌, ◌<◌, true, false, List, [], ◌∷◌, length, drop, length-drop,
  drop-drop, ◌==◌, nat_eq, is_empty, ◌&&◌, arith, ==_iff, if_cases, ◌∙◌, ◌-◌, Option, none, some,
}
use agentchat.Text.{Text}
use agentchat.Protocol.Wire.{Unicode}
use agentchat.Server.Mentions.{
  ParsedAgentMention, take_handle, is_mention, mention_spans, parse_agent_mention_spans, take,
  slice,
}

-- The mentions stand one after the other, from a position on, inside the text, which has an `@` and
-- the handle there.
pub Spans : Text → ℕ → List ParsedAgentMention → Type 0
Spans content from [] = Unit {0}
Spans content from (m ∷ ms) =
    (from ≤ m.start)
    × (suc m.start < m.end)
    × (m.end ≤ length content)
    × (slice m.start (suc m.start) content ≡ b'@' ∷ [])
    × (slice (suc m.start) m.end content ≡ m.handle)
    × Spans content m.end ms

take-take_handle :
    (u : Unicode) (cs : Text) → take (length (take_handle u cs).0) cs ≡ (take_handle u cs).0
unfolding take_handle
take-take_handle u [] = refl
take-take_handle u (c ∷ cs) = ground (arith, take-take_handle u cs)

length-take_handle : (u : Unicode) (cs : Text) → length (take_handle u cs).0 ≤ length cs
unfolding take_handle
length-take_handle u [] = omega arith
length-take_handle u (c ∷ cs) = ground (arith, length-take_handle u cs)

-- What is left of a text after a character.
drop-suc :
    (k : ℕ) (content : Text) (c : ℕ) (cs : Text)
    → drop k content ≡ c ∷ cs
    → drop (suc k) content ≡ cs
drop-suc k content c cs h =
    ap (λ n. drop n content) {x = suc k} {y = k + 1} (omega arith)
    ∙ (sym (drop-drop 1 k content) ∙ ap (drop 1) h)

length-suc :
    (k : ℕ) (content : Text) (c : ℕ) (cs : Text)
    → drop k content ≡ c ∷ cs
    → suc k + length cs ≡ length content
length-suc k content c cs h = omega (arith, length-drop k content, ap length h)

-- A position that no mention of the text before reaches.
start-next :
    (u : Unicode) (from position c : ℕ) (cs : Text)
    → from ≤ position + length (take_handle u (c ∷ cs)).0
    → from ≤ suc position + length (take_handle u cs).0
unfolding take_handle
start-next u from position c cs h = ground (arith, h)

start-at :
    (u : Unicode) (at : u.is_alphanumeric b'@' ≡ false) (cs : Text)
    → length (take_handle u (b'@' ∷ cs)).0 ≡ 0
unfolding take_handle
start-at u at cs = ground (arith, at)

length-pos : (cs : Text) → is_empty cs ≡ false → 0 < length cs
length-pos [] h = ground (arith, h)
length-pos (c ∷ cs) h = omega arith

-- The character at a position.
slice-head :
    (k : ℕ) (content : Text) (c : ℕ) (cs : Text)
    → drop k content ≡ c ∷ cs
    → slice k (suc k) content ≡ c ∷ []
slice-head k content c cs h =
    ap (λ n. take n (drop k content)) {x = suc k - k} {y = 1} (omega arith) ∙ ap (take 1) h

-- A mention at a position, and the ones after it.
mention-Spans :
    (u : Unicode) (content : Text) (from position : ℕ) (cs : Text) (ms : List ParsedAgentMention)
    (at : slice position (suc position) content ≡ b'@' ∷ []) (before : from ≤ position)
    (here : drop (suc position) content ≡ cs) (fits : suc position + length cs ≡ length content)
    (named : is_empty (take_handle u cs).0 ≡ false)
    (later : Spans content (suc position + length (take_handle u cs).0) ms)
    → Spans content from (
        record {
          handle = (take_handle u cs).0;
          start = position;
          end = suc position + length (take_handle u cs).0;
        }
        ∷ ms)
unfolding Spans
mention-Spans u content from position cs ms at before here fits named later = (
  before,
  omega (arith, length-pos (take_handle u cs).0 named),
  omega (arith, fits, length-take_handle u cs),
  at,
  ap (λ n. take n (drop (suc position) content))
        {x = suc position + length (take_handle u cs).0 - suc position} (omega arith)
      ∙ ap (take (length (take_handle u cs).0)) here
      ∙ take-take_handle u cs,
  later,
)

-- Where a mention begins.
pub found-at :
    (u : Unicode) (previous : Option ℕ) (c : ℕ) (cs : Text)
    → (c == b'@' && is_mention u previous (take_handle u cs)) ≡ true
    → (c ≡ b'@') × (is_empty (take_handle u cs).0 ≡ false)
found-at u previous c cs found = ground (arith, found, ==_iff c b'@')

before-at :
    (u : Unicode) (at : u.is_alphanumeric b'@' ≡ false) (from position c : ℕ) (cs : Text)
    → from ≤ position + length (take_handle u (c ∷ cs)).0
    → c ≡ b'@'
    → from ≤ position
before-at u at from position c cs before here =
    omega (arith, before, ap (λ d. length (take_handle u (d ∷ cs)).0) here, start-at u at cs)

mention_spans-Spans :
    (u : Unicode) (at : u.is_alphanumeric b'@' ≡ false) (content : Text) (previous : Option ℕ)
    (from position : ℕ) (cs : Text) (before : from ≤ position + length (take_handle u cs).0)
    (here : drop position content ≡ cs)
    → Spans content from (mention_spans u previous position cs)
unfolding Spans mention_spans
mention_spans-Spans u at content previous from position [] before here = tt
mention_spans-Spans u at content previous from position (c ∷ cs) before here =
    let next = drop-suc position content c cs here in
    if_cases (Spans content from) (c == b'@' && is_mention u previous (take_handle u cs))
      (λ found.
        mention-Spans u content from position cs _
          (slice-head position content c cs here
            ∙ ap (λ d. d ∷ []) (found-at u previous c cs found).0)
          (before-at u at from position c cs before (found-at u previous c cs found).0) next
          (length-suc position content c cs here) (found-at u previous c cs found).1
          (mention_spans-Spans u at content (some c) _ (suc position) cs (omega arith) next))
      (λ _.
        mention_spans-Spans u at content (some c) from (suc position) cs
          (start-next u from position c cs before) next)

-- The mentions that are found in a message stand one after the other, where an `@` is not alphanumeric:
-- each begins at an `@` of the text; its handle has one character or more, and is the text behind that
-- `@` up to the mention's end, which is no later than the text's; and none begins before the last one
-- ended.
pub parse_agent_mention_spans-Spans :
    (u : Unicode) (at : u.is_alphanumeric b'@' ≡ false) (content : Text)
    → Spans content 0 (parse_agent_mention_spans u content)
unfolding parse_agent_mention_spans
parse_agent_mention_spans-Spans u at content =
    mention_spans-Spans u at content none 0 0 content (omega arith) refl
