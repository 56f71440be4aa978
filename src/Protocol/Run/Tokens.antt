-- ===== src/Protocol/Run/Tokens.antt =====
-- run.rs: the categories' tokens are parsed back, and nothing else is a blocking category.
use agentchat.Prelude.{
  some_inj, ◌≡◌, refl, sym, ap, ◌∙◌, subst, ◌↔◌, ◌≢◌, Bool, true, false, Option, none, some,
  if_cases, ◌==◌, ==_iff, nat_eq, list_eq, arith,
}
use agentchat.Text.{Text, codes, trim, to_ascii_lowercase}
use agentchat.Protocol.Run.Types.{
  BlockingCategory, contradicts_brief, missing_requirement, incorrect, breaks_existing, security,
  data_loss, NonBlockingCategory, style, naming, perf_hint, test_gap, refactor, readability, other,
}
use agentchat.Protocol.Run.Category.{
  blocking_str, blocking_of_token, blocking_parse, non_blocking_str, non_blocking_of_token,
  parse_or_other,
}

-- A token and the category it is read as.
abbrev ReadAs : Text → BlockingCategory → Option BlockingCategory → Type 0
ReadAs u c o = o ≡ some c → u ≡ blocking_str c

hit : (u : Text) (c d : BlockingCategory) → (u == blocking_str d) ≡ true → ReadAs u c (some d)
hit u c d e h = (==_iff u (blocking_str d)).0 e ∙ ap blocking_str (some_inj h)

blocking_of_token-ReadAs : (u : Text) (c : BlockingCategory) → ReadAs u c (blocking_of_token u)
unfolding blocking_of_token
blocking_of_token-ReadAs u c =
    if_cases (ReadAs u c) (u == blocking_str contradicts_brief) (hit u c contradicts_brief) (λ _.
      if_cases (ReadAs u c) (u == blocking_str missing_requirement) (hit u c missing_requirement)
        (λ _. if_cases (ReadAs u c) (u == blocking_str incorrect) (hit u c incorrect) (λ _.
          if_cases (ReadAs u c) (u == blocking_str breaks_existing) (hit u c breaks_existing) (λ _.
            if_cases (ReadAs u c) (u == blocking_str security) (hit u c security) (λ _.
              if_cases (ReadAs u c) (u == blocking_str data_loss) (hit u c data_loss)
                (λ _ h. absurd (ground arith)))))))

blocking_of_token-str : (c : BlockingCategory) → blocking_of_token (blocking_str c) ≡ some c
unfolding blocking_of_token agentchat.Prelude.list_eqb
blocking_of_token-str contradicts_brief = refl
blocking_of_token-str missing_requirement = refl
blocking_of_token-str incorrect = refl
blocking_of_token-str breaks_existing = refl
blocking_of_token-str security = refl
blocking_of_token-str data_loss = refl

-- A text names a blocking category exactly if it is the category's token, up to surrounding white
-- space and ASCII case.
pub blocking_parse_iff :
    (value : Text) (c : BlockingCategory)
    → (blocking_parse value ≡ some c) ↔ (to_ascii_lowercase (trim value) ≡ blocking_str c)
unfolding blocking_parse
blocking_parse_iff value c = (
  blocking_of_token-ReadAs (to_ascii_lowercase (trim value)) c,
  λ e. ap blocking_of_token e ∙ blocking_of_token-str c,
)

-- The tokens that are written for the categories are read as the same categories, and a token of an
-- advisory category names no blocking one.
pub category_str_parsed :
    ((c : BlockingCategory) → blocking_parse (blocking_str c) ≡ some c)
    × ((c : NonBlockingCategory)
        → (parse_or_other (non_blocking_str c) ≡ c) × (blocking_parse (non_blocking_str c) ≡ none))
unfolding blocking_parse parse_or_other non_blocking_of_token agentchat.Prelude.list_eqb trim
    to_ascii_lowercase blocking_of_token agentchat.Text.is_whitespace
category_str_parsed = (blocking, advisory)
  where
    blocking : (c : BlockingCategory) → blocking_parse (blocking_str c) ≡ some c
    blocking contradicts_brief = refl
    blocking missing_requirement = refl
    blocking incorrect = refl
    blocking breaks_existing = refl
    blocking security = refl
    blocking data_loss = refl

    advisory :
        (c : NonBlockingCategory)
        → (parse_or_other (non_blocking_str c) ≡ c) × (blocking_parse (non_blocking_str c) ≡ none)
    advisory style = (refl, refl)
    advisory naming = (refl, refl)
    advisory perf_hint = (refl, refl)
    advisory test_gap = (refl, refl)
    advisory refactor = (refl, refl)
    advisory readability = (refl, refl)
    advisory other = (refl, refl)
