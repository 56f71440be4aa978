-- ===== src/Protocol/Run/Category.antt =====
-- daemon/protocol/src/run.rs: the tokens of the categories, written and parsed.
use agentchat.Prelude.{Option, none, some, if◌then◌else◌, ◌==◌, nat_eq, list_eq}
use agentchat.Text.{Text, codes, trim, to_ascii_lowercase}
use agentchat.Protocol.Run.Types.{
  BlockingCategory, contradicts_brief, missing_requirement, incorrect, breaks_existing, security,
  data_loss, NonBlockingCategory, style, naming, perf_hint, test_gap, refactor, readability, other,
  FindingSeverity, blocking, non_blocking,
}

abbrev pub blocking_str : BlockingCategory → Text
blocking_str contradicts_brief = codes "contradicts_brief"
blocking_str missing_requirement = codes "missing_requirement"
blocking_str incorrect = codes "incorrect"
blocking_str breaks_existing = codes "breaks_existing"
blocking_str security = codes "security"
blocking_str data_loss = codes "data_loss"

-- The `match` of `parse`, on the token trimmed and in lower case.
unfoldable pub blocking_of_token : Text → Option BlockingCategory
blocking_of_token t =
    if t == codes "contradicts_brief"
    then some contradicts_brief
    else if t == codes "missing_requirement"
    then some missing_requirement
    else if t == codes "incorrect"
    then some incorrect
    else if t == codes "breaks_existing"
    then some breaks_existing
    else if t == codes "security"
    then some security
    else if t == codes "data_loss"
    then some data_loss
    else none

unfoldable pub blocking_parse : Text → Option BlockingCategory
blocking_parse value = blocking_of_token (to_ascii_lowercase (trim value))

abbrev pub non_blocking_str : NonBlockingCategory → Text
non_blocking_str style = codes "style"
non_blocking_str naming = codes "naming"
non_blocking_str perf_hint = codes "perf_hint"
non_blocking_str test_gap = codes "test_gap"
non_blocking_str refactor = codes "refactor"
non_blocking_str readability = codes "readability"
non_blocking_str other = codes "other"

unfoldable pub non_blocking_of_token : Text → NonBlockingCategory
non_blocking_of_token t =
    if t == codes "style"
    then style
    else if t == codes "naming"
    then naming
    else if t == codes "perf_hint"
    then perf_hint
    else if t == codes "test_gap"
    then test_gap
    else if t == codes "refactor"
    then refactor
    else if t == codes "readability"
    then readability
    else other

unfoldable pub parse_or_other : Text → NonBlockingCategory
parse_or_other value = non_blocking_of_token (to_ascii_lowercase (trim value))

-- `FindingSeverity::category_str`.
abbrev pub category_str : FindingSeverity → Text
category_str (blocking c) = blocking_str c
category_str (non_blocking c) = non_blocking_str c
