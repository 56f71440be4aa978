-- ===== src/Protocol/Wire/Mention.antt =====
-- daemon/protocol/src/lib.rs: `canonical_mention_handle`. Unicode's tables are the record `Unicode`.
use agentchat.Prelude.{
  ℕ, Bool, true, false, ◌||◌, not, [], ◌∷◌, ◌++◌, if◌then◌else◌, is_empty, ◌==◌, nat_eq,
}
use mathlib.Core.List.{reverse}
use agentchat.Text.{Text, codes, trim}

-- `char::to_lowercase` and `char::is_alphanumeric`.
pub record Unicode : Type 0 where
  pub to_lowercase : ℕ → Text
  pub is_alphanumeric : ℕ → Bool

-- `matches!(ch, '-' | '_' | '.')`.
abbrev pub is_separator : ℕ → Bool
is_separator c = c == b'-' || c == b'_' || c == b'.'

-- `value.chars().flat_map(char::to_lowercase)`.
unfoldable pub lowercase : Unicode → Text → Text
lowercase u [] = []
lowercase u (c ∷ cs) = u.to_lowercase c ++ lowercase u cs

-- The loop; `result` is what has been pushed, and `previous_was_separator` as in the source.
unfoldable pub canonical_from : Unicode → Bool → Text → Text
canonical_from u previous [] = []
canonical_from u previous (c ∷ cs) =
    let after_kept = canonical_from u false cs in
    let after_dash = canonical_from u true cs in
    let skipped = canonical_from u previous cs in
    if u.is_alphanumeric c || is_separator c
    then c ∷ after_kept
    else if not previous
    then b'-' ∷ after_dash
    else skipped

-- `trim_matches` on one side.
unfoldable pub trim_separators : Text → Text
trim_separators [] = []
trim_separators (c ∷ cs) = let rest = trim_separators cs in if is_separator c then rest else c ∷ cs

unfoldable pub canonical_mention_handle : Unicode → Text → Text
unfolding trim lowercase canonical_from trim_separators
canonical_mention_handle u value =
    let cleaned = reverse (
      trim_separators
        (reverse (trim_separators (canonical_from u false (lowercase u (trim value)))))) in
    if is_empty cleaned then codes "agent" else cleaned
