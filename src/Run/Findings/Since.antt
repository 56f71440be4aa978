-- ===== src/Run/Findings/Since.antt =====
-- findings.rs: the blocking findings of a round, and those that are new.
use agentchat.Prelude.{List, [], filter, map, not, contains, unique_from, list_eq, nat_eq}
use agentchat.Text.{Text}
use agentchat.Protocol.Run.{Finding, is_blocking}

abbrev pub id_of : Finding → Text
id_of f = f.finding_id

-- The set `seen` of `new_blocking_since`.
abbrev pub blocking_ids : List Finding → List Text
blocking_ids fs = map id_of (filter is_blocking fs)

unfoldable pub new_blocking_since : List Finding → List Finding → List Finding
unfolding unique_from contains
new_blocking_since previous current =
    let seen = blocking_ids previous in
    unique_from id_of [] (filter (λ f. not (contains seen (id_of f))) (filter is_blocking current))

unfoldable pub blocking_findings : List Finding → List Finding
unfolding unique_from
blocking_findings findings = unique_from id_of [] (filter is_blocking findings)
