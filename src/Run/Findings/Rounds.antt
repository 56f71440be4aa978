-- ===== src/Run/Findings/Rounds.antt =====
-- findings.rs: what counts as new from round to round.
use mathlib.Core.List.{append-nil}
use agentchat.Prelude.{
  ◌+◌, ◌≡◌, ap, ◌∙◌, true, not, ◌&&◌, List, [], ◌++◌, map, filter, length, contains, unique_from,
  unique_from-append, contains-unique_from, unique_from-Distinct, unique_from-filter, length-append,
  filter-append, Distinct, list_eq, nat_eq, mem-unique_from, Memᴰ, mem-filter, arith,
}
use agentchat.Text.{Text}
use agentchat.Protocol.Run.{Finding, is_blocking}
use agentchat.Run.Findings.Since.{id_of, blocking_ids, new_blocking_since, blocking_findings}

pub new_blocking_since_unique :
    (previous current : List Finding)
    → new_blocking_since previous current
      ≡ unique_from id_of (blocking_ids previous) (filter is_blocking current)
unfolding new_blocking_since
new_blocking_since_unique previous current =
    unique_from-filter id_of (blocking_ids previous) [] (filter is_blocking current)

-- The blocking findings of two rounds together, without repetition, are those of the first followed
-- by what `new_blocking_since` reports of the second.
pub blocking_findings-append :
    (previous current : List Finding)
    → blocking_findings (previous ++ current)
      ≡ blocking_findings previous ++ new_blocking_since previous current
unfolding blocking_findings
blocking_findings-append previous current =
    rw (filter-append is_blocking previous current, new_blocking_since_unique)
      (unique_from-append id_of [] (filter is_blocking previous) (filter is_blocking current)
        ∙ rw append-nil)

pub length-blocking_findings-append :
    (previous current : List Finding)
    → length (blocking_findings (previous ++ current))
      ≡ length (blocking_findings previous) + length (new_blocking_since previous current)
length-blocking_findings-append previous current =
    ap length (blocking_findings-append previous current)
    ∙ length-append (blocking_findings previous) (new_blocking_since previous current)

-- The ids that are reported as new are the ids of the round's blocking findings that no earlier
-- finding blocked under, each once.
pub new_blocking_since-ids :
    (previous current : List Finding)
    → ((id : Text)
        → contains (map id_of (new_blocking_since previous current)) id
          ≡ (contains (blocking_ids current) id && not (contains (blocking_ids previous) id)))
      × Distinct (map id_of (new_blocking_since previous current))
new_blocking_since-ids previous current = rw new_blocking_since_unique (
  (λ id. contains-unique_from id_of (blocking_ids previous) (filter is_blocking current) id),
  unique_from-Distinct id_of (blocking_ids previous) (filter is_blocking current),
)

-- The author must answer for exactly the ids of the blocking findings, each once.
pub blocking_findings-ids :
    (findings : List Finding)
    → ((id : Text)
        → contains (map id_of (blocking_findings findings)) id
          ≡ contains (blocking_ids findings) id)
      × Distinct (map id_of (blocking_findings findings))
unfolding blocking_findings contains
blocking_findings-ids findings = (
  (λ id. ground (arith, contains-unique_from id_of [] (filter is_blocking findings) id)),
  unique_from-Distinct id_of [] (filter is_blocking findings),
)

pub mem-blocking_findings :
    (findings : List Finding) {f : Finding}
    → Memᴰ f (blocking_findings findings)
    → Memᴰ f findings × (is_blocking f ≡ true)
unfolding blocking_findings
mem-blocking_findings findings m =
    mem-filter is_blocking findings (mem-unique_from id_of [] (filter is_blocking findings) m)
