-- ===== src/Run/Supervisor/Lines.antt =====
-- supervisor.rs: the activity log, and the plain list of the lines that a run was given.
use agentchat.Prelude.{
  ℕ, zero, suc, ◌+◌, ◌-◌, ◌%◌, ◌<◌, ◌≡◌, refl, sym, ap, subst, ◌∙◌, inl, inr, List, [], ◌∷◌, ◌++◌,
  some, if◌then◌else◌, lookup, unwrap_or, lookup-insert, length, length-append, drop, length-drop,
  drop-append, drop-drop, filter, ltb, ◌==◌, ==_iff, list_eq, nat_eq, arith, Option-cases, if_cases,
  u64_max,
}
use agentchat.Text.{Text}
use agentchat.Run.Supervisor.Registry.{
  LogEntry, RunSupervisor, new_supervisor, register, sync, append_log, park, unpark, finish,
  log_after, keep_newest, max_log_lines,
}
use agentchat.Run.Supervisor.Calls.{
  Call, synced, logged, parked, unparked, decided, finished, call, run,
}
use agentchat.Run.Supervisor.Consistent.{decide-none, decide-some}

-- The lines of each run, with the time of each, oldest first.
abbrev Lines : Type 0
Lines = Text → List (ℕ × Text)

unfoldable pub spec_call : Call → Lines → Lines
spec_call (logged id line now) l k = if id == k then l k ++ (now, line) ∷ [] else l k
spec_call _ l k = l k

unfoldable pub spec : List Call → Lines → Lines
unfolding spec_call
spec [] l = l
spec (c ∷ cs) l = spec cs (spec_call c l)

-- The log's entries for lines, numbered upward from `n`.
unfoldable pub number : ℕ → List (ℕ × Text) → List LogEntry
number n [] = []
number n ((at, line) ∷ ls) = record { seq = n; at_ms = at; line = line } ∷ number (suc n) ls

length-number : (n : ℕ) (ls : List (ℕ × Text)) → length (number n ls) ≡ length ls
unfolding number
length-number n [] = refl
length-number n (l ∷ ls) = ap suc (length-number (suc n) ls)

number-append :
    (n at : ℕ) (line : Text) (ls : List (ℕ × Text))
    → number n (ls ++ (at, line) ∷ [])
      ≡ number n ls ++ record { seq = n + length ls; at_ms = at; line = line } ∷ []
unfolding number
number-append n at line [] =
    ap (λ m. record { seq = m; at_ms = at; line = line } ∷ []) (omega arith)
number-append n at line (l ∷ ls) =
    ap (λ t. number n (l ∷ []) ++ t)
      (number-append (suc n) at line ls
        ∙ ap (λ m. number (suc n) ls ++ record { seq = m; at_ms = at; line = line } ∷ [])
            (omega arith))

drop-number : (k n : ℕ) (ls : List (ℕ × Text)) → drop k (number n ls) ≡ number (n + k) (drop k ls)
unfolding number
drop-number zero n ls = ap (λ m. number m ls) (omega arith)
drop-number (suc k) n [] = refl
drop-number (suc k) n (l ∷ ls) =
    drop-number k (suc n) ls ∙ ap (λ m. number m (drop k ls)) (omega arith)

filter-number_all :
    (k n : ℕ) (ls : List (ℕ × Text)) → k < n → filter (λ e. ltb k e.seq) (number n ls) ≡ number n ls
unfolding number
filter-number_all k n [] h = refl
filter-number_all k n (l ∷ ls) h = ground (arith, filter-number_all k (suc n) ls (omega arith))

filter-number :
    (k n d : ℕ) (ls : List (ℕ × Text))
    → suc k ≡ n + d
    → filter (λ e. ltb k e.seq) (number n ls) ≡ number (1 + k) (drop d ls)
unfolding number
filter-number k n zero ls h =
    filter-number_all k n ls (omega arith) ∙ ap (λ m. number m ls) (omega arith)
filter-number k n (suc d) [] h = refl
filter-number k n (suc d) (l ∷ ls) h = ground (arith, filter-number k (suc n) d ls (omega arith))

keep_newest-drop : (log : List LogEntry) → keep_newest log ≡ drop (length log - max_log_lines) log
unfolding keep_newest
keep_newest-drop log =
    if_cases (λ t. t ≡ drop (length log - max_log_lines) log) (ltb max_log_lines (length log))
      (λ _. refl) (λ short. ap (λ d. drop d log) {x = 0} (ground arith))

-- A log that has dropped its oldest lines, after one more.
keep_newest-snoc :
    (all : List LogEntry) (e : LogEntry)
    → keep_newest (drop (length all - max_log_lines) all ++ e ∷ [])
      ≡ drop (length (all ++ e ∷ []) - max_log_lines) (all ++ e ∷ [])
keep_newest-snoc all e =
    ap keep_newest (sym (drop-append lost all (e ∷ []) (omega arith)))
    ∙ keep_newest-drop (drop lost (all ++ e ∷ []))
    ∙ drop-drop (length (drop lost (all ++ e ∷ [])) - max_log_lines) lost (all ++ e ∷ [])
    ∙ ap (λ d. drop d (all ++ e ∷ []))
        (omega (arith, length-drop lost (all ++ e ∷ []), length-append all (e ∷ [])))
  where
    lost : ℕ
    lost = length all - max_log_lines

-- A supervisor's logs are the newest entries of the lines, and its counters their numbers.
pub record Follows (s : RunSupervisor) (l : Lines) : Type 0 where
  pub kept :
      (id : Text)
      → unwrap_or [] (lookup s.logs id) ≡ drop (length (l id) - max_log_lines) (number 1 (l id))
  pub counted : (id : Text) → unwrap_or 0 (lookup s.next_seq id) ≡ length (l id)

append_log-Follows :
    (k line : Text) (now : ℕ) (s : RunSupervisor) (l : Lines)
    → length (l k) < u64_max
    → Follows s l
    → Follows (append_log k line now s).1 (spec_call (logged k line now) l)
unfolding append_log spec_call
append_log-Follows k line now s l fits h = record {
  kept = λ id. ap (unwrap_or []) (lookup-insert s.logs k id _) ∙ kept_at id;
  counted = λ id. ap (unwrap_or 0) (lookup-insert s.next_seq k id _) ∙ counted_at id;
}
  where
    seq : ℕ
    seq = (unwrap_or 0 (lookup s.next_seq k) + 1) % 18446744073709551616

    is_next : seq ≡ 1 + length (l k)
    is_next = omega (arith, h.counted k, fits)

    entry : ℕ → LogEntry
    entry n = record { seq = n; at_ms = now; line = line }

    grown : List LogEntry
    grown = keep_newest (unwrap_or [] (lookup s.logs k) ++ entry seq ∷ [])

    is_kept :
        unwrap_or [] (lookup s.logs k)
        ≡ drop (length (number 1 (l k)) - max_log_lines) (number 1 (l k))
    is_kept =
        h.kept k ∙ ap (λ n. drop (n - max_log_lines) (number 1 (l k))) (sym (length-number 1 (l k)))

    is_grown :
        grown
        ≡ drop
            (length (l k ++ (now, line) ∷ []) - max_log_lines)
            (number 1 (l k ++ (now, line) ∷ []))
    is_grown =
        ap (λ t. keep_newest (t ++ entry seq ∷ [])) is_kept
        ∙ ap
            (λ n.
              keep_newest
                (drop (length (number 1 (l k)) - max_log_lines) (number 1 (l k)) ++ entry n ∷ []))
            is_next
        ∙ keep_newest-snoc (number 1 (l k)) (entry (1 + length (l k)))
        ∙ ap (λ t. drop (length t - max_log_lines) t) (sym (number-append 1 now line (l k)))
        ∙ ap (λ n. drop (n - max_log_lines) (number 1 (l k ++ (now, line) ∷ [])))
            (length-number 1 (l k ++ (now, line) ∷ []))

    kept_at :
        (id : Text)
        → unwrap_or [] (if k == id then some grown else lookup s.logs id)
          ≡ drop
              (length (if k == id then l id ++ (now, line) ∷ [] else l id) - max_log_lines)
              (number 1 (if k == id then l id ++ (now, line) ∷ [] else l id))
    kept_at id = ground (arith, ==_iff k id, is_grown, h.kept id)

    counted_at :
        (id : Text)
        → unwrap_or 0 (if k == id then some seq else lookup s.next_seq id)
          ≡ length (if k == id then l id ++ (now, line) ∷ [] else l id)
    counted_at id =
        ground (arith, ==_iff k id, is_next, h.counted id, length-append (l id) ((now, line) ∷ []))

-- The calls that write no line leave the log as it is.
call-Follows :
    (c : Call) (s : RunSupervisor) (l : Lines)
    → ((k : Text) → length (l k) < u64_max)
    → Follows s l
    → Follows (call c s) (spec_call c l)
unfolding call sync register park unpark finish spec_call
call-Follows (synced r) s l fits h = record { kept = h.kept; counted = h.counted }
call-Follows (logged k line now) s l fits h = append_log-Follows k line now s l (fits k) h
call-Follows (parked k packet channel now) s l fits h = record {
  kept = h.kept;
  counted = h.counted;
}
call-Follows (unparked k) s l fits h = record { kept = h.kept; counted = h.counted }
call-Follows (finished k problem now) s l fits h = record { kept = h.kept; counted = h.counted }
call-Follows (decided waits k decision now) s l fits h = elim (Option-cases (lookup s.gates k)) [
  | inl e ↦ subst (λ t. Follows t l) (sym (ap (λ t. t.1) (decide-none waits k decision now s e))) h
  | inr (channel, e) ↦
      subst (λ t. Follows t l) (sym (ap (λ t. t.1) (decide-some waits k decision now s e)))
        record { kept = h.kept; counted = h.counted }
]

run-Follows :
    (cs : List Call) (s : RunSupervisor) (l : Lines)
    → ((k : Text) → length (l k) + length cs < u64_max)
    → Follows s l
    → Follows (run cs s) (spec cs l)
unfolding run spec spec_call
run-Follows [] s l fits h = h
run-Follows (c ∷ cs) s l fits h =
    run-Follows cs (call c s) (spec_call c l) (λ k. one_more c k)
      (call-Follows c s l (λ k. omega (arith, fits k)) h)
  where
    one_more : (c : Call) (k : Text) → length (spec_call c l k) + length cs < u64_max
    one_more (logged id line now) k = ground (arith, fits k, length-append (l k) ((now, line) ∷ []))
    one_more (synced r) k = omega (arith, fits k)
    one_more (parked id packet channel now) k = omega (arith, fits k)
    one_more (unparked id) k = omega (arith, fits k)
    one_more (decided waits id decision now) k = omega (arith, fits k)
    one_more (finished id problem now) k = omega (arith, fits k)

-- The lines that a run was given by some calls on a new supervisor.
abbrev pub lines_of : List Call → Lines
lines_of cs = spec cs (λ _. [])

new_supervisor-Follows : Follows new_supervisor (λ _. [])
unfolding new_supervisor number lookup
new_supervisor-Follows = record { kept = λ id. refl; counted = λ id. refl }

-- After fewer than 2 ^ 64 - 1 calls on a new supervisor, `log_after(id, k)` is what a client has not
-- seen that saw `k`: of the lines the run was given, in order and numbered from 1, those after the
-- first `k`, but never one older than the newest 5,000.
pub log_after-run :
    (cs : List Call) (id : Text) (k : ℕ)
    → length cs < u64_max
    → let lost = length (lines_of cs id) - max_log_lines in
      let from = if ltb lost k then k else lost in
      log_after id k (run cs new_supervisor) ≡ number (1 + from) (drop from (lines_of cs id))
unfolding log_after
log_after-run cs id k fits =
    ap (filter (λ e. ltb k e.seq)) (
      (run-Follows cs new_supervisor (λ _. []) (λ _. omega (arith, fits))
          new_supervisor-Follows).kept
        id
      ∙ drop-number lost 1 (lines_of cs id))
    ∙ if_cases
        (λ from.
          filter (λ e. ltb k e.seq) (number (1 + lost) (drop lost (lines_of cs id)))
          ≡ number (1 + from) (drop from (lines_of cs id)))
        (ltb lost k)
        (λ later.
          filter-number k (1 + lost) (k - lost) (drop lost (lines_of cs id)) (ground arith)
          ∙ ap (number (1 + k)) (
              drop-drop (k - lost) lost (lines_of cs id)
              ∙ ap (λ d. drop d (lines_of cs id)) {x = lost + (k - lost)} (ground arith)))
        (λ early. filter-number_all k (1 + lost) (drop lost (lines_of cs id)) (ground arith))
  where
    lost : ℕ
    lost = length (lines_of cs id) - max_log_lines
