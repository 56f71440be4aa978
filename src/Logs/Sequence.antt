-- ===== src/Logs/Sequence.antt =====
-- A journal under the calls of the daemon, against the plain lists of what was emitted: `take_seq` and
-- `append` number the events of each id from 1, and a replay is the end of a list.
use agentchat.Prelude.{
  unwrap_or, ℕ, zero, suc, ◌+◌, ◌<◌, ◌≡◌, refl, ap, ◌∙◌, Bool, List, [], ◌∷◌, ◌++◌, Option, some,
  if◌then◌else◌, ltb, filter, length, drop, ◌==◌, list_eq, nat_eq, arith,
}
use agentchat.Text.{Text}
use agentchat.Logs.Numbered.{Journal, and_then, last, init, take_seq, append, remove}

module _ {Event : Type 0} (id_of : Event → Option Text) (seq_of : Event → Option ℕ) where
  -- An event but for its number, with the id whose journal takes it.
  pub record Entry : Type 0 where
    pub id : Text
    pub make : ℕ → Event
    pub owned : (n : ℕ) → id_of (make n) ≡ some id
    pub numbered : (n : ℕ) → seq_of (make n) ≡ some n

  pub data Call : Type 0 where
    open_log : Text → Call
    emit : Entry → Call
    close_log : Text → Call

  -- `let seq = log.next_seq(id); log.append(event)`.
  unfoldable pub emit_entry : Entry → Journal Event → Journal Event
  unfolding take_seq append
  emit_entry e j = let (seq, after) = take_seq e.id j in append id_of (e.make seq) after

  unfoldable pub call : Call → Journal Event → Journal Event
  unfolding init emit_entry remove
  call (open_log id) j = init id j
  call (emit e) j = emit_entry e j
  call (close_log id) j = remove id j

  unfoldable pub run : List Call → Journal Event → Journal Event
  unfolding call
  run [] j = j
  run (c ∷ cs) j = run cs (call c j)

  -- What each id has emitted since it was last closed, oldest first.
  unfoldable pub spec_call : Call → (Text → List Entry) → Text → List Entry
  spec_call (open_log _) s id = s id
  spec_call (emit e) s id = if e.id == id then s id ++ e ∷ [] else s id
  spec_call (close_log k) s id = if k == id then [] else s id

  unfoldable pub spec : List Call → (Text → List Entry) → Text → List Entry
  unfolding spec_call
  spec [] s = s
  spec (c ∷ cs) s = spec cs (spec_call c s)

  -- The entries, numbered upward from `n`.
  unfoldable pub number : ℕ → List Entry → List Event
  number n [] = []
  number n (e ∷ es) = e.make n ∷ number (suc n) es

  pub number-append :
      (n : ℕ) (es : List Entry) (e : Entry)
      → number n (es ++ e ∷ []) ≡ number n es ++ e.make (n + length es) ∷ []
  unfolding number
  number-append n [] e = ap (λ k. e.make k ∷ []) (omega arith)
  number-append n (d ∷ es) e =
      ap (λ l. d.make n ∷ l)
        (number-append (suc n) es e ∙ ap (λ k. number (suc n) es ++ e.make k ∷ []) (omega arith))

  abbrev newer : ℕ → Event → Bool
  newer k event = ltb k (unwrap_or 0 (seq_of event))

  filter-number_all :
      (k n : ℕ) (es : List Entry) → k < n → filter (newer k) (number n es) ≡ number n es
  unfolding number
  filter-number_all k n [] h = refl
  filter-number_all k n (e ∷ es) h =
      rw (e.numbered n) (ground (arith, filter-number_all k (suc n) es (omega arith)))

  pub filter-number :
      (k n d : ℕ) (es : List Entry)
      → suc k ≡ n + d
      → filter (newer k) (number n es) ≡ number (suc k) (drop d es)
  unfolding number
  filter-number k n zero es h =
      filter-number_all k n es (omega arith) ∙ ap (λ m. number m es) (omega arith)
  filter-number k n (suc d) [] h = refl
  filter-number k n (suc d) (e ∷ es) h =
      rw (e.numbered n) (ground (arith, filter-number k (suc n) d es (omega arith)))

  pub last-number :
      (n : ℕ) (e : Entry) (es : List Entry)
      → and_then (last (number n (e ∷ es))) seq_of ≡ some (n + length es)
  unfolding number last
  last-number n e [] = e.numbered n ∙ ap some (omega arith)
  last-number n e (d ∷ es) = last-number (suc n) d es ∙ ap some (omega arith)
