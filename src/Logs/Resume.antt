-- ===== src/Logs/Resume.antt =====
-- A client that leaves and comes back: the tail of a journal, and the replay from it.
use agentchat.Prelude.{
  unwrap_or, ℕ, suc, ◌+◌, ◌<◌, ◌≡◌, refl, sym, ap, ◌∙◌, false, List, [], ◌∷◌, ◌++◌, Option,
  if◌then◌else◌, if_cases, length, length-append, drop, u64_max, ◌==◌, list_eq, nat_eq, arith,
}
use mathlib.Core.List.{append-nil, append_assoc}
use agentchat.Text.{Text}
use agentchat.Logs.Numbered.{
  Journal, and_then, last, new_journal, events_of, tail_seq, replay_after,
}
use agentchat.Logs.Sequence.{
  Entry, Call, open_log, emit, close_log, call, run, spec_call, spec, number, last-number,
}
use agentchat.Logs.Refinement.{emitted_by, run-new_journal-Follows, replay_after-run}

module _ {Event : Type 0} (id_of : Event → Option Text) (seq_of : Event → Option ℕ) where
  tail_seq-events_of :
      (id : Text) (j : Journal Event)
      → tail_seq seq_of id j ≡ unwrap_or 0 (and_then (last (events_of id j)) seq_of)
  unfolding tail_seq events_of last
  tail_seq-events_of id j = ground arith

  last_number :
      (es : List (Entry id_of seq_of))
      → unwrap_or 0 (and_then (last (number id_of seq_of 1 es)) seq_of) ≡ length es
  unfolding number last
  last_number [] = refl
  last_number (e ∷ es) = ap (unwrap_or 0) (last-number id_of seq_of 1 e es) ∙ omega arith

  -- After fewer than 2 ^ 64 - 1 calls on a new journal, `tail_seq(id)` is the number of entries
  -- emitted for the id since it was last closed.
  pub tail_seq-run :
      (cs : List (Call id_of seq_of)) (id : Text)
      → length cs < u64_max
      → tail_seq seq_of id (run id_of seq_of cs new_journal)
        ≡ length (emitted_by id_of seq_of cs id)
  tail_seq-run cs id fits =
      tail_seq-events_of id (run id_of seq_of cs new_journal)
      ∙ ap (λ es. unwrap_or 0 (and_then (last es) seq_of))
          ((run-new_journal-Follows id_of seq_of cs fits).listed id)
      ∙ last_number (emitted_by id_of seq_of cs id)

  -- Calls that do not close the id.
  unfoldable pub Keeps : Text → List (Call id_of seq_of) → Type 0
  Keeps id [] = Unit
  Keeps id (open_log k ∷ cs) = Keeps id cs
  Keeps id (emit e ∷ cs) = Keeps id cs
  Keeps id (close_log k ∷ cs) = ((k == id) ≡ false) × Keeps id cs

  spec-grows :
      (cs : List (Call id_of seq_of)) (id : Text) (s : Text → List (Entry id_of seq_of))
      → Keeps id cs
      → (more : List (Entry id_of seq_of)) × (spec id_of seq_of cs s id ≡ s id ++ more)
  unfolding Keeps spec spec_call
  spec-grows [] id s h = ([], sym (append-nil (s id)))
  spec-grows (open_log k ∷ cs) id s h = spec-grows cs id s h
  spec-grows (emit e ∷ cs) id s h =
      let (more, is_more) = spec-grows cs id (spec_call id_of seq_of (emit e) s) h in
      if_cases
        (λ now.
          spec id_of seq_of cs (spec_call id_of seq_of (emit e) s) id ≡ now ++ more
          → (all : List (Entry id_of seq_of)) × (spec id_of seq_of cs
                (spec_call id_of seq_of (emit e) s) id
              ≡ s id ++ all))
        (e.id == id) (λ _ eq. (e ∷ more, eq ∙ append_assoc (s id) (e ∷ []) more))
        (λ _ eq. (more, eq)) is_more
  spec-grows (close_log k ∷ cs) id s h =
      let (more, is_more) = spec-grows cs id (spec_call id_of seq_of (close_log k) s) h.1 in
      (more, is_more ∙ ap (λ b. (if b then [] else s id) ++ more) h.0)

  run-append :
      (cs ds : List (Call id_of seq_of)) (j : Journal Event)
      → run id_of seq_of (cs ++ ds) j ≡ run id_of seq_of ds (run id_of seq_of cs j)
  unfolding run
  run-append [] ds j = refl
  run-append (c ∷ cs) ds j = run-append cs ds (call id_of seq_of c j)

  spec-append :
      (cs ds : List (Call id_of seq_of)) (s : Text → List (Entry id_of seq_of))
      → spec id_of seq_of (cs ++ ds) s ≡ spec id_of seq_of ds (spec id_of seq_of cs s)
  unfolding spec
  spec-append [] ds s = refl
  spec-append (c ∷ cs) ds s = spec-append cs ds (spec_call id_of seq_of c s)

  number-split :
      (n : ℕ) (es fs : List (Entry id_of seq_of))
      → number id_of seq_of n (es ++ fs)
        ≡ number id_of seq_of n es
          ++ number id_of seq_of (n + length es) (drop (length es) (es ++ fs))
  unfolding number
  number-split n [] fs = ap (λ m. number id_of seq_of m fs) (omega arith)
  number-split n (e ∷ es) fs =
      ap (λ l. e.make n ∷ l)
        (number-split (suc n) es fs
          ∙ ap
              (λ m.
                number id_of seq_of (suc n) es
                ++ number id_of seq_of m (drop (length es) (es ++ fs)))
              (omega arith))

  -- A client reads an id's journal from the start, after the calls `cs` on a new journal, and reads
  -- again from the tail it saw, after further calls `ds` that do not close the id: what it then holds is
  -- what a client reads that starts after all the calls. Together the calls are fewer than 2 ^ 64 - 1.
  pub replay_after-resumes :
      (cs ds : List (Call id_of seq_of)) (id : Text)
      → length (cs ++ ds) < u64_max
      → Keeps id ds
      → let before = run id_of seq_of cs new_journal in
        let after = run id_of seq_of ds before in
        replay_after seq_of id 0 before ++ replay_after seq_of id (tail_seq seq_of id before) after
        ≡ replay_after seq_of id 0 after
  replay_after-resumes cs ds id fits keeps =
      let L = emitted_by id_of seq_of cs id in
      let (more, is_more) = spec-grows ds id (emitted_by id_of seq_of cs) keeps in
      let whole = read (is_more) in
      rw
        (
          replay_after-run id_of seq_of cs id 0 shorter,
          tail_seq-run cs id shorter,
          whole (length L),
          whole 0,
        )
        (sym (number-split 1 L more))
    where
      shorter : length cs < u64_max
      shorter = omega (arith, length-append cs ds, fits)

      read :
          {all : List (Entry id_of seq_of)}
          → spec id_of seq_of ds (emitted_by id_of seq_of cs) id ≡ all
          → (k : ℕ)
          → replay_after seq_of id k (run id_of seq_of ds (run id_of seq_of cs new_journal))
            ≡ number id_of seq_of (1 + k) (drop k all)
      read {all} e k =
          ap (replay_after seq_of id k) (sym (run-append cs ds new_journal))
          ∙ replay_after-run id_of seq_of (cs ++ ds) id k fits
          ∙ ap (λ es. number id_of seq_of (suc k) (drop k es))
              (ap (λ s. s id) (spec-append cs ds (λ _. [])) ∙ e)
          ∙ ap (λ m. number id_of seq_of m (drop k all)) (omega arith)
