-- ===== src/Logs/Refinement.antt =====
-- The journals of threads and sessions, and the plain lists of what was emitted: replay, tail and
-- numbering.
use agentchat.Prelude.{
  unwrap_or, ℕ, suc, ◌+◌, ◌<◌, ◌≡◌, refl, sym, subst, List, [], ◌∷◌, ◌++◌, Option, some,
  if◌then◌else◌, length, length-append, drop, lookup, insert, lookup-insert, lookup-erase,
  saturating_suc64, u64_max, ◌==◌, ==_iff, list_eq, nat_eq, arith,
}
use agentchat.Text.{Text}
use agentchat.Logs.Numbered.{
  Journal, new_journal, init, take_seq, append, remove, events_of, replay_after,
}
use agentchat.Logs.Sequence.{
  Entry, Call, open_log, emit, close_log, emit_entry, call, run, spec_call, spec, number,
  number-append, filter-number,
}

module _ {Event : Type 0} (id_of : Event → Option Text) (seq_of : Event → Option ℕ) where
  -- The number that an id's next event gets.
  abbrev pub next_of : Text → Journal Event → ℕ
  next_of id j = unwrap_or 1 (lookup j.next_seqs id)

  -- A journal's events are the numbered entries, and its counter is one ahead of them.
  pub record Follows (j : Journal Event) (s : Text → List (Entry id_of seq_of)) : Type 0 where
    pub listed : (id : Text) → events_of id j ≡ number id_of seq_of 1 (s id)
    pub counted : (id : Text) → next_of id j ≡ 1 + length (s id)

  -- No id runs out of numbers while `calls` more calls are made.
  abbrev pub Fits : ℕ → (Text → List (Entry id_of seq_of)) → Type 0
  Fits calls s = (id : Text) → length (s id) + calls < u64_max

  new-Follows : Follows new_journal (λ _. [])
  unfolding new_journal events_of lookup number
  new-Follows = record { listed = λ id. refl; counted = λ id. refl }

  init-Follows :
      (k : Text) (j : Journal Event) (s : Text → List (Entry id_of seq_of))
      → Follows j s
      → Follows (init k j) s
  unfolding init events_of
  init-Follows k j s h = record {
    listed = λ id. ground (
      arith,
      ==_iff k id,
      lookup-insert j.events k id (unwrap_or [] (lookup j.events k)),
      h.listed id,
      h.listed k,
    );
    counted = λ id. ground (
      arith,
      ==_iff k id,
      lookup-insert j.next_seqs k id (unwrap_or 1 (lookup j.next_seqs k)),
      h.counted id,
      h.counted k,
    );
  }

  -- The journal after an entry is emitted.
  abbrev emitted : Entry id_of seq_of → Journal Event → Journal Event
  emitted e j = record {
    next_seqs = insert j.next_seqs e.id (saturating_suc64 (next_of e.id j));
    events = insert j.events e.id (events_of e.id j ++ e.make (next_of e.id j) ∷ []);
  }

  emit_entry-eq :
      (e : Entry id_of seq_of) (j : Journal Event) → emit_entry id_of seq_of e j ≡ emitted e j
  unfolding emit_entry append take_seq events_of
  emit_entry-eq e j = rw (append, e.owned (next_of e.id j)) refl

  emit-Follows :
      (e : Entry id_of seq_of) (j : Journal Event) (s : Text → List (Entry id_of seq_of))
      → suc (length (s e.id)) < u64_max
      → Follows j s
      → Follows (emit_entry id_of seq_of e j) (spec_call id_of seq_of (emit e) s)
  unfolding emit_entry append take_seq events_of spec_call
  emit-Follows e j s fits h =
      subst (λ k. Follows k (spec_call id_of seq_of (emit e) s)) (sym (emit_entry-eq e j))
        record {
          listed = λ id.
              rw
                (lookup-insert j.events e.id id
                  (unwrap_or [] (lookup j.events e.id) ++ e.make (next_of e.id j) ∷ []))
                (listed_at id);
          counted = λ id.
              rw (lookup-insert j.next_seqs e.id id (saturating_suc64 (next_of e.id j)))
                (counted_at id);
        }
    where
      grown :
          events_of e.id j ++ e.make (next_of e.id j) ∷ []
          ≡ number id_of seq_of 1 (s e.id ++ e ∷ [])
      grown = rw (h.listed e.id, h.counted e.id) (sym (number-append id_of seq_of 1 (s e.id) e))

      listed_at :
          (id : Text)
          → unwrap_or [] (
              if e.id == id
              then some (events_of e.id j ++ e.make (next_of e.id j) ∷ [])
              else lookup j.events id)
            ≡ number id_of seq_of 1 (if e.id == id then s id ++ e ∷ [] else s id)
      listed_at id = ground (arith, ==_iff e.id id, grown, h.listed id)

      counted_at :
          (id : Text)
          → unwrap_or 1 (
              if e.id == id
              then some (saturating_suc64 (next_of e.id j))
              else lookup j.next_seqs id)
            ≡ 1 + length (if e.id == id then s id ++ e ∷ [] else s id)
      counted_at id =
          ground
            (arith, ==_iff e.id id, h.counted id, h.counted e.id, length-append (s id) (e ∷ []))

  remove-Follows :
      (k : Text) (j : Journal Event) (s : Text → List (Entry id_of seq_of))
      → Follows j s
      → Follows (remove k j) (spec_call id_of seq_of (close_log k) s)
  unfolding remove events_of spec_call number
  remove-Follows k j s h = record {
    listed = λ id. ground (arith, lookup-erase j.events k id, h.listed id);
    counted = λ id. ground (arith, lookup-erase j.next_seqs k id, h.counted id);
  }

  run-Follows :
      (cs : List (Call id_of seq_of)) (j : Journal Event) (s : Text → List (Entry id_of seq_of))
      → Fits (length cs) s
      → Follows j s
      → Follows (run id_of seq_of cs j) (spec id_of seq_of cs s)
  unfolding run spec call spec_call
  run-Follows [] j s fits h = h
  run-Follows (open_log k ∷ cs) j s fits h =
      run-Follows cs (init k j) s (λ id. omega (arith, fits id)) (init-Follows k j s h)
  run-Follows (emit e ∷ cs) j s fits h =
      run-Follows cs (emit_entry id_of seq_of e j) (spec_call id_of seq_of (emit e) s)
        (λ id. ground (arith, fits id, length-append (s id) (e ∷ [])))
        (emit-Follows e j s (omega (arith, fits e.id)) h)
  run-Follows (close_log k ∷ cs) j s fits h =
      run-Follows cs (remove k j) (spec_call id_of seq_of (close_log k) s)
        (λ id. ground (arith, fits id)) (remove-Follows k j s h)

  -- The plain lists of a sequence of calls on a new journal.
  abbrev pub emitted_by : List (Call id_of seq_of) → Text → List (Entry id_of seq_of)
  emitted_by cs = spec id_of seq_of cs (λ _. [])

  -- After fewer than 2 ^ 64 - 1 calls on a new journal, its events for each id are the entries emitted
  -- for that id since it was last closed, in order and numbered from 1, and its counter is one more
  -- than their number.
  pub run-new_journal-Follows :
      (cs : List (Call id_of seq_of))
      → length cs < u64_max
      → Follows (run id_of seq_of cs new_journal) (emitted_by cs)
  run-new_journal-Follows cs fits =
      run-Follows cs new_journal (λ _. []) (λ id. omega (arith, fits)) new-Follows

  -- Under the same condition `replay_after(id, k)` returns the id's emitted entries but for the first
  -- `k`, numbered from `k + 1`.
  pub replay_after-run :
      (cs : List (Call id_of seq_of)) (id : Text) (k : ℕ)
      → length cs < u64_max
      → replay_after seq_of id k (run id_of seq_of cs new_journal)
        ≡ number id_of seq_of (suc k) (drop k (emitted_by cs id))
  unfolding replay_after
  replay_after-run cs id k fits =
      rw ((run-new_journal-Follows cs fits).listed id)
        (filter-number id_of seq_of k 1 k (emitted_by cs id) (omega arith))
