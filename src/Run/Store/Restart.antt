-- ===== src/Run/Store/Restart.antt =====
-- store.rs: the runs in memory after a restart.
use agentchat.Prelude.{
  ◌≡◌, refl, ap, ◌∙◌, ◌⊎◌, inl, inr, Bool, true, false, List, [], ◌∷◌, some, if◌then◌else◌, map,
  Memᴰ, ok, ◌>>=◌, lookup, insert, lookup-insert, ◌==◌, ==_iff, list_eq, nat_eq, arith, mem-map,
}
use agentchat.Text.{Text}
use agentchat.Run.State.{RunState}
use agentchat.Run.Store.Snapshots.{Codec, RunStore, insert_run, get_run}
use agentchat.Run.Store.Scan.{Snapshot, entries, sort_by_age, scan_resumable, insert_all, resume}
use agentchat.Run.Store.Resuming.{
  HasWork, HasWork-found, resumable_iff, found, mem-found, mem-sort_by_age, scan_entries-ok,
}

-- Unfinished runs of one id are one run.
abbrev pub OneEach : Codec → List Snapshot → Type 0
OneEach codec ss =
    (r q : RunState) → HasWork codec ss r → HasWork codec ss q → r.run_id ≡ q.run_id → r ≡ q

get_run-insert_all :
    (rs : List RunState) (s : RunStore) (q : RunState)
    → ((r : RunState) → Memᴰ r rs → r.run_id ≡ q.run_id → r ≡ q)
    → Memᴰ q rs ⊎ (lookup s.runs q.run_id ≡ some q)
    → lookup (insert_all rs s).runs q.run_id ≡ some q
unfolding insert_all insert_run
get_run-insert_all [] s q one (inl m) = elim m [ ]
get_run-insert_all [] s q one (inr e) = e
get_run-insert_all (r ∷ rs) s q one h =
    get_run-insert_all rs (insert_run r s) q (λ t m. one t (Memᴰ.tail m))
      (settled (r.run_id == q.run_id) refl h)
  where
    at :
        lookup (insert s.runs r.run_id r) q.run_id
        ≡ (if r.run_id == q.run_id then some r else lookup s.runs q.run_id)
    at = lookup-insert s.runs r.run_id q.run_id r

    settled :
        (b : Bool)
        → (r.run_id == q.run_id) ≡ b
        → Memᴰ q (r ∷ rs) ⊎ (lookup s.runs q.run_id ≡ some q)
        → Memᴰ q rs ⊎ (lookup (insert s.runs r.run_id r) q.run_id ≡ some q)
    settled true e h = inr (
        at
        ∙ ap (λ b. if b then some r else lookup s.runs q.run_id) e
        ∙ ap some (one r (Memᴰ.head refl) ((==_iff r.run_id q.run_id).0 e)))
    settled false e (inl (Memᴰ.head p)) =
        inl (absurd (ground (arith, e, ap (λ t. t.run_id) p, ==_iff r.run_id q.run_id)))
    settled false e (inl (Memᴰ.tail m)) = inl m
    settled false e (inr there) =
        inr (at ∙ ap (λ b. if b then some r else lookup s.runs q.run_id) e ∙ there)

-- After a restart, where the entries of the directory can be read and no two unfinished runs there share
-- an id, every run there whose snapshot parses and that is neither completed nor cancelled is in memory
-- as its snapshot has it, and its id is returned.
pub resume-recovers :
    (codec : Codec) (ss : List Snapshot) (s : RunStore) (q : RunState)
    → OneEach codec ss
    → HasWork codec ss q
    → (ids : List Text) × (after : RunStore) × (resume codec (entries (map ok ss)) s
        ≡ ok (ids, after))
      × (get_run after q.run_id ≡ some q)
      × Memᴰ q.run_id ids
unfolding resume scan_resumable get_run
resume-recovers codec ss s q one left = (
  map (λ r. r.run_id) (sort_by_age (found codec ss)),
  insert_all (sort_by_age (found codec ss)) s,
  ap
      (λ rest. (rest >>= λ runs. ok (sort_by_age runs)) >>= λ runs.
        ok (map (λ r. r.run_id) runs, insert_all runs s))
      (scan_entries-ok codec ss),
  get_run-insert_all (sort_by_age (found codec ss)) s q
      (λ r m. one r q (has_work r ((mem-sort_by_age r (found codec ss)).0 m)) left) (inl is_sorted),
  mem-map (λ r. r.run_id) is_sorted,
)
  where
    is_found : Memᴰ q (found codec ss)
    is_found = HasWork-found codec ss q left

    has_work : (r : RunState) → Memᴰ r (found codec ss) → HasWork codec ss r
    has_work r m =
        let (t, mem, e) = (mem-found codec r ss).0 m in
        let (parses, unfinished) = (resumable_iff codec t r).0 e in (t, mem, parses, unfinished)

    is_sorted : Memᴰ q (sort_by_age (found codec ss))
    is_sorted = (mem-sort_by_age q (found codec ss)).1 is_found
