-- ===== src/Run/Store/Samples.antt =====
-- A restart with one run under way, one finished, and a snapshot that does not parse.
use agentchat.Prelude.{
  ◌≡◌, refl, sym, ◌∙◌, ◌↔◌, List, [], ◌∷◌, none, some, map, Memᴰ, subst, inr, ap, arith, ok, err,
  if◌then◌else◌, ◌==◌, list_eq, nat_eq, list_eqb,
}
use agentchat.Text.{Text, codes}
use agentchat.Protocol.Run.{is_terminal}
use agentchat.Run.State.{RunState, new_run, cancel_run}
use agentchat.Run.Store.Snapshots.{
  Codec, RunStore, new_store, insert_run, get_run, flush_run, load_run, snapshot_path,
}
use agentchat.Run.Store.Scan.{
  Snapshot, no_file, contents, entries, resumable, scan_resumable, resume,
}
use agentchat.Run.Store.Recovery.{no_faults, load_run-flush_run}
use agentchat.Run.Store.Resuming.{
  found, HasWork, HasWork-found, IsSkipped, Parses, IsUnfinished, IsSorted, scan_resumable-skip,
  scan_resumable-finds,
}
use agentchat.Run.Store.Restart.{resume-recovers}

abbrev live : RunState
live = new_run (codes "run-live") (codes "/tmp/worktree") 5

abbrev done : RunState
done = cancel_run 6 (new_run (codes "run-done") (codes "/tmp/worktree") 4)

-- Snapshots of two runs alone, named by their ids.
abbrev named : Codec
named = record {
  to_json = λ r. ok r.run_id;
  of_json = λ json.
      if json == codes "run-live"
      then ok live
      else if json == codes "run-done"
      then ok done
      else err (codes "expected value");
}

abbrev store : RunStore
store = insert_run live (new_store (codes "/repo"))

abbrev on_disk : List Snapshot
on_disk =
    no_file
    ∷ contents (codes "run-done")
    ∷ contents (codes "{ not json")
    ∷ contents (codes "run-live")
    ∷ []

load_run-flush_run_example :
    let after = flush_run named no_faults live.run_id 5 store [] in
    (after.1.0 ≡ ok (snapshot_path store live.run_id))
    × (get_run after.0 live.run_id ≡ some (record live { updated_at_ms = 5 }))
    × (load_run named none after.0 live.run_id after.1.1 ≡ ok (record live { updated_at_ms = 5 }))
unfolding get_run insert_run new_store list_eqb new_run
load_run-flush_run_example =
    load_run-flush_run named live.run_id live.run_id 5 store [] live refl refl refl

-- A finished run is skipped, and a snapshot that does not parse.
scan_resumable-skip_example :
    scan_resumable named (codes "runs") (
      entries
        (ok no_file ∷ ok (contents (codes "run-done")) ∷ ok (contents (codes "run-live")) ∷ []))
    ≡ scan_resumable named
        (codes "runs")
        (entries (ok no_file ∷ ok (contents (codes "run-live")) ∷ []))
unfolding list_eqb cancel_run new_run IsSkipped
scan_resumable-skip_example =
    scan_resumable-skip named (codes "runs") (contents (codes "run-done")) (ok no_file ∷ [])
      (ok (contents (codes "run-live")) ∷ []) (inr refl)

scan_resumable-finds_example :
    (runs : List RunState) × (scan_resumable named (codes "runs") (entries (map ok on_disk))
      ≡ ok runs)
    × IsSorted runs
    × ((q : RunState) → Memᴰ q runs ↔ HasWork named on_disk q)
scan_resumable-finds_example = scan_resumable-finds named (codes "runs") on_disk

-- The only run to be resumed.
found-live : found named on_disk ≡ live ∷ []
unfolding resumable list_eqb cancel_run new_run
found-live = refl

-- Whatever has work on this disk is that run.
only_live : (q : RunState) → HasWork named on_disk q → q ≡ live
only_live q left = mem_one (subst (Memᴰ q) found-live (HasWork-found named on_disk q left))
  where
    mem_one : Memᴰ q (live ∷ []) → q ≡ live
    mem_one (Memᴰ.head e) = e
    mem_one (Memᴰ.tail m) = elim m [ ]

resume-recovers_example :
    (ids : List Text) × (after : RunStore) × (resume named
        (entries (map ok on_disk))
        (new_store (codes "/repo"))
      ≡ ok (ids, after))
    × (get_run after live.run_id ≡ some live)
    × Memᴰ live.run_id ids
unfolding list_eqb new_run Parses IsUnfinished
resume-recovers_example =
    resume-recovers named on_disk (new_store (codes "/repo")) live
      (λ r q h k _. only_live r h ∙ sym (only_live q k))
      (
        contents (codes "run-live"),
        Memᴰ.tail (Memᴰ.tail (Memᴰ.tail (Memᴰ.head refl))),
        (codes "run-live", refl, refl),
        (λ c. ground (arith, ap is_terminal c), λ c. ground (arith, ap is_terminal c)),
      )
