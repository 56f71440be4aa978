-- ===== src/Run/Store/Scan.antt =====
-- store.rs: `scan_resumable` and `resume`. What the directory of runs holds is a value, entry by entry.
use agentchat.Prelude.{
  List, [], ◌∷◌, ◌++◌, Option, none, some, if◌then◌else◌, leb, map, Result, ok, err, ◌>>=◌,
}
use agentchat.Text.{Text, codes}
use agentchat.Protocol.Run.{is_terminal}
use agentchat.Run.State.{RunState}
use agentchat.Run.Store.Snapshots.{Codec, RunStore, insert_run}

-- What stands at an entry's `run.json`.
pub data Snapshot : Type 0 where
  no_file : Snapshot
  unreadable : Text → Snapshot
  contents : Text → Snapshot

-- The directory is missing, cannot be read, or has entries, of which one that cannot be read is an
-- error.
pub data Listing : Type 0 where
  absent : Listing
  closed : Text → Listing
  entries : List (Result Text Snapshot) → Listing

abbrev pub resumable_of : Result Text RunState → Option RunState
resumable_of (ok run) = if is_terminal run.status then none else some run
resumable_of (err e) = none

-- The run that an entry adds to the scan.
unfoldable pub resumable : Codec → Snapshot → Option RunState
resumable codec no_file = none
resumable codec (unreadable e) = none
resumable codec (contents json) = resumable_of (codec.of_json json)

abbrev pub push : Option RunState → List RunState → List RunState
push none runs = runs
push (some run) runs = run ∷ runs

unfoldable pub scan_entries : Codec → List (Result Text Snapshot) → Result Text (List RunState)
unfolding resumable
scan_entries codec [] = ok []
scan_entries codec (err e ∷ rest) = err (codes "failed to read runs dir entry: " ++ e)
scan_entries codec (ok snapshot ∷ rest) =
    scan_entries codec rest >>= λ runs. ok (push (resumable codec snapshot) runs)

-- `sort_by_key(|run| run.created_at_ms)`, which is stable.
unfoldable pub insert_by_age : RunState → List RunState → List RunState
insert_by_age r [] = r ∷ []
insert_by_age r (s ∷ ss) =
    let rest = insert_by_age r ss in
    if leb r.created_at_ms s.created_at_ms then r ∷ s ∷ ss else s ∷ rest

unfoldable pub sort_by_age : List RunState → List RunState
unfolding insert_by_age
sort_by_age [] = []
sort_by_age (r ∷ rs) = insert_by_age r (sort_by_age rs)

unfoldable pub scan_resumable : Codec → Text → Listing → Result Text (List RunState)
unfolding scan_entries sort_by_age
scan_resumable codec runs_dir absent = ok []
scan_resumable codec runs_dir (closed e) =
    err (codes "failed to read runs dir " ++ (runs_dir ++ (codes ": " ++ e)))
scan_resumable codec runs_dir (entries es) = scan_entries codec es >>= λ runs. ok (sort_by_age runs)

unfoldable pub insert_all : List RunState → RunStore → RunStore
unfolding insert_run
insert_all [] s = s
insert_all (r ∷ rs) s = insert_all rs (insert_run r s)

-- The ids, and the store with the runs of the disk in memory.
unfoldable pub resume : Codec → Listing → RunStore → Result Text (List Text × RunStore)
unfolding scan_resumable insert_all
resume codec listing s = scan_resumable codec s.runs_dir listing >>= λ runs.
    ok (map (λ r. r.run_id) runs, insert_all runs s)
