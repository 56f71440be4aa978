-- ===== src/Run/Store/Recovery.antt =====
-- store.rs: a snapshot written and loaded again, and the scan of a directory.
use agentchat.Prelude.{
  ℕ, ◌≡◌, refl, ap, ◌∙◌, ◌++◌, none, some, if◌then◌else◌, Result, ok, err, HashMap, lookup, insert,
  modify, changed, lookup-insert_self, lookup-modify, ==_refl, list_eq, nat_eq,
}
use agentchat.Text.{Text, codes}
use agentchat.Run.State.{RunState}
use agentchat.Run.Store.Snapshots.{
  Codec, Files, FlushFaults, RunStore, get_run, run_dir, stored, update_run, snapshot_path,
  write_snapshot, flush_run, load_run,
}

-- No call of the file system fails.
abbrev pub no_faults : FlushFaults
no_faults = record { create_dir_all = none; write = none }

-- The store after a flush.
abbrev touched : Text → ℕ → RunStore → RunStore
touched id now s = record s { runs = modify s.runs id (λ r. record r { updated_at_ms = now }) }

get_run-touched :
    (id : Text) (now : ℕ) (s : RunStore) {r : RunState}
    → lookup s.runs id ≡ some r
    → lookup (touched id now s).runs id ≡ some (record r { updated_at_ms = now })
get_run-touched id now s found =
    lookup-modify s.runs id id touch
    ∙ ap (λ b. if b then changed touch (lookup s.runs id) else lookup s.runs id) (==_refl id)
    ∙ ap (changed touch) found
  where
    touch : RunState → RunState
    touch r = record r { updated_at_ms = now }

write_snapshot-some :
    (codec : Codec) (json id : Text) (q : RunState) (path : Text) (files : Files)
    → codec.to_json q ≡ ok json
    → write_snapshot codec no_faults id (some q) path files ≡ ok (path, insert files path json)
unfolding write_snapshot
write_snapshot-some codec json id q path files writes = rw (writes) refl

flush_run-found :
    (codec : Codec) (json id : Text) (now : ℕ) (s : RunStore) (files : Files) (r : RunState)
    → lookup s.runs id ≡ some r
    → codec.to_json (record r { updated_at_ms = now }) ≡ ok json
    → flush_run codec no_faults id now s files
      ≡ (touched id now s, (ok (snapshot_path s id), insert files (snapshot_path s id) json))
unfolding flush_run update_run snapshot_path run_dir
flush_run-found codec json id now s files r found writes =
    ap
      (λ o. (
        touched id now s,
        stored files (write_snapshot codec no_faults id o (snapshot_path s id) files),
      ))
      (get_run-touched id now s found)
    ∙ ap (λ w. (touched id now s, stored files w))
        (write_snapshot-some codec json id (record r { updated_at_ms = now }) (snapshot_path s id)
          files writes)

load_run-insert :
    (codec : Codec) (json id : Text) (s : RunStore) (files : Files) (q : RunState)
    → codec.of_json json ≡ ok q
    → load_run codec none s id (insert files (snapshot_path s id) json) ≡ ok q
unfolding load_run
load_run-insert codec json id s files q reads =
    rw (lookup-insert_self files (snapshot_path s id) json, reads) refl

-- A run in memory is flushed without a failure, `serde_json` writes it with its timestamp refreshed, and
-- reads that text back as the same run. Then the flush returns the path of its snapshot, and the run in
-- memory and the run loaded from the files are that run.
pub load_run-flush_run :
    (codec : Codec) (json id : Text) (now : ℕ) (s : RunStore) (files : Files) (r : RunState)
    → get_run s id ≡ some r
    → codec.to_json (record r { updated_at_ms = now }) ≡ ok json
    → codec.of_json json ≡ ok (record r { updated_at_ms = now })
    → let after = flush_run codec no_faults id now s files in
      (after.1.0 ≡ ok (snapshot_path s id))
      × (get_run after.0 id ≡ some (record r { updated_at_ms = now }))
      × (load_run codec none after.0 id after.1.1 ≡ ok (record r { updated_at_ms = now }))
unfolding get_run snapshot_path run_dir
load_run-flush_run codec json id now s files r found writes reads =
    let flushed = flush_run-found codec json id now s files r found writes in
    (
      ap (λ t. t.1.0) flushed,
      ap (λ t. lookup t.0.runs id) flushed ∙ get_run-touched id now s found,
      ap (λ t. load_run codec none t.0 id t.1.1) flushed
          ∙ load_run-insert codec json id (touched id now s) files
              (record r { updated_at_ms = now }) reads,
    )

modify-none :
    (m : HashMap Text RunState) (id : Text) (f : RunState → RunState)
    → lookup m id ≡ none
    → modify m id f ≡ m
unfolding modify
modify-none m id f e = rw (modify, e) refl

-- A flush of a run that is not in memory is an error that names it, whatever else fails; neither the
-- store nor the files change.
pub flush_run-missing :
    (codec : Codec) (faults : FlushFaults) (id : Text) (now : ℕ) (s : RunStore) (files : Files)
    → get_run s id ≡ none
    → flush_run codec faults id now s files ≡ (s, (err (codes "run not found: " ++ id), files))
unfolding get_run flush_run update_run write_snapshot
flush_run-missing codec faults id now s files missing =
    ap
      (λ m. (
        record s { runs = m },
        stored files (write_snapshot codec faults id (lookup m id) (snapshot_path s id) files),
      ))
      (modify-none s.runs id _ missing)
    ∙ ap (λ o. (s, stored files (write_snapshot codec faults id o (snapshot_path s id) files)))
        missing

-- The files change only in a flush that reports no error.
pub flush_run-err :
    (codec : Codec) (faults : FlushFaults) (id : Text) (now : ℕ) (s : RunStore) (files : Files)
    (e : Text)
    → (flush_run codec faults id now s files).1.0 ≡ err e
    → (flush_run codec faults id now s files).1.1 ≡ files
unfolding flush_run
flush_run-err codec faults id now s files e = unchanged (write_snapshot codec faults id _ _ files)
  where
    unchanged :
        (w : Result Text (Text × Files)) → (stored files w).0 ≡ err e → (stored files w).1 ≡ files
    unchanged (ok (path, written)) h = cc
    unchanged (err problem) h = refl
