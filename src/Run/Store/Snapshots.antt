-- ===== src/Run/Store/Snapshots.antt =====
-- store.rs: `RunStore`. The file system is a map from paths to texts; a call that fails is an argument,
-- the error of that call, if any. `serde_json` is the record `Codec`. The clock's reading is `now`.
use agentchat.Prelude.{
  ℕ, List, [], ◌++◌, Option, none, some, filter, HashMap, lookup, insert, erase, modify, values,
  Result, ok, err, ◌>>=◌, list_eq, nat_eq,
}
use agentchat.Text.{Text, codes, path_join}
use agentchat.Protocol.Run.{awaits_human}
use agentchat.Run.State.{RunState}

-- `serde_json::to_string_pretty` and `from_str` at `RunState`; an error is its text.
pub record Codec : Type 0 where
  pub to_json : RunState → Result Text Text
  pub of_json : Text → Result Text RunState

abbrev pub Files : Type 0
Files = HashMap Text Text

pub record RunStore : Type 0 where
  pub runs : HashMap Text RunState
  pub runs_dir : Text

abbrev pub run_snapshot_file : Text
run_snapshot_file = codes "run.json"

unfoldable pub new_with_runs_dir : Text → RunStore
new_with_runs_dir runs_dir = record { runs = []; runs_dir = runs_dir }

unfoldable pub new_store : Text → RunStore
unfolding path_join new_with_runs_dir
new_store project_root =
    new_with_runs_dir (path_join (path_join project_root (codes ".agentchat")) (codes "runs"))

unfoldable pub run_dir : RunStore → Text → Text
unfolding path_join
run_dir s id = path_join s.runs_dir id

unfoldable pub snapshot_path : RunStore → Text → Text
unfolding run_dir path_join
snapshot_path s id = path_join (run_dir s id) run_snapshot_file

unfoldable pub insert_run : RunState → RunStore → RunStore
unfolding insert
insert_run r s = record s { runs = insert s.runs r.run_id r }

unfoldable pub get_run : RunStore → Text → Option RunState
unfolding lookup
get_run s id = lookup s.runs id

-- A write through `get_mut`.
unfoldable pub update_run : Text → (RunState → RunState) → RunStore → RunStore
unfolding modify
update_run id f s = record s { runs = modify s.runs id f }

unfoldable pub list_runs : RunStore → List RunState
list_runs s = values s.runs

-- Runs that are blocked on the human.
unfoldable pub awaiting_human : RunStore → List RunState
awaiting_human s = filter (λ r. awaits_human r.status) (values s.runs)

unfoldable pub remove_run : Text → RunStore → Option RunState × RunStore
unfolding lookup erase
remove_run id s = (lookup s.runs id, record s { runs = erase s.runs id })

-- The errors of the file system in a flush, if any.
pub record FlushFaults : Type 0 where
  pub create_dir_all : Option Text
  pub write : Option Text

abbrev pub fails_with : Option Text → Text → Result Text (Unit {0})
fails_with none message = ok tt
fails_with (some e) message = err (message ++ e)

abbrev pub or_else_err {ℓ} : {A : Type ℓ} → Option A → Text → Result Text A
or_else_err none message = err message
or_else_err (some a) message = ok a

abbrev pub map_err {ℓ} : {A : Type ℓ} → Text → Result Text A → Result Text A
map_err message (ok a) = ok a
map_err message (err e) = err (message ++ e)

-- `flush_run`'s future: what is written, and the files after it.
unfoldable pub write_snapshot :
    Codec → FlushFaults → Text → Option RunState → Text → Files → Result Text (Text × Files)
unfolding insert
write_snapshot codec faults id run path files = do
  run ← or_else_err run (codes "run not found: " ++ id)
  json ← map_err (codes "failed to serialize run " ++ (id ++ codes ": ")) (codec.to_json run)
  _ ← fails_with faults.create_dir_all (codes "failed to create run dir for " ++ (id ++ codes ": "))
  _ ← fails_with faults.write (codes "failed to write run " ++ (id ++ codes ": "))
  ok (path, insert files path json)

abbrev pub stored : Files → Result Text (Text × Files) → Result Text Text × Files
stored files (err e) = (err e, files)
stored files (ok (path, written)) = (ok path, written)

-- The timestamp is refreshed in memory, whether or not the snapshot is then written.
unfoldable pub flush_run :
    Codec → FlushFaults → Text → ℕ → RunStore → Files → RunStore × (Result Text Text × Files)
unfolding lookup update_run write_snapshot snapshot_path
flush_run codec faults id now s files =
    let touched : RunStore = record s {
      runs = modify s.runs id (λ r. record r { updated_at_ms = now });
    } in
    (
      touched,
      stored files (
          write_snapshot codec faults id (lookup touched.runs id) (snapshot_path touched id) files),
    )

-- What the system says of a file that is not there.
abbrev pub not_found : Text
not_found = codes "No such file or directory (os error 2)"

-- A file cannot be read for the reason in `fault`, or since it is not there.
unfoldable pub load_run : Codec → Option Text → RunStore → Text → Files → Result Text RunState
unfolding lookup snapshot_path
load_run codec fault s id files = do
  _ ← fails_with fault (codes "failed to read run " ++ (id ++ codes ": "))
  json ←
      or_else_err (lookup files (snapshot_path s id))
        (codes "failed to read run " ++ (id ++ codes ": " ++ not_found))
  map_err (codes "failed to parse run " ++ (id ++ codes ": ")) (codec.of_json json)
