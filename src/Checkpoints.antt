-- ===== src/Checkpoints.antt =====
-- src/repo_agent/checkpoints.py: the store of runs and checkpoints, two tables that one
-- transaction changes together. A transaction that raises changes neither.
-- The tables hold the records themselves: their JSON form belongs to pydantic and SQLite.
pub mod Laws
pub mod Numbering
use agent_projects.Prelude.{
  ℕ, ◌+◌, String, Bool, true, not, ◌&&◌, Option, none, some, List, [], ◌∷◌, ◌++◌, ltb, ◌==◌,
  if◌then◌else◌, is_some, str_eq, str_len, decimal, fmt,
}
use agent_projects.Errors.{
  Exec, pure, raise, gets, ◌>>=◌, ◌>>◌, run_not_found, duplicate_run, concurrent_update,
  store_closed, value_error, validation_error,
}
use agent_projects.RunModels.{WorkflowNode, RunRecord, node_eq}
use agent_projects.Outcomes.{
  CheckpointPhase, phase_eq, CheckpointResult, WorkflowCheckpoint, WorkflowSnapshot,
}

-- A row of `workflow_runs`.
pub record RunRow : Type 0 where
  pub run : RunRecord
  pub next_node : Option WorkflowNode
  pub version : ℕ

pub record Store : Type 0 where
  pub closed : Bool
  pub runs : List RunRow
  pub checkpoints : List WorkflowCheckpoint

-- `SELECT … FROM workflow_runs WHERE run_id = ?`
unfoldable pub find_run : String → List RunRow → Option RunRow
find_run run_id [] = none
find_run run_id (row ∷ rest) =
    if str_eq row.run.run_id run_id then some row else find_run run_id rest

unfoldable pub snapshot_from_row : RunRow → WorkflowSnapshot
snapshot_from_row row = record { run = row.run; next_node = row.next_node; version = row.version }

ensure_open : Exec Store (Unit {0})
ensure_open s = (if s.closed then raise store_closed "checkpoint store is closed" else pure tt) s

unfoldable pub close : Exec Store (Unit {0})
close s = pure tt (record s { closed = true })

missing_run : {A : Type 0} → String → Exec Store A
missing_run run_id = raise run_not_found (fmt ("run " ∷ run_id ∷ " does not exist" ∷ []))

unfoldable pub insert_run : RunRecord → WorkflowNode → Exec Store WorkflowSnapshot
insert_run run next_node s =
    let row : RunRow = record { run = run; next_node = some next_node; version = 0 } in
    pure (snapshot_from_row row) (record s { runs = row ∷ s.runs })

unfoldable pub create_run : RunRecord → WorkflowNode → Exec Store WorkflowSnapshot
unfolding ensure_open insert_run
create_run run next_node = do
  ensure_open
  present ← gets (λ s. is_some (find_run run.run_id s.runs))
  if present
      then raise duplicate_run (fmt ("run " ∷ run.run_id ∷ " already exists" ∷ []))
      else insert_run run next_node

snapshot_or_missing : String → Option RunRow → Exec Store WorkflowSnapshot
unfolding missing_run
snapshot_or_missing run_id none = missing_run run_id
snapshot_or_missing run_id (some row) = pure (snapshot_from_row row)

unfoldable pub load_run : String → Exec Store WorkflowSnapshot
unfolding ensure_open snapshot_or_missing
load_run run_id = do
  ensure_open
  found ← gets (λ s. find_run run_id s.runs)
  snapshot_or_missing run_id found

unfoldable pub get_run : String → Exec Store RunRecord
get_run run_id = do snapshot ← load_run run_id; pure snapshot.run

-- `MAX(sequence)` of one run, 0 where there is none.
unfoldable pub max_sequence : String → List WorkflowCheckpoint → ℕ
max_sequence run_id [] = 0
max_sequence run_id (c ∷ rest) =
    let m = max_sequence run_id rest in
    if str_eq c.run_id run_id && ltb m c.sequence then c.sequence else m

-- The `WHERE` of `get_checkpoint`, and the second `UNIQUE` of the table.
unfoldable pub matches : String → WorkflowNode → ℕ → CheckpointPhase → WorkflowCheckpoint → Bool
matches run_id node attempt phase c =
    str_eq c.run_id run_id && node_eq c.node node && c.attempt == attempt && phase_eq c.phase phase

unfoldable pub find_checkpoint :
    String
    → WorkflowNode
    → ℕ
    → CheckpointPhase
    → List WorkflowCheckpoint
    → Option WorkflowCheckpoint
find_checkpoint run_id node attempt phase [] = none
find_checkpoint run_id node attempt phase (c ∷ rest) =
    if matches run_id node attempt phase c
    then some c
    else find_checkpoint run_id node attempt phase rest

-- `UPDATE workflow_runs SET … WHERE run_id = ? AND version = ?`
unfoldable pub update_run : RunRow → ℕ → List RunRow → List RunRow
update_run new version [] = []
update_run new version (row ∷ rest) =
    (if str_eq row.run.run_id new.run.run_id && row.version == version then new else row)
    ∷ update_run new version rest

-- The keyword arguments of `save_checkpoint`.
pub record Save : Type 0 where
  pub node : WorkflowNode
  pub attempt : ℕ
  pub phase : CheckpointPhase
  pub idempotency_key : String
  pub result : CheckpointResult
  pub run : RunRecord
  pub next_node : Option WorkflowNode
  pub created_at : String

unfoldable pub checkpoint_of : Save → ℕ → WorkflowCheckpoint
checkpoint_of a sequence = record {
  sequence = sequence;
  run_id = a.run.run_id;
  node = a.node;
  attempt = a.attempt;
  phase = a.phase;
  idempotency_key = a.idempotency_key;
  result = a.result;
  run = a.run;
  created_at = a.created_at;
}

abbrev pub max_result_json_bytes : ℕ
max_result_json_bytes = 65536

abbrev pub max_key_length : ℕ
max_key_length = 128

-- The body of the transaction, once the run's row is known.
commit_checkpoint : WorkflowSnapshot → Save → RunRow → Exec Store WorkflowSnapshot
commit_checkpoint snapshot a row s =
    if not (row.version == snapshot.version)
    then raise concurrent_update
        (fmt (
          "run "
          ∷ a.run.run_id
          ∷ " expected version "
          ∷ decimal snapshot.version
          ∷ ", found "
          ∷ decimal row.version
          ∷ []))
        s
    else if is_some (find_checkpoint a.run.run_id a.node a.attempt a.phase s.checkpoints)
    then raise concurrent_update "checkpoint identity was already committed by another worker" s
    else let new : RunRow = record {
      run = a.run;
      next_node = a.next_node;
      version = snapshot.version + 1;
    } in
      let sequence = max_sequence a.run.run_id s.checkpoints + 1 in
      pure (snapshot_from_row new) (record s {
        runs = update_run new snapshot.version s.runs;
        checkpoints = s.checkpoints ++ checkpoint_of a sequence ∷ [];
      })

commit_or_missing : WorkflowSnapshot → Save → Option RunRow → Exec Store WorkflowSnapshot
unfolding commit_checkpoint missing_run
commit_or_missing snapshot a none = missing_run a.run.run_id
commit_or_missing snapshot a (some row) = commit_checkpoint snapshot a row

module _ (json_size : CheckpointResult → ℕ) where
  -- The constraints of `WorkflowCheckpoint` that its arguments can miss.
  unfoldable pub is_storable : Save → Bool
  is_storable a =
      not (ltb max_result_json_bytes (json_size a.result))
      && not (str_len a.idempotency_key == 0)
      && not (ltb max_key_length (str_len a.idempotency_key))

  unfoldable pub save_checkpoint : WorkflowSnapshot → Save → Exec Store WorkflowSnapshot
  unfolding ensure_open commit_or_missing max_sequence is_storable
  save_checkpoint snapshot a =
      if not (str_eq a.run.run_id snapshot.run.run_id)
      then raise value_error "checkpoint record run_id does not match snapshot"
      else if not (is_storable a)
      then raise validation_error "WorkflowCheckpoint"
      else do
        ensure_open
        found ← gets (λ s. find_run a.run.run_id s.runs)
        commit_or_missing snapshot a found

unfoldable pub get_checkpoint :
    String → WorkflowNode → ℕ → CheckpointPhase → Exec Store (Option WorkflowCheckpoint)
unfolding ensure_open
get_checkpoint run_id node attempt phase = do
  ensure_open
  gets (λ s. find_checkpoint run_id node attempt phase s.checkpoints)

unfoldable pub of_run : String → List WorkflowCheckpoint → List WorkflowCheckpoint
of_run run_id [] = []
of_run run_id (c ∷ rest) =
    let others = of_run run_id rest in if str_eq c.run_id run_id then c ∷ others else others

-- The rows in the order of the table, which `ORDER BY sequence` keeps: `Checkpoints.Numbering`.
unfoldable pub list_checkpoints : String → Exec Store (List WorkflowCheckpoint)
unfolding of_run
list_checkpoints run_id = do load_run run_id; gets (λ s. of_run run_id s.checkpoints)
