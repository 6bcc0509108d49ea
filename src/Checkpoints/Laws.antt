-- ===== src/Checkpoints/Laws.antt =====
-- What `save_checkpoint`, `load_run` and `create_run` of src/repo_agent/checkpoints.py promise.
use agent_projects.Prelude.{
  ℕ, ◌+◌, String, ◌≡◌, ◌≢◌, refl, true, false, none, some, List, [], ◌∷◌, ◌++◌, arith, Option-cases,
  inl, inr, eq_iff,
}
use agent_projects.Errors.{error_kind, Exc, ok, err, ◌>>=◌, concurrent_update}
use agent_projects.RunModels.{WorkflowNode, node_eq_iff}
use agent_projects.Outcomes.{
  phase_eq, CheckpointResult, CheckpointPhase, WorkflowCheckpoint, WorkflowSnapshot,
}
use agent_projects.Checkpoints.{
  Store, RunRow, Save, find_run, find_checkpoint, update_run, snapshot_from_row, load_run,
  save_checkpoint, is_storable, checkpoint_of, max_sequence, get_checkpoint, matches,
}

-- The row and the tables that a save commits.
abbrev pub committed_row : WorkflowSnapshot → Save → RunRow
committed_row t a = record { run = a.run; next_node = a.next_node; version = t.version + 1 }

abbrev pub committed : WorkflowSnapshot → Save → Store → Store
committed t a s = record s {
  runs = update_run (committed_row t a) t.version s.runs;
  checkpoints = s.checkpoints ++ checkpoint_of a (max_sequence a.run.run_id s.checkpoints + 1) ∷ [];
}

pub record Commits (t : WorkflowSnapshot) (a : Save) (s : Store) (t' : WorkflowSnapshot)
    (s' : Store) : Type 0 where
  pub open_store : s.closed ≡ false
  pub same_run : a.run.run_id ≡ t.run.run_id
  pub row : RunRow
  pub found : find_run a.run.run_id s.runs ≡ some row
  pub current : row.version ≡ t.version
  pub fresh : find_checkpoint a.run.run_id a.node a.attempt a.phase s.checkpoints ≡ none
  pub snapshot : t' ≡ snapshot_from_row (committed_row t a)
  pub store : s' ≡ committed t a s

module _ (js : CheckpointResult → ℕ) (t : WorkflowSnapshot) (a : Save) (s : Store) where
  pub save_inversion :
      {t' : WorkflowSnapshot} {s' : Store}
      → save_checkpoint js t a s ≡ (ok t', s')
      → Commits t a s t' s'
  unfolding save_checkpoint ◌>>=◌
  save_inversion h = elim (Option-cases (find_run a.run.run_id s.runs)) [
    | inl missing ↦ absurd (ground arith)
    | inr (row, found) ↦ record {
      open_store = ground arith;
      same_run = ground (arith, eq_iff a.run.run_id t.run.run_id);
      row = row;
      found = found;
      current = ground arith;
      fresh = ground arith;
      snapshot = ground arith;
      store = ground arith;
    }
  ]

  pub save_error : {e : Exc} {s' : Store} → save_checkpoint js t a s ≡ (err e, s') → s' ≡ s
  unfolding save_checkpoint ◌>>=◌
  save_error h = ground arith

module _ (new : RunRow) (v : ℕ) where
  -- An update replaces the row that the compare-and-set saw.
  pub find_run-update_self :
      (runs : List RunRow) (row : RunRow)
      → find_run new.run.run_id runs ≡ some row
      → row.version ≡ v
      → find_run new.run.run_id (update_run new v runs) ≡ some new
  unfolding find_run update_run
  find_run-update_self [] row found current = cc
  find_run-update_self (r ∷ rest) row found current = ground (
    arith,
    find_run-update_self rest row,
    eq_iff r.run.run_id new.run.run_id,
    eq_iff new.run.run_id new.run.run_id,
  )

  -- It leaves every other run alone.
  pub find_run-update_ne :
      (runs : List RunRow) (run_id : String)
      → new.run.run_id ≢ run_id
      → find_run run_id (update_run new v runs) ≡ find_run run_id runs
  unfolding find_run update_run
  find_run-update_ne [] run_id ne = refl
  find_run-update_ne (r ∷ rest) run_id ne = ground (
    arith,
    find_run-update_ne rest run_id,
    eq_iff r.run.run_id new.run.run_id,
    eq_iff r.run.run_id run_id,
    eq_iff new.run.run_id run_id,
  )

find_checkpoint-append :
    (run_id : String) (node : WorkflowNode) (attempt : ℕ) (phase : CheckpointPhase)
    (cs : List WorkflowCheckpoint) (c : WorkflowCheckpoint)
    → find_checkpoint run_id node attempt phase cs ≡ none
    → matches run_id node attempt phase c ≡ true
    → find_checkpoint run_id node attempt phase (cs ++ c ∷ []) ≡ some c
unfolding find_checkpoint
find_checkpoint-append run_id node attempt phase [] c fresh m = ground arith
find_checkpoint-append run_id node attempt phase (d ∷ cs) c fresh m =
    ground (arith, find_checkpoint-append run_id node attempt phase cs c)

matches-checkpoint_of :
    (a : Save) (n : ℕ) → matches a.run.run_id a.node a.attempt a.phase (checkpoint_of a n) ≡ true
unfolding matches checkpoint_of phase_eq
matches-checkpoint_of a n =
    ground (arith, eq_iff a.run.run_id a.run.run_id, (node_eq_iff a.node a.node).1 refl)

-- A save that succeeds is seen by the next reads: the run has the returned snapshot, and the
-- checkpoint with the save's key, result and record is found under its identity.
pub save-load :
    (js : CheckpointResult → ℕ) (t : WorkflowSnapshot) (a : Save) (s : Store)
    {t' : WorkflowSnapshot} {s' : Store}
    → save_checkpoint js t a s ≡ (ok t', s')
    → (load_run a.run.run_id s' ≡ (ok t', s'))
      × (get_checkpoint a.run.run_id a.node a.attempt a.phase s'
          ≡ (ok (some (checkpoint_of a (max_sequence a.run.run_id s.checkpoints + 1))), s'))
      × (t'.version ≡ t.version + 1)
unfolding load_run get_checkpoint ◌>>=◌ snapshot_from_row
save-load js t a s h =
    let c = save_inversion js t a s h in
    ground (
      arith,
      c.store,
      c.snapshot,
      c.open_store,
      find_run-update_self (committed_row t a) t.version s.runs c.row c.found c.current,
      find_checkpoint-append a.run.run_id a.node a.attempt a.phase s.checkpoints
          (checkpoint_of a (max_sequence a.run.run_id s.checkpoints + 1)) c.fresh
          (matches-checkpoint_of a (max_sequence a.run.run_id s.checkpoints + 1)),
    )

-- A save changes no other run: what was loaded for it before is loaded after.
pub save-load_ne :
    (js : CheckpointResult → ℕ) (t : WorkflowSnapshot) (a : Save) (s : Store) (run_id : String)
    {t' : WorkflowSnapshot} {s' : Store}
    → save_checkpoint js t a s ≡ (ok t', s')
    → a.run.run_id ≢ run_id
    → (load_run run_id s').0 ≡ (load_run run_id s).0
unfolding load_run ◌>>=◌
save-load_ne js t a s run_id h ne =
    let c = save_inversion js t a s h in
    ground (
      arith,
      c.store,
      c.open_store,
      find_run-update_ne (committed_row t a) t.version s.runs run_id ne,
    )

-- Compare-and-set: on an open store, a well-formed save from a snapshot whose version is not that
-- of the run's row raises ConcurrentUpdateError and leaves both tables as they were.
pub stale_save :
    (js : CheckpointResult → ℕ) (t : WorkflowSnapshot) (a : Save) (s : Store) (row : RunRow)
    → find_run a.run.run_id s.runs ≡ some row
    → row.version ≢ t.version
    → s.closed ≡ false
    → a.run.run_id ≡ t.run.run_id
    → is_storable js a ≡ true
    → (error_kind (save_checkpoint js t a s).0 ≡ some concurrent_update)
      × ((save_checkpoint js t a s).1 ≡ s)
unfolding save_checkpoint ◌>>=◌
stale_save js t a s row found stale opened same fits =
    ground (arith, eq_iff a.run.run_id t.run.run_id)
