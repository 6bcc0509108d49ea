-- ===== src/Examples/Stores.antt =====
-- Saves and resumes on a store with one run, and their properties.
use agent_projects.Prelude.{eq_iff, ℕ, ◌+◌, String, ◌≡◌, refl, false, none, some, [], ◌∷◌, arith}
use agent_projects.Errors.{
  concurrent_update, ok, pure, error_kind, ◌>>=◌, raise, throw, gets, proceed,
}
use agent_projects.RunModels.{prepare, node_eq}
use agent_projects.Outcomes.{completed, empty, WorkflowSnapshot, phase_eq}
use agent_projects.Checkpoints.{
  Save, RunRow, Store, find_run, snapshot_from_row, insert_run, create_run, max_sequence, matches,
  find_checkpoint, update_run, checkpoint_of, is_storable, get_checkpoint, of_run, list_checkpoints,
}
use agent_projects.Checkpoints
use agent_projects.Engine.World.{World}
use agent_projects.Checkpoints.Laws.{stale_save, save-load, save-load_ne}
use agent_projects.Checkpoints.Numbering.{IsNumbered, save-IsNumbered}
use agent_projects.Engine.Stopping.{resume_stopped, completed_once}
use agent_projects.Errors.{pure, throw, raise, gets, proceed, ◌>>=◌}
use agent_projects.RunModels.{node_eq}
use agent_projects.Outcomes.{phase_eq}
use agent_projects.Checkpoints.{
  find_run, snapshot_from_row, insert_run, create_run, max_sequence, matches, find_checkpoint,
  update_run, checkpoint_of, is_storable, get_checkpoint, of_run, list_checkpoints,
}
use agent_projects.Engine.Records.{node_attempt}
use agent_projects.Engine.Graph.{execute_node, is_active, resume}
use agent_projects.Examples.{host, operations, id, final_run, final_row}

-- A store with one finished run, and a save for it.
abbrev one_run : Store
one_run = record { closed = false; runs = final_row ∷ []; checkpoints = [] }

abbrev small_save : Save
small_save = record {
  node = prepare;
  attempt = 0;
  phase = completed;
  idempotency_key = "key";
  result = empty;
  run = final_run;
  next_node = none;
  created_at = "2026-01-01T00:00:00.000Z";
}

abbrev snapshot_at : ℕ → WorkflowSnapshot
snapshot_at n = record { run = final_run; next_node = none; version = n }

abbrev saved_store : ℕ → Store
saved_store n = record {
  closed = false;
  runs = record { run = final_run; next_node = none; version = n } ∷ [];
  checkpoints =
      record {
        sequence = 1;
        run_id = id;
        node = prepare;
        attempt = 0;
        phase = completed;
        idempotency_key = "key";
        result = empty;
        run = final_run;
        created_at = "2026-01-01T00:00:00.000Z";
      }
      ∷ [];
}

saved :
    Checkpoints.save_checkpoint host.json_size (snapshot_at 17) small_save one_run
    ≡ (ok (snapshot_at 18), saved_store 18)
unfolding Checkpoints.save_checkpoint ◌>>=◌ proceed pure raise gets throw is_storable find_run
    find_checkpoint matches update_run checkpoint_of max_sequence phase_eq node_eq snapshot_from_row
saved = refl

stale_save_example :
    (error_kind (Checkpoints.save_checkpoint host.json_size (snapshot_at 16) small_save one_run).0
      ≡ some concurrent_update)
    × ((Checkpoints.save_checkpoint host.json_size (snapshot_at 16) small_save one_run).1 ≡ one_run)
unfolding is_storable find_run
stale_save_example =
    stale_save host.json_size (snapshot_at 16) small_save one_run final_row refl
      (λ e. omega (arith, e)) refl refl refl

save-load_example :
    (Checkpoints.load_run id (saved_store 18) ≡ (ok (snapshot_at 18), saved_store 18))
    × (get_checkpoint id prepare 0 completed (saved_store 18) ≡ (
      ok (some (checkpoint_of small_save (max_sequence id one_run.checkpoints + 1))),
      saved_store 18,
    ))
    × (18 ≡ 17 + 1)
save-load_example = save-load host.json_size (snapshot_at 17) small_save one_run saved

save-load_ne_example :
    (Checkpoints.load_run "other" (saved_store 18)).0 ≡ (Checkpoints.load_run "other" one_run).0
save-load_ne_example =
    save-load_ne host.json_size (snapshot_at 17) small_save one_run "other" saved
      (λ e. ground (arith, eq_iff id "other"))

-- The same for a run that has no checkpoint yet.
abbrev new_store : Store
new_store = record {
  closed = false;
  runs = record { run = final_run; next_node = none; version = 0 } ∷ [];
  checkpoints = [];
}

saved_first :
    Checkpoints.save_checkpoint host.json_size (snapshot_at 0) small_save new_store
    ≡ (ok (snapshot_at 1), saved_store 1)
unfolding Checkpoints.save_checkpoint ◌>>=◌ proceed pure raise gets throw is_storable find_run
    find_checkpoint matches update_run checkpoint_of max_sequence phase_eq node_eq snapshot_from_row
saved_first = refl

new_store-IsNumbered : (run_id : String) → IsNumbered new_store run_id
unfolding find_run of_run max_sequence
new_store-IsNumbered run_id = record {
  counted = λ row found. ground arith;
  owned = λ missing. refl;
  numbered = refl;
  top = refl;
}

save-IsNumbered_example : IsNumbered (saved_store 1) id
save-IsNumbered_example =
    save-IsNumbered host.json_size (snapshot_at 0) small_save new_store id saved_first
      new_store-IsNumbered

-- A world in which the run has ended.
abbrev ended_world : World
ended_world = record { store = one_run; active_runs = []; ticks = 4 }

resume_stopped_example :
    ((resume host operations id ended_world).0 ≡ ok final_run)
    × ((resume host operations id ended_world).1.store ≡ one_run)
unfolding find_run is_active
resume_stopped_example = resume_stopped host operations id ended_world final_row refl refl refl refl

completed_once_example :
    execute_node host operations
      (snapshot_at 17)
      prepare
      (record ended_world { store = saved_store 18 })
    ≡ (ok (snapshot_at 18), record ended_world { store = saved_store 18 })
unfolding node_attempt
completed_once_example =
    completed_once host operations (snapshot_at 17) small_save ended_world refl refl saved
