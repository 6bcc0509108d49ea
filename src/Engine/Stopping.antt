-- ===== src/Engine/Stopping.antt =====
-- What the engine of src/repo_agent/workflow.py leaves alone: runs that have ended or wait for a
-- decision, and node attempts that are already done.
use agent_projects.Prelude.{
  ℕ, ◌+◌, suc, String, ◌≡◌, refl, true, false, ◌||◌, none, some, ◌∷◌, arith, subst,
}
use agent_projects.Errors.{ok, ◌>>=◌}
use agent_projects.RunModels.{is_terminal}
use agent_projects.Outcomes.{completed, WorkflowSnapshot}
use agent_projects.Checkpoints
use agent_projects.Checkpoints.{Store, RunRow, Save, find_run, snapshot_from_row}
use agent_projects.Checkpoints.Laws.{save-load, save_inversion}
use agent_projects.Engine.World.{Host, Operations, World, on_store, load_run}
use agent_projects.Engine.Records.{node_attempt}
use agent_projects.Engine.Graph.{
  is_waiting, is_active, execute_node, graph_dispatch, run_graph, advance, resume,
}

load_run_found :
    (h : Host) (run_id : String) (w : World) (row : RunRow)
    → w.store.closed ≡ false
    → find_run run_id w.store.runs ≡ some row
    → load_run h run_id w ≡ (ok (snapshot_from_row row), w)
unfolding load_run on_store Checkpoints.load_run ◌>>=◌
load_run_found h run_id w row opened found = ground arith

module _ (h : Host) (ops : Operations) (run_id : String) (w : World) (row : RunRow)
    (opened : w.store.closed ≡ false) (found : find_run run_id w.store.runs ≡ some row) where
  dispatch_stopped :
      (is_terminal row.run.status || is_waiting row.run.status) ≡ true
      → graph_dispatch h ops run_id w ≡ (ok (row.run, none), w)
  unfolding graph_dispatch ◌>>=◌ snapshot_from_row
  dispatch_stopped stopped = ground (arith, load_run_found h run_id w row opened found)

  run_graph_stopped :
      (fuel : ℕ)
      → (is_terminal row.run.status || is_waiting row.run.status) ≡ true
      → run_graph h ops (suc (suc fuel)) run_id w ≡ (ok row.run, w)
  unfolding run_graph ◌>>=◌
  run_graph_stopped fuel stopped = rw (dispatch_stopped stopped)

module _ (h : Host) (ops : Operations) (run_id : String) (w : World) (row : RunRow)
    (opened : w.store.closed ≡ false) (found : find_run run_id w.store.runs ≡ some row) where
  advance_stopped :
      (is_terminal row.run.status || is_waiting row.run.status) ≡ true
      → ((advance h ops run_id w).0 ≡ ok row.run) × ((advance h ops run_id w).1.store ≡ w.store)
  unfolding advance ◌>>=◌
  advance_stopped stopped =
      let w' : World = record w { active_runs = run_id ∷ w.active_runs } in
      rw
        (
          load_run_found h run_id w' row opened found,
          run_graph_stopped h ops run_id w' row opened found 66 stopped,
        )
        (refl, refl)

  -- Ended and waiting runs are left alone: on an open store, resuming a run that has ended or
  -- awaits approval, and that this worker is not advancing, returns its record and changes no row
  -- and no checkpoint; whatever the operations are, none of them runs.
  pub resume_stopped :
      (is_terminal row.run.status || is_waiting row.run.status) ≡ true
      → is_active h ops run_id w ≡ false
      → ((resume h ops run_id w).0 ≡ ok row.run) × ((resume h ops run_id w).1.store ≡ w.store)
  unfolding resume ◌>>=◌
  resume_stopped stopped idle = rw idle (advance_stopped stopped)

-- No attempt is repeated: once the completed checkpoint of a node attempt is committed, a worker
-- that executes the node again from the snapshot before it gets the advanced snapshot from the
-- store, changes nothing, and runs no operation, whichever operations it has.
pub completed_once :
    (h : Host) (ops : Operations) (t : WorkflowSnapshot) (a : Save) (w : World)
    {t' : WorkflowSnapshot} {s' : Store}
    → a.phase ≡ completed
    → a.attempt ≡ node_attempt t.run a.node
    → Checkpoints.save_checkpoint h.json_size t a w.store ≡ (ok t', s')
    → execute_node h ops t a.node (record w { store = s' }) ≡ (ok t', record w { store = s' })
unfolding execute_node load_run on_store ◌>>=◌
completed_once h ops t a w {t'} {s'} phase attempt saved =
    let (loads, finds, _) = save-load h.json_size t a w.store saved in
    let same = (save_inversion h.json_size t a w.store saved).same_run in
    let c =
      Checkpoints.checkpoint_of a (Checkpoints.max_sequence a.run.run_id w.store.checkpoints + 1) in
    let load : Checkpoints.load_run t.run.run_id s' ≡ (ok t', s') =
      subst (λ x. Checkpoints.load_run x s' ≡ (ok t', s')) same loads in
    let find_same : Checkpoints.get_checkpoint t.run.run_id a.node a.attempt a.phase s'
        ≡ (ok (some c), s') =
      subst (λ x. Checkpoints.get_checkpoint x a.node a.attempt a.phase s' ≡ (ok (some c), s')) same
        finds in
    let find_attempt : Checkpoints.get_checkpoint t.run.run_id a.node (node_attempt t.run a.node)
          a.phase s'
        ≡ (ok (some c), s') =
      subst (λ x. Checkpoints.get_checkpoint t.run.run_id a.node x a.phase s' ≡ (ok (some c), s'))
        attempt find_same in
    let find : Checkpoints.get_checkpoint t.run.run_id a.node (node_attempt t.run a.node) completed
          s'
        ≡ (ok (some c), s') =
      subst
        (λ x.
          Checkpoints.get_checkpoint t.run.run_id a.node (node_attempt t.run a.node) x s'
          ≡ (ok (some c), s'))
        phase find_attempt in
    rw (find) (rw load refl)
