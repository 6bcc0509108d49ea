-- ===== src/Engine/Graph.antt =====
-- The transitions of src/repo_agent/workflow.py: a node's execution, the dispatcher, the graph
-- that alternates them, and the engine's public methods.
use agent_projects.Prelude.{
  ℕ, zero, suc, String, Bool, true, false, not, ◌&&◌, ◌||◌, Option, none, some, List, [], ◌∷◌,
  if◌then◌else◌, is_some, any, str_eq, fmt, str_len, ltb, ◌==◌,
}
use agent_projects.Errors.{
  pure, gets, raise, ◌>>=◌, ◌>>◌, try_exception, invalid_transition, run_busy, validation_error,
  graph_recursion,
}
use agent_projects.RunModels.{
  PublicRunStatus, queued, awaiting_approval, is_terminal, WorkflowNode, prepare, baseline_check,
  inspect_and_plan, approval, implement, verify, repair, review, review_repair, finalize, RunRecord,
  node_eq,
}
use agent_projects.Outcomes.{
  RawResult, outcome, verification, plan, started, completed, WorkflowSnapshot, WorkflowCheckpoint,
  OperationContext,
}
use agent_projects.Checkpoints
use agent_projects.Checkpoints.{Store}
use agent_projects.Engine.World.{Host, Operations, World, Engine, now, on_store, load_run}
use agent_projects.Engine.Records.{fits, map_text, node_attempt, idempotency_key, previous_result}
use agent_projects.Engine.Complete.{complete_node, fail_node, is_hex}
use agent_projects.Engine.Approval.{
  complete_approval, start_node, pause_or_auto_approve, cancel_snapshot, fail_without_node,
}

unfoldable pub map_raw : {A : Type 0} → (A → RawResult) → Engine A → Engine RawResult
map_raw f m = do a ← m; pure (f a)

-- `_invoke`
unfoldable pub invoke : Operations → WorkflowNode → OperationContext → Engine RawResult
unfolding map_raw on_store
invoke ops prepare c = map_raw outcome (on_store (ops.prepare c))
invoke ops baseline_check c = map_raw outcome (on_store (ops.baseline_check c))
invoke ops inspect_and_plan c = map_raw plan (on_store (ops.inspect_and_plan c))
invoke ops implement c = map_raw outcome (on_store (ops.implement c))
invoke ops verify c = map_raw verification (on_store (ops.verify c))
invoke ops repair c = map_raw outcome (on_store (ops.repair c))
invoke ops review c = map_raw outcome (on_store (ops.review c))
invoke ops review_repair c = map_raw outcome (on_store (ops.review_repair c))
invoke ops finalize c = map_raw outcome (on_store (ops.finalize c))
invoke ops approval c = raise invalid_transition "node 'approval' is not executable"

abbrev pub is_waiting : PublicRunStatus → Bool
is_waiting awaiting_approval = true
is_waiting _ = false

abbrev pub is_at : WorkflowNode → Option WorkflowNode → Bool
is_at node none = false
is_at node (some next) = node_eq next node

abbrev pub is_approval : WorkflowNode → Bool
is_approval approval = true
is_approval _ = false

abbrev pub recursion_limit : ℕ
recursion_limit = 68

unfoldable pub without : String → List String → List String
without run_id [] = []
without run_id (r ∷ rest) =
    let others = without run_id rest in if str_eq r run_id then others else r ∷ others

module _ (h : Host) (ops : Operations) where
  -- The operation of a node and its end, with the `except` of `_execute_node`.
  unfoldable pub run_operation :
      WorkflowSnapshot → WorkflowNode → ℕ → List WorkflowCheckpoint → Engine WorkflowSnapshot
  run_operation t node attempt checkpoints w =
      let context : OperationContext = record {
        run = t.run;
        node = node;
        attempt = attempt;
        idempotency_key = idempotency_key t.run.run_id node attempt;
        previous_result = previous_result checkpoints node attempt;
      } in
      let duration = h.operation_ms w.ticks in
      try_exception (invoke ops node context >>= λ raw. complete_node h t node attempt raw duration)
        (λ e. fail_node h t node attempt e duration) w

  -- `_execute_node`
  unfoldable pub execute_node : WorkflowSnapshot → WorkflowNode → Engine WorkflowSnapshot
  execute_node t node = do
    let attempt = node_attempt t.run node
    done ← on_store (Checkpoints.get_checkpoint t.run.run_id node attempt completed)
    if is_some done then load_run h t.run.run_id else do
      begun ← on_store (Checkpoints.get_checkpoint t.run.run_id node attempt started)
      t' ← start_node h t node attempt begun
      checkpoints ← on_store (Checkpoints.list_checkpoints t'.run.run_id)
      run_operation t' node attempt checkpoints

  unfoldable pub route :
      WorkflowSnapshot → Option WorkflowNode → Engine (RunRecord × Option WorkflowNode)
  route t none = do
    failed ← fail_without_node h t "non-terminal workflow has no next node"
    pure (failed.run, none)
  route t (some node) = pure (t.run, some node)

  -- `_graph_dispatch`: the record and the route, `none` for the end of the graph.
  unfoldable pub graph_dispatch : String → Engine (RunRecord × Option WorkflowNode)
  unfolding route
  graph_dispatch run_id = do
    t ← load_run h run_id
    if is_terminal t.run.status || is_waiting t.run.status
        then pure (t.run, none)
        else if t.run.cancel_requested
        then (do cancelled ← cancel_snapshot h t none; pure (cancelled.run, none))
        else route t t.next_node

  -- `_graph_execute_node`
  unfoldable pub graph_execute_node : String → WorkflowNode → Engine RunRecord
  graph_execute_node run_id node = do
    t ← load_run h run_id
    if is_terminal t.run.status || not (is_at node t.next_node) then pure t.run else do
      advanced ← (if is_approval node then pause_or_auto_approve h t else execute_node t node)
      pure advanced.run

  -- The graph of `_build_graph`, START → dispatch → node → dispatch → … → END. The number counts
  -- the supersteps left of `recursion_limit`, one for the dispatcher and one for a node.
  unfoldable pub run_graph : ℕ → String → Engine RunRecord
  run_graph zero run_id = raise graph_recursion "recursion limit"
  run_graph (suc zero) run_id = do
    (run, next) ← graph_dispatch run_id
    if is_some next then raise graph_recursion "recursion limit" else pure run
  run_graph (suc (suc fuel)) run_id = graph_dispatch run_id >>= λ (run, next). elim next [
    | none ↦ pure run
    | some node ↦ graph_execute_node run_id node >>= λ _. run_graph fuel run_id
  ]

  -- The `try` and the `finally` of `resume`.
  unfoldable pub advance : String → Engine RunRecord
  unfolding without
  advance run_id w =
      let (result, w') =
        (load_run h run_id >> run_graph recursion_limit run_id)
          (record w { active_runs = run_id ∷ w.active_runs }) in
      (result, record w' { active_runs = without run_id w'.active_runs })

  unfoldable pub is_active : String → World → Bool
  is_active run_id w = any (λ r. str_eq r run_id) w.active_runs

  -- `resume`
  unfoldable pub resume : String → Engine RunRecord
  unfolding is_active
  resume run_id = do
    busy ← gets (is_active run_id)
    if busy
        then raise run_busy (fmt ("run " ∷ run_id ∷ " is already active in this worker" ∷ []))
        else advance run_id

  -- `approve`
  unfoldable pub approve : String → Bool → Option String → Bool → Engine RunRecord
  approve run_id approved why then_resume = do
    t ← load_run h run_id
    if not (is_waiting t.run.status && is_at approval t.next_node)
        then raise invalid_transition
            (fmt ("run " ∷ run_id ∷ " is not awaiting an approval decision" ∷ []))
        else do
          t' ← complete_approval h t approved why false
          if approved && then_resume then resume run_id else pure t'.run

  -- `cancel`
  unfoldable pub cancel : String → Option String → Engine RunRecord
  cancel run_id why = do
    t ← load_run h run_id
    if is_terminal t.run.status
        then pure t.run
        else do cancelled ← cancel_snapshot h t why; pure cancelled.run

-- The fields of a new run that `RunRecord` constrains.
unfoldable pub is_new_run : RunRecord → Bool
is_new_run r =
    str_len r.run_id == 32
    && is_hex r.run_id
    && not (str_len r.repo_path == 0)
    && not (ltb 32767 (str_len r.repo_path))
    && not (str_len r.task == 0)
    && not (ltb 4000 (str_len r.task))
    && fits 255 r.base_ref

-- The record that `start` builds.
unfoldable pub new_run :
    Host → String → String → String → Option String → Bool → Bool → String → RunRecord
new_run h run_id repo_path task base_ref auto_approve allow_remote_model created = record {
  run_id = h.strip_whitespace run_id;
  repo_path = h.strip_whitespace repo_path;
  task = h.strip_whitespace task;
  base_ref = map_text h.strip_whitespace base_ref;
  base_commit = none;
  status = queued;
  current_node = some prepare;
  plan = none;
  checks = [];
  metrics = record {
    node_count = 0;
    tool_calls = 0;
    repair_attempts = 0;
    review_repairs = 0;
    duration_ms = 0;
    tokens = 0;
  };
  error = none;
  summary = none;
  approval_reason = none;
  auto_approve = auto_approve;
  allow_remote_model = allow_remote_model;
  cancel_requested = false;
  created_at = created;
  updated_at = created;
  started_at = none;
  finished_at = none;
}

-- `start`, with the run id that the caller gives or `uuid4` draws.
unfoldable pub start :
    Host → Operations → String → String → String → Option String → Bool → Bool → Engine RunRecord
unfolding new_run
start h ops run_id repo_path task base_ref auto_approve allow_remote_model = do
  created ← now h
  let run = new_run h run_id repo_path task base_ref auto_approve allow_remote_model created
  if not (is_new_run run)
      then raise validation_error "RunRecord"
      else do on_store (Checkpoints.create_run run prepare); resume h ops run.run_id
