-- ===== src/Engine/Approval.antt =====
-- The decisions about a whole run in src/repo_agent/workflow.py: the approval gate, the pause,
-- the cancellation, and the failure of a run without a next node.
use agent_projects.Prelude.{
  ℕ, String, Bool, true, false, Option, none, some, if◌then◌else◌, is_some, strip,
}
use agent_projects.Errors.{pure, ◌>>=◌}
use agent_projects.RunModels.{
  awaiting_approval, running, failed, cancelled, rejected, WorkflowNode, approval, implement,
  finalize,
}
use agent_projects.Outcomes.{
  CheckpointPhase, started, paused, completed, empty, decision, missing_node, reason,
  WorkflowCheckpoint, WorkflowSnapshot,
}
use agent_projects.Checkpoints
use agent_projects.Checkpoints.{Save}
use agent_projects.Engine.World.{Host, Engine, now, on_store, load_run}
use agent_projects.Engine.Records.{
  save_for_node, node_attempt, count_node, updated_record, record_for_started_node,
}

unfoldable pub strip_reason : Option String → Option String
strip_reason none = none
strip_reason (some r) = some (strip r)

-- `snapshot.next_node or snapshot.record.current_node or "finalize"`
unfoldable pub node_or : Option WorkflowNode → Option WorkflowNode → WorkflowNode
node_or (some n) current = n
node_or none (some n) = n
node_or none none = finalize

module _ (h : Host) where
  -- The approved branch and the rejected branch of `_complete_approval`.
  unfoldable pub complete_approval :
      WorkflowSnapshot → Bool → Option String → Bool → Engine WorkflowSnapshot
  complete_approval t true why automatic = do
    updated ← updated_record h (record t.run {
      status = running;
      current_node = some implement;
      metrics = count_node t.run.metrics;
      approval_reason = strip_reason why;
      finished_at = none;
    })
    save_for_node h t approval 0 completed (decision true automatic (strip_reason why)) updated
        (some implement)
  complete_approval t false why automatic = do
    finished ← now h
    updated ← updated_record h (record t.run {
      status = rejected;
      current_node = none;
      metrics = count_node t.run.metrics;
      approval_reason = strip_reason why;
      finished_at = some finished;
    })
    save_for_node h t approval 0 completed (decision false automatic (strip_reason why)) updated
        none

  -- The `started` checkpoint of a node, written once.
  unfoldable pub start_node :
      WorkflowSnapshot → WorkflowNode → ℕ → Option WorkflowCheckpoint → Engine WorkflowSnapshot
  start_node t node attempt (some c) = pure t
  start_node t node attempt none = do
    updated ← record_for_started_node h t.run node
    save_for_node h t node attempt started empty updated (some node)

  unfoldable pub pause : WorkflowSnapshot → Engine WorkflowSnapshot
  pause t = do
    paused_run ←
        updated_record h (record t.run { status = awaiting_approval; current_node = some approval })
    save_for_node h t approval 0 paused (reason (some "human approval required")) paused_run
        (some approval)

  unfoldable pub pause_or_approve : WorkflowSnapshot → Engine WorkflowSnapshot
  pause_or_approve t =
      if t.run.auto_approve
      then complete_approval t true (some "auto-approved by run configuration") true
      else pause t

  -- `_pause_or_auto_approve`
  unfoldable pub pause_or_auto_approve : WorkflowSnapshot → Engine WorkflowSnapshot
  pause_or_auto_approve t = do
    done ← on_store (Checkpoints.get_checkpoint t.run.run_id approval 0 completed)
    if is_some done then load_run h t.run.run_id else do
      begun ← on_store (Checkpoints.get_checkpoint t.run.run_id approval 0 started)
      t' ← start_node t approval 0 begun
      pause_or_approve t'

  -- `_cancel_snapshot`
  unfoldable pub cancel_snapshot : WorkflowSnapshot → Option String → Engine WorkflowSnapshot
  cancel_snapshot t why = do
    let node = node_or t.next_node t.run.current_node
    finished ← now h
    updated ← updated_record h (record t.run {
      status = cancelled;
      current_node = none;
      cancel_requested = true;
      error = strip_reason why;
      finished_at = some finished;
    })
    save_for_node h t node (node_attempt t.run node) CheckpointPhase.cancelled
        (reason (strip_reason why)) updated none

  -- `_fail_without_node`
  unfoldable pub fail_without_node : WorkflowSnapshot → String → Engine WorkflowSnapshot
  fail_without_node t message = do
    let node = node_or none t.run.current_node
    finished ← now h
    updated ← updated_record h (record t.run {
      status = failed;
      current_node = none;
      error = some message;
      finished_at = some finished;
    })
    save_for_node h t node (node_attempt t.run node) CheckpointPhase.failed (missing_node message)
        updated none
