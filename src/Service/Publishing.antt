-- ===== src/Service/Publishing.antt =====
-- How RunService in src/repo_agent/service.py publishes a run: its trace, its report, its artifacts
-- and then its stored state. The `notify` of waiting readers is left out: it changes no state.
use agent_projects.Prelude.{
  ℕ, ◌+◌, String, true, Option, none, some, List, [], ◌∷◌, ◌++◌, map, decimal, fmt, str_len, ◌==◌,
  if◌then◌else◌,
}
use agent_projects.Errors.{Exec, pure, ◌>>=◌, ◌>>◌}
use agent_projects.RunModels.{
  RunRecord, PublicRunStatus, WorkflowNode, ChangePlan, CheckSummary, node_name, is_terminal,
  queued, planning, awaiting_approval, running, interrupted, succeeded, unverified, failed,
  cancelled, policy_denied, rejected,
}
use agent_projects.Outcomes.{Value, Leaf, Detail}
use agent_projects.Database
use agent_projects.Database.{stopped_message}
use agent_projects.Service.State.{
  Service, Host, on_database, on_artifacts, lift, utc_now, validated_copy,
}

unfoldable pub status_name : PublicRunStatus → String
status_name queued = "queued"
status_name planning = "planning"
status_name awaiting_approval = "awaiting_approval"
status_name running = "running"
status_name interrupted = "interrupted"
status_name succeeded = "succeeded"
status_name unverified = "unverified"
status_name failed = "failed"
status_name cancelled = "cancelled"
status_name policy_denied = "policy_denied"
status_name rejected = "rejected"

-- `{"status": record.status}`
unfoldable pub status_detail : RunRecord → List (String × Leaf)
unfolding status_name
status_detail run = ("status", Leaf.word (status_name run.status)) ∷ []

unfoldable pub node_value : Option WorkflowNode → Value
node_value none = Value.null
node_value (some node) = Value.text (node_name node)

unfoldable pub plan_lines : Option ChangePlan → List String
plan_lines none = []
plan_lines (some plan) =
    ("## Change plan" ∷ "" ∷ plan.goal ∷ "" ∷ [])
    ++ (map (λ step. fmt ("- " ∷ step ∷ [])) plan.steps ++ "" ∷ [])

unfoldable pub check_lines : List CheckSummary → List String
check_lines [] = "No verification result was recorded." ∷ []
check_lines (check ∷ checks) =
    map
      (λ c. fmt (
        "- Attempt "
        ∷ decimal c.attempt
        ∷ ": `"
        ∷ c.status
        ∷ "` ("
        ∷ decimal c.duration_ms
        ∷ " ms)"
        ∷ []))
      (check ∷ checks)

unfoldable pub error_lines : Option String → List String
error_lines none = []
error_lines (some error) = if str_len error == 0 then [] else "" ∷ "## Error" ∷ "" ∷ error ∷ []

-- The lines of `_write_report`.
unfoldable pub report_lines : RunRecord → List String
unfolding plan_lines check_lines error_lines status_name
report_lines run =
    ("# Repo Maintainer Agent run"
      ∷ ""
      ∷ fmt ("- Run: `" ∷ run.run_id ∷ "`" ∷ [])
      ∷ fmt ("- Status: `" ∷ status_name run.status ∷ "`" ∷ [])
      ∷ fmt ("- Task: " ∷ run.task ∷ [])
      ∷ fmt ("- Repository snapshot source: `" ∷ run.repo_path ∷ "`" ∷ [])
      ∷ ""
      ∷ [])
    ++ (plan_lines run.plan
        ++ (("## Verification" ∷ "" ∷ [])
            ++ (check_lines run.checks
                ++ (error_lines run.error
                    ++ (""
                        ∷ "The patch is an artifact for human review. It was not applied, committed, or pushed to the source repository."
                        ∷ "" ∷ [])))))

-- `"\n".join(lines)`
unfoldable pub join_lines : List String → String
join_lines [] = ""
join_lines (line ∷ []) = line
join_lines (line ∷ next ∷ lines) = fmt (line ∷ "\n" ∷ join_lines (next ∷ lines) ∷ [])

-- The entry of `_trace` in the events of the run, and the one in its trace file.
unfoldable pub trace_event : String → List (String × Leaf) → String → Detail
trace_event event detail now =
    ("event", Value.text event)
    ∷ ("detail", Value.object detail)
    ∷ ("timestamp", Value.text now)
    ∷ []

unfoldable pub trace_entry : ℕ → RunRecord → String → List (String × Leaf) → Detail
trace_entry sequence run event detail =
    ("sequence", Value.integer sequence)
    ∷ ("run_id", Value.text run.run_id)
    ∷ ("event", Value.text event)
    ∷ ("node", node_value run.current_node)
    ∷ ("detail", Value.object detail)
    ∷ []

module _ {A : Type 0} (h : Host A) where
  unfoldable pub append_event : String → Detail → Exec (Service A) ℕ
  append_event run_id event = do
    now ← utc_now h
    on_database (Database.append_event run_id event now)

  -- `_trace`
  unfoldable pub trace : RunRecord → String → List (String × Leaf) → Exec (Service A) (Unit {0})
  trace run event detail = do
    now ← utc_now h
    sequence ← append_event run.run_id (trace_event event detail now)
    on_artifacts (h.append_trace run.run_id (trace_entry sequence run event detail))

  -- `_write_report`
  unfoldable pub write_report : RunRecord → Exec (Service A) (Unit {0})
  write_report run = on_artifacts (h.write_report run.run_id (join_lines (report_lines run)))

  -- `_publish_stopped`
  unfoldable pub publish_stopped :
      RunRecord → String → List (String × Leaf) → Exec (Service A) (Unit {0})
  publish_stopped run event detail = do
    on_artifacts (h.write_record run)
    if is_terminal run.status then write_report run else pure tt
    trace run event detail
    on_database (Database.put run)

  -- `_finish_cancelled`
  unfoldable pub finish_cancelled : RunRecord → Exec (Service A) RunRecord
  finish_cancelled run = do
    now ← utc_now h
    cancelled_run ← lift (
        validated_copy (record run {
          status = cancelled;
          cancel_requested = true;
          updated_at = now;
          finished_at = some now;
        }))
    publish_stopped cancelled_run "workflow_cancelled" (status_detail cancelled_run)
    pure cancelled_run

  -- The loop of `_publish_inflight_interrupted`.
  unfoldable pub publish_interrupted : List RunRecord → ℕ → Exec (Service A) ℕ
  publish_interrupted [] count = pure count
  publish_interrupted (run ∷ runs) count = do
    now ← utc_now h
    stopped ← lift (
        validated_copy
          (record run { status = interrupted; updated_at = now; error = some stopped_message }))
    publish_stopped stopped "service_interrupted" (
        ("previous_status", Leaf.word (status_name run.status))
        ∷ ("status", Leaf.word "interrupted")
        ∷ [])
    publish_interrupted runs (count + 1)

  unfoldable pub publish_inflight_interrupted : Exec (Service A) ℕ
  publish_inflight_interrupted = do
    runs ← on_database (Database.list (some (queued ∷ planning ∷ running ∷ [])))
    publish_interrupted runs 0
