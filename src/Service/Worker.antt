-- ===== src/Service/Worker.antt =====
-- The worker of RunService in src/repo_agent/service.py: `_execute_job` before and after it runs the
-- workflow, and what a workflow may do meanwhile by its RunExecutionContext.
use agent_projects.Prelude.{
  ℕ, String, Bool, true, false, not, ◌||◌, Option, none, some, List, [], ◌∷◌, if◌then◌else◌, str_eq,
  fmt, str_len, ◌==◌,
}
use agent_projects.Errors.{
  Exec, Exc, ErrorKind, Result, ok, err, pure, raise, throw, gets, ◌>>=◌, ◌>>◌, try_except,
  run_not_found, value_error, type_error, runtime_error,
}
use agent_projects.RunModels.{
  RunRecord, PublicRunStatus, WorkflowNode, status_eq, is_terminal, planning, awaiting_approval,
  running, failed,
}
use agent_projects.Outcomes.{Value, Leaf, Detail}
use agent_projects.Database
use agent_projects.Service.Queue.{Job, is_set}
use agent_projects.Service.State.{
  Service, Host, on_database, on_artifacts, lift, utc_now, validated_copy, exception_detail,
  get_run,
}
use agent_projects.Service.Publishing.{
  status_name, status_detail, node_value, append_event, trace, publish_stopped, finish_cancelled,
}

abbrev is_not_found : ErrorKind → Bool
is_not_found run_not_found = true
is_not_found _ = false

abbrev pub stops : PublicRunStatus → Bool
stops status = is_terminal status || status_eq status awaiting_approval

-- What a workflow stores is `running` where it has stopped: only the service makes that known.
unfoldable pub persisted_of : RunRecord → Result RunRecord
persisted_of run =
    if stops run.status
    then validated_copy (record run { status = running; finished_at = none })
    else ok run

-- `value or default`
text_or : Option String → String → String
text_or none default = default
text_or (some value) default = if str_len value == 0 then default else value

module _ {A : Type 0} (h : Host A) where
  -- `cancel_event.is_set()`
  unfoldable pub is_cancelled : String → Exec (Service A) Bool
  is_cancelled run_id = gets λ s. is_set run_id s.scheduler.cancel_events

  -- `record.started_at or utc_now()`
  unfoldable pub now_or : Option String → Exec (Service A) String
  now_or none = utc_now h
  now_or (some at) = if str_len at == 0 then utc_now h else pure at

  unfoldable pub start_job : Job → RunRecord → Exec (Service A) (Option RunRecord)
  start_job job run = do
    at ← now_or run.started_at
    now ← utc_now h
    started ← lift (
        validated_copy (record run {
          status = if job.resumes then running else planning;
          started_at = some at;
          updated_at = now;
        }))
    on_database (Database.put started)
    trace h started (if job.resumes then "workflow_resumed" else "workflow_started")
        (status_detail started)
    on_artifacts (h.write_record started)
    pure (some started)

  unfoldable pub begin_found : Job → Option RunRecord → Exec (Service A) (Option RunRecord)
  begin_found job none = pure none
  begin_found job (some run) =
      if is_terminal run.status
      then pure none
      else if run.cancel_requested
      then finish_cancelled h run >> pure none
      else start_job job run

  -- `_execute_job` up to the workflow: the record that it runs on, or `none` where it returns.
  unfoldable pub begin_job : Job → Exec (Service A) (Option RunRecord)
  begin_job job = do
    set ← is_cancelled job.run_id
    if set then pure none else do
      found ←
          try_except (do run ← get_run h job.run_id; pure (some run))
            λ e. if is_not_found e.kind then pure none else throw e
      begin_found job found

  -- `RunExecutionContext.publish_event`
  unfoldable pub publish_event : String → Detail → Exec (Service A) ℕ
  publish_event run_id event = append_event h run_id event

  checkpoint_event : String → Option WorkflowNode → Value → String → Detail
  unfolding node_value
  checkpoint_event event node detail now =
      ("event", Value.text event)
      ∷ ("node", node_value node)
      ∷ ("detail", detail)
      ∷ ("timestamp", Value.text now)
      ∷ []

  checkpoint_entry : ℕ → String → String → Option WorkflowNode → Value → String → Detail
  unfolding node_value
  checkpoint_entry sequence run_id event node detail now =
      ("sequence", Value.integer sequence)
      ∷ ("run_id", Value.text run_id)
      ∷ ("event", Value.text event)
      ∷ ("node", node_value node)
      ∷ ("detail", detail)
      ∷ ("timestamp", Value.text now)
      ∷ []

  -- `RunExecutionContext.checkpoint`
  unfoldable pub checkpoint :
      String → RunRecord → String → Option WorkflowNode → Value → Exec (Service A) RunRecord
  unfolding checkpoint_event checkpoint_entry
  checkpoint run_id run event node detail =
      if not (str_eq run.run_id run_id)
      then raise value_error "workflow attempted to checkpoint another run"
      else do
        now ← utc_now h
        updated ← lift (validated_copy (record run { updated_at = now }))
        persisted ← lift (persisted_of updated)
        on_database (Database.put persisted)
        sequence ← append_event h run_id (checkpoint_event event node detail now)
        on_artifacts
            (h.append_trace run_id (checkpoint_entry sequence run_id event node detail now))
        on_artifacts (h.write_record persisted)
        pure updated

  -- `utc_now() if … else None`
  unfoldable pub now_if : Bool → Exec (Service A) (Option String)
  now_if true = do now ← utc_now h; pure (some now)
  now_if false = pure none

  unfoldable pub publish_final : RunRecord → Exec (Service A) (Unit {0})
  publish_final outcome = do
    now ← utc_now h
    finished ← now_if (is_terminal outcome.status)
    final ← lift (validated_copy (record outcome { updated_at = now; finished_at = finished }))
    publish_stopped h final "workflow_stopped" (status_detail final)

  -- The rest of the `try` of `_execute_job`, once the workflow has returned or raised.
  unfoldable pub publish_outcome : String → Result RunRecord → Exec (Service A) (Unit {0})
  publish_outcome run_id (err e) = throw e
  publish_outcome run_id (ok outcome) =
      if not (str_eq outcome.run_id run_id)
      then raise type_error "workflow returned an unsupported run record"
      else do
        latest ← get_run h run_id
        set ← is_cancelled run_id
        if set || latest.cancel_requested
            then finish_cancelled h latest >> pure tt
            else if not (stops outcome.status)
            then raise runtime_error (
                fmt
                  ("workflow stopped in invalid public state: " ∷ status_name outcome.status ∷ []))
            else publish_final outcome

  error_detail : RunRecord → List (String × Leaf)
  unfolding text_or
  error_detail run = ("error", Leaf.word (text_or run.error "workflow failed")) ∷ []

  -- Its `except BaseException`.
  unfoldable pub publish_failure : String → Exc → Exec (Service A) (Unit {0})
  unfolding error_detail
  publish_failure run_id e = do
    latest ← get_run h run_id
    set ← is_cancelled run_id
    if set || latest.cancel_requested then finish_cancelled h latest >> pure tt else do
      now ← utc_now h
      failed_run ← lift (
          validated_copy (record latest {
            status = failed;
            error = some (exception_detail e);
            updated_at = now;
            finished_at = some now;
          }))
      publish_stopped h failed_run "workflow_failed" (error_detail failed_run)

  unfoldable pub end_job : String → Result RunRecord → Exec (Service A) (Unit {0})
  end_job run_id outcome = try_except (publish_outcome run_id outcome) (publish_failure run_id)
