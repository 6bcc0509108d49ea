-- ===== src/Service/Commands.antt =====
-- The commands of RunService in src/repo_agent/service.py. Commands exclude one another by the
-- close lock, and each holds what it reads by the publication lock.
use agent_projects.Prelude.{
  ℕ, String, Bool, true, false, not, ◌&&◌, ◌||◌, Option, none, some, List, [], ◌∷◌, if◌then◌else◌,
  fmt,
}
use agent_projects.Errors.{
  Exec, pure, raise, throw, ◌>>=◌, ◌>>◌, try_except, invalid_run_transition,
}
use agent_projects.RunModels.{
  RunRecord, PublicRunStatus, status_eq, is_terminal, queued, planning, awaiting_approval, running,
  interrupted, cancelled, rejected,
}
use agent_projects.Outcomes.{Leaf}
use agent_projects.Database
use agent_projects.Service.Queue.{
  acquire, release, refuse_full, require_open, schedule, cancel_job, stop, release_lease,
}
use agent_projects.Service.State.{
  Service, Host, on_database, on_artifacts, on_scheduler, lift, utc_now, fresh_id, validated_task,
  validated_base_ref, validated_reason, validated_copy, get_run,
}
use agent_projects.Service.Publishing.{
  status_name, status_detail, trace, publish_stopped, publish_inflight_interrupted,
}

abbrev pub is_active : PublicRunStatus → Bool
is_active status = status_eq status planning || status_eq status running

-- `event`'s detail `{"status": "queued"}`.
abbrev queued_detail : List (String × Leaf)
queued_detail = ("status", Leaf.word "queued") ∷ []

module _ {A : Type 0} (h : Host A) where
  unfoldable pub wrong_state : {B : Type 0} → RunRecord → String → Exec (Service A) B
  unfolding status_name
  wrong_state run wanted =
      raise invalid_run_transition
        (fmt ("run " ∷ run.run_id ∷ " is " ∷ status_name run.status ∷ ", not " ∷ wanted ∷ []))

  -- The record that `_create_run` stores, with an id and a reading of the clock.
  unfoldable pub new_record :
      String → String → Option String → Bool → Bool → String → String → RunRecord
  new_record repository task base_ref auto_approve allow_remote_model run_id now = record {
    run_id = run_id;
    repo_path = repository;
    task = task;
    base_ref = base_ref;
    base_commit = none;
    status = queued;
    current_node = none;
    plan = none;
    checks = [];
    metrics = record {
      node_count = 0;
      tool_calls = 0;
      repair_attempts = 0;
      review_repairs = 0;
      duration_ms = 0;
      tokens = 0;
    };
    error = none;
    summary = none;
    approval_reason = none;
    auto_approve = auto_approve;
    allow_remote_model = allow_remote_model;
    cancel_requested = false;
    created_at = now;
    updated_at = now;
    started_at = none;
    finished_at = none;
  }

  -- The `try` of `_create_run`.
  unfoldable pub store_and_schedule : RunRecord → Exec (Service A) (Unit {0})
  store_and_schedule run = do
    artifact_dir ← on_artifacts (h.initialize run.run_id)
    on_database (Database.create run artifact_dir)
    on_artifacts (h.write_record run)
    trace h run "run_created" queued_detail
    on_scheduler (schedule (record { run_id = run.run_id; resumes = false }) true)

  unfoldable pub create_reserved : RunRecord → Exec (Service A) RunRecord
  create_reserved run = do
    try_except (store_and_schedule run) λ e. do on_scheduler release; throw e
    get_run h run.run_id

  -- `create_run`. The record it makes is valid: its texts are checked before, and a path that
  -- exists is shorter than the bound.
  unfoldable pub create_run :
      String → String → Option String → Bool → Bool → Exec (Service A) RunRecord
  create_run repo_path task base_ref auto_approve allow_remote_model = do
    on_scheduler require_open
    repository ← lift (h.validated_repo_path repo_path)
    normalized_task ← lift (validated_task task)
    normalized_ref ← lift (validated_base_ref base_ref)
    acquired ← on_scheduler acquire
    if not acquired then on_scheduler refuse_full else do
      run_id ← fresh_id h
      now ← utc_now h
      create_reserved (
          new_record repository normalized_task normalized_ref auto_approve allow_remote_model
            run_id now)

  -- Storing a run as queued and scheduling it, undone if it cannot be scheduled.
  unfoldable pub requeue : RunRecord → RunRecord → String → Exec (Service A) RunRecord
  requeue old new event = do
    on_database (Database.put new)
    try_except (on_scheduler (schedule (record { run_id = new.run_id; resumes = true }) false))
        λ e. do on_database (Database.put old); throw e
    trace h new event queued_detail
    on_artifacts (h.write_record new)
    pure new

  unfoldable pub reject : RunRecord → Option String → String → Exec (Service A) RunRecord
  reject run reason now = do
    refused ← lift (
        validated_copy (record run {
          status = rejected;
          approval_reason = reason;
          updated_at = now;
          finished_at = some now;
        }))
    publish_stopped h refused "plan_rejected" (status_detail refused)
    pure refused

  unfoldable pub approve : RunRecord → Option String → String → Exec (Service A) RunRecord
  approve run reason now = do
    waiting ← lift (
        validated_copy (record run { status = queued; approval_reason = reason; updated_at = now }))
    requeue run waiting "plan_approved"

  -- `decide`
  unfoldable pub decide : String → Bool → Option String → Exec (Service A) RunRecord
  decide run_id approves reason = do
    on_scheduler require_open
    normalized_reason ← lift (validated_reason reason)
    run ← get_run h run_id
    if not (status_eq run.status awaiting_approval) then wrong_state run "awaiting approval" else do
      now ← utc_now h
      if approves then approve run normalized_reason now else reject run normalized_reason now

  -- `resume`
  unfoldable pub resume : String → Exec (Service A) RunRecord
  resume run_id = do
    on_scheduler require_open
    run ← get_run h run_id
    if not (status_eq run.status interrupted) then wrong_state run "interrupted" else do
      now ← utc_now h
      waiting ← lift (
          validated_copy (record run {
            status = queued;
            error = none;
            cancel_requested = false;
            updated_at = now;
          }))
      requeue run waiting "run_resumed"

  unfoldable pub publish_cancel : Bool → RunRecord → Exec (Service A) RunRecord
  publish_cancel true run = do
    on_database (Database.put run)
    trace h run "cancel_requested" (("active", Leaf.flag true) ∷ [])
    on_artifacts (h.write_record run)
    pure run
  publish_cancel false run = do
    publish_stopped h run "cancel_requested" (("active", Leaf.flag false) ∷ [])
    pure run

  unfoldable pub cancel_live : RunRecord → Exec (Service A) RunRecord
  cancel_live run = do
    now ← utc_now h
    cancelled_run ← lift (
        validated_copy (record run {
          status = if is_active run.status then run.status else cancelled;
          cancel_requested = true;
          updated_at = now;
          finished_at = if is_active run.status then none else some now;
        }))
    on_scheduler (cancel_job run.run_id (not (is_active run.status) && status_eq run.status queued))
    publish_cancel (is_active run.status) cancelled_run

  -- `cancel`; the hook of the runner that it calls last may fail and is only a hint.
  unfoldable pub cancel : String → Exec (Service A) RunRecord
  cancel run_id = do
    on_scheduler require_open
    run ← get_run h run_id
    if is_terminal run.status then pure run else cancel_live run

  -- `close` before it waits for the worker, and once that has stopped.
  unfoldable pub begin_close : Exec (Service A) (Unit {0})
  begin_close = on_scheduler stop

  unfoldable pub finish_close : Exec (Service A) ℕ
  finish_close = do
    count ← try_except (publish_inflight_interrupted h) λ e. do on_scheduler release_lease; throw e
    on_scheduler release_lease
    pure count
