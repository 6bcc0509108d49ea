-- ===== src/Engine/Complete.antt =====
-- How a node ends: `_complete_node`, `_save_failed_outcome`, `_fail_node` and
-- `_latest_compatible_snapshot` of src/repo_agent/workflow.py.
use Prim.Native.Char.{code}
use agent_projects.Prelude.{
  leb, str_len, ℕ, String, Bool, true, false, not, ◌&&◌, ◌||◌, Option, none, some, [], ◌∷◌, ◌++◌,
  ltb, ◌==◌, if◌then◌else◌, str_eq, fmt,
}
use agent_projects.Errors.{
  Exc, pure, raise, ◌>>=◌, value_error, validation_error, concurrent_update,
}
use agent_projects.RunModels.{
  PublicRunStatus, planning, running, succeeded, unverified, failed, policy_denied, is_terminal,
  WorkflowNode, prepare, approval, implement, repair, review, review_repair, finalize, ChangePlan,
  RunMetrics, RunRecord, node_name, max_declared_attempt,
}
use agent_projects.Outcomes.{
  Value, text, NodeOutcome, VerificationOutcome, as_check_summary, RawResult, outcome, verification,
  plan, detail_get, CheckpointPhase, completed, CheckpointResult, of_plan, of_verification,
  of_outcome, of_error, WorkflowSnapshot,
}
use agent_projects.Engine.World.{Host, Engine, now, now_if, load_run}
use agent_projects.Engine.Records.{
  max_repair_attempts, max_review_repairs, successor, save_for_node, accumulate_usage, or_text,
  option_or_text, bounded_error, count_node, count_repair, updated_record,
}

-- The two outcomes of `implement` that the repair pass may mend.
unfoldable pub is_recoverable : Option String → Bool
is_recoverable none = false
is_recoverable (some e) =
    str_eq e "model finished without producing a candidate patch"
    || str_eq e "candidate patch does not add the required regression test"

unfoldable pub failure_status_of : Option Value → PublicRunStatus
failure_status_of (some (text s)) = if str_eq s "policy_denied" then policy_denied else failed
failure_status_of _ = failed

-- `re.fullmatch(r"[a-f0-9]{40}", s)`
unfoldable pub is_hex : String → Bool
is_hex String.[] = true
is_hex (String.◌∷◌ c s) =
    ((leb b'a' (code c) && leb (code c) b'f') || (leb b'0' (code c) && leb (code c) b'9'))
    && is_hex s

-- What `prepare` reports as its commit: absent or null keeps the old one.
unfoldable pub base_commit_of : Option Value → Option String → Engine (Option String)
unfolding is_hex
base_commit_of none old = pure old
base_commit_of (some Value.null) old = pure old
base_commit_of (some (text s)) old =
    if str_len s == 40 && is_hex s
    then pure (some s)
    else raise value_error "prepare base_commit must be a lowercase 40-character SHA"
base_commit_of (some _) old =
    raise value_error "prepare base_commit must be a lowercase 40-character SHA"

module _ (h : Host) where
  -- `_latest_compatible_snapshot`
  unfoldable pub latest_compatible_snapshot : WorkflowSnapshot → Engine WorkflowSnapshot
  latest_compatible_snapshot t = do
    latest ← load_run h t.run.run_id
    if latest.version == t.version
        then pure t
        else if latest.run.cancel_requested && not t.run.cancel_requested
        then pure latest
        else raise concurrent_update
            (fmt ("run " ∷ t.run.run_id ∷ " changed while a node was executing" ∷ []))

  -- The end of `_complete_node`: `run` holds the changes, all but the fields written here.
  unfoldable pub save_completed :
      WorkflowSnapshot
      → WorkflowNode
      → ℕ
      → CheckpointResult
      → RunRecord
      → Option WorkflowNode
      → Engine WorkflowSnapshot
  save_completed latest node attempt result run next_node = do
    finished ← now_if h (is_terminal run.status)
    updated ← updated_record h (record run { current_node = next_node; finished_at = finished })
    save_for_node h latest node attempt completed result updated next_node

  -- `_save_failed_outcome`
  unfoldable pub save_failed_outcome :
      WorkflowSnapshot → WorkflowNode → ℕ → NodeOutcome → ℕ → RunMetrics → Engine WorkflowSnapshot
  unfolding failure_status_of
  save_failed_outcome t node attempt o duration metrics = do
    let message = option_or_text o.error (or_text o.summary (fmt (node_name node ∷ " failed" ∷ [])))
    finished ← now h
    updated ← updated_record h (record t.run {
      status = failure_status_of (detail_get o.detail "failure_status");
      current_node = none;
      metrics = count_repair node t.run.metrics metrics;
      error = some message;
      finished_at = some finished;
    })
    save_for_node h t node attempt CheckpointPhase.failed (of_outcome o duration) updated none

  -- `_complete_node` after a plan.
  unfoldable pub complete_plan :
      WorkflowSnapshot → WorkflowNode → ℕ → ChangePlan → ℕ → Engine WorkflowSnapshot
  complete_plan latest node attempt p duration =
      save_completed latest node attempt (of_plan p duration)
        (record latest.run {
          status = planning;
          plan = some p;
          metrics = count_node latest.run.metrics;
          error = none;
        })
        (some approval)

  -- `_complete_node` after a verification.
  unfoldable pub complete_verification :
      WorkflowSnapshot → WorkflowNode → ℕ → VerificationOutcome → ℕ → Engine WorkflowSnapshot
  complete_verification latest node attempt v duration = do
    metrics ← accumulate_usage (count_node latest.run.metrics) v.detail
    if ltb max_declared_attempt attempt then raise validation_error "CheckSummary" else do
      let run = record latest.run {
        status = running;
        checks = latest.run.checks ++ as_check_summary v attempt ∷ [];
        metrics = metrics;
        error = none;
      }
      if v.ok
          then save_completed latest node attempt (of_verification v duration) run (some review)
          else if ltb latest.run.metrics.repair_attempts max_repair_attempts
          then save_completed latest node attempt (of_verification v duration) run (some repair)
          else save_completed latest node attempt (of_verification v duration)
              (record run { status = unverified; error = some (option_or_text v.error v.status) })
              none

  -- The successful outcomes: what each node changes in the record.
  unfoldable pub succeed :
      WorkflowSnapshot → WorkflowNode → NodeOutcome → RunMetrics → Engine RunRecord
  unfolding base_commit_of
  succeed latest prepare o metrics = do
    base ← base_commit_of (detail_get o.detail "base_commit") latest.run.base_commit
    pure (record latest.run {
      status = running;
      base_commit = base;
      metrics = metrics;
      error = none;
    })
  succeed latest finalize o metrics = pure (record latest.run {
    status = succeeded;
    summary = if str_eq o.summary "" then latest.run.summary else some o.summary;
    metrics = metrics;
    error = none;
  })
  succeed latest node o metrics = pure (record latest.run {
    status = running;
    metrics = count_repair node latest.run.metrics metrics;
    error = none;
  })

  -- An outcome that is not ok.
  unfoldable pub complete_rejected :
      WorkflowSnapshot → WorkflowNode → ℕ → NodeOutcome → ℕ → RunMetrics → Engine WorkflowSnapshot
  unfolding is_recoverable
  complete_rejected latest review attempt o duration metrics =
      if ltb latest.run.metrics.review_repairs max_review_repairs
      then save_completed latest review attempt (of_outcome o duration)
          (record latest.run { status = running; metrics = metrics; error = none })
          (some review_repair)
      else save_completed latest review attempt (of_outcome o duration)
          (record latest.run {
            status = failed;
            metrics = metrics;
            error = some (option_or_text o.error (or_text o.summary "review rejected changes"));
          })
          none
  complete_rejected latest implement attempt o duration metrics =
      if is_recoverable o.error && ltb latest.run.metrics.repair_attempts max_repair_attempts
      then save_completed latest implement attempt (of_outcome o duration)
          (record latest.run { status = running; metrics = metrics; error = none }) (some repair)
      else save_failed_outcome latest implement attempt o duration metrics
  complete_rejected latest node attempt o duration metrics =
      save_failed_outcome latest node attempt o duration metrics

  -- `_complete_node` after any other operation.
  unfoldable pub complete_outcome :
      WorkflowSnapshot → WorkflowNode → ℕ → NodeOutcome → ℕ → Engine WorkflowSnapshot
  complete_outcome latest node attempt o duration = do
    metrics ← accumulate_usage (count_node latest.run.metrics) o.detail
    if not o.ok then complete_rejected latest node attempt o duration metrics else do
      run ← succeed latest node o metrics
      save_completed latest node attempt (of_outcome o duration) run (successor node)

  unfoldable pub complete_raw :
      WorkflowSnapshot → WorkflowNode → ℕ → RawResult → ℕ → Engine WorkflowSnapshot
  complete_raw latest node attempt (plan p) duration = complete_plan latest node attempt p duration
  complete_raw latest node attempt (verification v) duration =
      complete_verification latest node attempt v duration
  complete_raw latest node attempt (outcome o) duration =
      complete_outcome latest node attempt o duration

  -- `_complete_node`: the kind of result is that of the node, by `_invoke`.
  unfoldable pub complete_node :
      WorkflowSnapshot → WorkflowNode → ℕ → RawResult → ℕ → Engine WorkflowSnapshot
  complete_node t node attempt raw duration = do
    latest ← latest_compatible_snapshot t
    complete_raw latest node attempt raw duration

  -- `_fail_node`
  unfoldable pub fail_node : WorkflowSnapshot → WorkflowNode → ℕ → Exc → ℕ → Engine WorkflowSnapshot
  fail_node t node attempt e duration = do
    latest ← latest_compatible_snapshot t
    let message = bounded_error e
    finished ← now h
    updated ← updated_record h (record latest.run {
      status = failed;
      current_node = none;
      metrics = count_repair node latest.run.metrics (count_node latest.run.metrics);
      error = some message;
      finished_at = some finished;
    })
    save_for_node h latest node attempt CheckpointPhase.failed (of_error message duration) updated
        none
