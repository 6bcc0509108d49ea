-- ===== src/Engine/Records.antt =====
-- The helpers of src/repo_agent/workflow.py that compute records, keys and counters.
use Prim.Native.String.{◌∷◌ as str_cons}
use agent_projects.Prelude.{
  ℕ, zero, suc, ◌+◌, String, Bool, true, false, not, ◌&&◌, ◌||◌, Option, none, some, List, [], ◌∷◌,
  ltb, ◌==◌, if◌then◌else◌, is_some, length, str_eq, str_len, strip, decimal, fmt,
}
use agent_projects.Errors.{Exc, type_name, pure, raise, ◌>>=◌, value_error, validation_error}
use agent_projects.RunModels.{
  PublicRunStatus, planning, running, WorkflowNode, prepare, baseline_check, inspect_and_plan,
  approval, implement, verify, repair, review, review_repair, finalize, RunMetrics, RunRecord,
  node_eq, node_name, max_declared_repairs, max_declared_review_repairs,
}
use agent_projects.Outcomes.{
  Value, integer, Detail, detail_get, CheckpointPhase, completed, CheckpointResult,
  WorkflowCheckpoint, WorkflowSnapshot,
}
use agent_projects.Engine.World.{Host, Engine, now, save_checkpoint}

abbrev pub max_repair_attempts : ℕ
max_repair_attempts = 1

abbrev pub max_review_repairs : ℕ
max_review_repairs = 0

-- `_successor`
unfoldable pub successor : WorkflowNode → Option WorkflowNode
successor prepare = some baseline_check
successor baseline_check = some inspect_and_plan
successor inspect_and_plan = some approval
successor approval = some implement
successor implement = some verify
successor verify = some review
successor repair = some verify
successor review = some finalize
successor review_repair = some verify
successor finalize = none

-- `_node_attempt`
unfoldable pub node_attempt : RunRecord → WorkflowNode → ℕ
node_attempt r verify = length r.checks
node_attempt r repair = r.metrics.repair_attempts + 1
node_attempt r review = r.metrics.review_repairs
node_attempt r review_repair = r.metrics.review_repairs + 1
node_attempt r _ = 0

-- `_idempotency_key`
unfoldable pub idempotency_key : String → WorkflowNode → ℕ → String
idempotency_key run_id node attempt =
    fmt (run_id ∷ ":" ∷ node_name node ∷ ":" ∷ decimal attempt ∷ [])

is_result : CheckpointPhase → Bool
is_result completed = true
is_result CheckpointPhase.failed = true
is_result _ = false

-- `_previous_result`: the last result of another node or attempt.
unfoldable pub previous_result :
    List WorkflowCheckpoint → WorkflowNode → ℕ → Option CheckpointResult
unfolding is_result
previous_result [] node attempt = none
previous_result (c ∷ rest) node attempt =
    let own =
      if node_eq c.node node && c.attempt == attempt
      then none
      else if is_result c.phase
      then some c.result
      else none in
    let later = previous_result rest node attempt in if is_some later then later else own

usage_of : Option Value → Option ℕ
usage_of none = some 0
usage_of (some (integer n)) = some n
usage_of (some _) = none

unfoldable pub usage_or_raise : String → Option ℕ → Engine ℕ
usage_or_raise field none =
    raise value_error (fmt (field ∷ " detail must be a non-negative integer" ∷ []))
usage_or_raise field (some n) = pure n

-- `_accumulate_usage`: the payload is validated against the bounds of `RunMetrics`.
unfoldable pub accumulate_usage : RunMetrics → Detail → Engine RunMetrics
unfolding usage_of
accumulate_usage m detail = do
  calls ← usage_or_raise "tool_calls" (usage_of (detail_get detail "tool_calls"))
  tokens ← usage_or_raise "tokens" (usage_of (detail_get detail "tokens"))
  if ltb max_declared_repairs m.repair_attempts || ltb max_declared_review_repairs m.review_repairs
      then raise validation_error "RunMetrics"
      else pure (record m { tool_calls = m.tool_calls + calls; tokens = m.tokens + tokens })

-- `a or b` on texts, where the empty text is false.
unfoldable pub or_text : String → String → String
or_text a b = if str_eq a "" then b else a

unfoldable pub option_or_text : Option String → String → String
unfolding or_text
option_or_text none b = b
option_or_text (some a) b = or_text a b

-- `text[:n]`
unfoldable pub str_take : ℕ → String → String
str_take zero s = String.[]
str_take (suc n) String.[] = String.[]
str_take (suc n) (String.◌∷◌ c s) = str_cons c (str_take n s)

abbrev pub max_error_length : ℕ
max_error_length = 4000

-- `_bounded_error`
unfoldable pub bounded_error : Exc → String
unfolding or_text str_take
bounded_error e =
    let message = or_text (strip e.message) (type_name e.kind) in
    str_take max_error_length (fmt (type_name e.kind ∷ ": " ∷ message ∷ []))

-- `metrics.model_copy(update={"node_count": …})`
unfoldable pub count_node : RunMetrics → RunMetrics
count_node m = record m { node_count = m.node_count + 1 }

-- The repair counters of a node that failed, or of a repair that was done.
unfoldable pub count_repair : WorkflowNode → RunMetrics → RunMetrics → RunMetrics
count_repair repair old m = record m { repair_attempts = old.repair_attempts + 1 }
count_repair review_repair old m = record m { review_repairs = old.review_repairs + 1 }
count_repair _ old m = m

unfoldable pub fits : ℕ → Option String → Bool
fits limit none = true
fits limit (some s) = not (ltb limit (str_len s))

unfoldable pub map_text : (String → String) → Option String → Option String
map_text f none = none
map_text f (some s) = some (f s)

abbrev pub max_reason_length : ℕ
max_reason_length = 2000

-- The limits that `RunRecord` puts on the texts that the engine writes.
unfoldable pub within_limits : RunRecord → Bool
unfolding fits
within_limits r =
    fits max_error_length r.error
    && fits max_error_length r.summary
    && fits max_reason_length r.approval_reason

unfoldable pub timed : Host → String → Option String → RunMetrics → RunMetrics
timed h t none m = m
timed h t (some started) m = record m { duration_ms = h.wall_ms started t }

module _ (h : Host) where
  -- `RunRecord.model_validate`, on the fields that the engine may change.
  unfoldable pub stripped : RunRecord → RunRecord
  unfolding map_text
  stripped r = record r {
    error = map_text h.strip_whitespace r.error;
    summary = map_text h.strip_whitespace r.summary;
    approval_reason = map_text h.strip_whitespace r.approval_reason;
  }

  unfoldable pub model_validate : RunRecord → Engine RunRecord
  unfolding stripped within_limits
  model_validate r =
      let r' = stripped r in
      if within_limits r' then pure r' else raise validation_error "RunRecord"

  -- `_updated_record`: the caller has written the changes into the record.
  unfoldable pub updated_record : RunRecord → Engine RunRecord
  unfolding timed
  updated_record changed = do
    t ← now h
    model_validate
        (record changed { metrics = timed h t changed.started_at changed.metrics; updated_at = t })

  unfoldable pub status_when_started : WorkflowNode → PublicRunStatus
  status_when_started prepare = planning
  status_when_started baseline_check = planning
  status_when_started inspect_and_plan = planning
  status_when_started approval = planning
  status_when_started _ = running

  -- `record.started_at or self._now()`
  unfoldable pub started_at_or_now : Option String → Engine String
  started_at_or_now none = now h
  started_at_or_now (some t) = if str_eq t "" then now h else pure t

  -- `_record_for_started_node`
  unfoldable pub record_for_started_node : RunRecord → WorkflowNode → Engine RunRecord
  unfolding status_when_started started_at_or_now
  record_for_started_node r node = do
    started ← started_at_or_now r.started_at
    updated_record (record r {
      status = status_when_started node;
      current_node = some node;
      started_at = some started;
    })

  -- A save under the node's own key, of a record that is updated and stamped first.
  unfoldable pub save_for_node :
      WorkflowSnapshot
      → WorkflowNode
      → ℕ
      → CheckpointPhase
      → CheckpointResult
      → RunRecord
      → Option WorkflowNode
      → Engine WorkflowSnapshot
  save_for_node t node attempt phase result updated next_node = do
    created ← now h
    save_checkpoint h t (record {
      node = node;
      attempt = attempt;
      phase = phase;
      idempotency_key = idempotency_key t.run.run_id node attempt;
      result = result;
      run = updated;
      next_node = next_node;
      created_at = created;
    })
