-- ===== src/Outcomes.antt =====
-- The value types of src/repo_agent/workflow.py: what the operations return, what a checkpoint
-- holds, and the snapshot of a run with its private cursor.
use agent_projects.Prelude.{
  ℕ, String, Bool, Option, none, some, List, [], ◌∷◌, str_eq, ◌==◌, if◌then◌else◌,
}
use agent_projects.RunModels.{WorkflowNode, ChangePlan, CheckSummary, RunRecord}

-- The values of the small objects in an event's detail; `unread` is any but a text, a Boolean and
-- a natural number.
pub data Leaf : Type 0 where
  word : String → Leaf
  flag : Bool → Leaf
  number : ℕ → Leaf
  unread : Leaf

-- A value of a JSON detail, as far as the code looks into it. `negative n` is the integer
-- -(n + 1), `object` an object, and `nested` a list or a fraction.
pub data Value : Type 0 where
  null nested : Value
  boolean : Bool → Value
  integer negative : ℕ → Value
  text : String → Value
  object : List (String × Leaf) → Value

-- A JSON object, its keys in order.
abbrev pub Detail : Type 0
Detail = List (String × Value)

-- `detail.get(key)`
unfoldable pub detail_get : Detail → String → Option Value
detail_get [] key = none
detail_get ((k, v) ∷ rest) key = if str_eq k key then some v else detail_get rest key

pub record NodeOutcome : Type 0 where
  pub ok : Bool
  pub summary : String
  pub error : Option String
  pub detail : Detail

pub record VerificationOutcome : Type 0 where
  pub ok : Bool
  pub status : String
  pub check_id : Option String
  pub duration_ms : ℕ
  pub log_artifact : Option String
  pub error : Option String
  pub detail : Detail

unfoldable pub as_check_summary : VerificationOutcome → ℕ → CheckSummary
as_check_summary v attempt = record {
  attempt = attempt;
  check_id = v.check_id;
  status = v.status;
  passed = v.ok;
  duration_ms = v.duration_ms;
  log_artifact = v.log_artifact;
  error = v.error;
}

-- What `_invoke` returns: which of the three it is depends on the node alone.
pub data RawResult : Type 0 where
  outcome : NodeOutcome → RawResult
  verification : VerificationOutcome → RawResult
  plan : ChangePlan → RawResult

pub data CheckpointPhase : Type 0 where
  started paused completed failed cancelled : CheckpointPhase

phase_index : CheckpointPhase → ℕ
phase_index started = 0
phase_index paused = 1
phase_index completed = 2
phase_index failed = 3
phase_index cancelled = 4

unfoldable pub phase_eq : CheckpointPhase → CheckpointPhase → Bool
unfolding phase_index
phase_eq a b = phase_index a == phase_index b

-- The JSON object in a checkpoint's `result` column, one constructor for each shape that the
-- engine writes. A number at the end is the key `duration_ms`.
pub data CheckpointResult : Type 0 where
  empty : CheckpointResult
  of_plan : ChangePlan → ℕ → CheckpointResult
  of_verification : VerificationOutcome → ℕ → CheckpointResult
  of_outcome : NodeOutcome → ℕ → CheckpointResult
  of_error : String → ℕ → CheckpointResult
  missing_node : String → CheckpointResult
  decision : Bool → Bool → Option String → CheckpointResult
  reason : Option String → CheckpointResult

pub record WorkflowCheckpoint : Type 0 where
  pub sequence : ℕ
  pub run_id : String
  pub node : WorkflowNode
  pub attempt : ℕ
  pub phase : CheckpointPhase
  pub idempotency_key : String
  pub result : CheckpointResult
  pub run : RunRecord
  pub created_at : String

pub record WorkflowSnapshot : Type 0 where
  pub run : RunRecord
  pub next_node : Option WorkflowNode
  pub version : ℕ

pub record OperationContext : Type 0 where
  pub run : RunRecord
  pub node : WorkflowNode
  pub attempt : ℕ
  pub idempotency_key : String
  pub previous_result : Option CheckpointResult
