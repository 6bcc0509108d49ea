-- ===== src/PublicEvents.antt =====
-- What src/repo_agent/event_safety.py lets through of a run's events, and the payloads that
-- src/repo_agent/api.py makes of them: `_public_event` and `_event_state`.
pub mod Timestamps
use agent_projects.Prelude.{
  ℕ, zero, suc, String, Bool, true, false, ◌||◌, ◌&&◌, Option, none, some, List, [], ◌∷◌, ◌++◌,
  if◌then◌else◌, str_eq, is_one_of,
}
use agent_projects.PublicEvents.Timestamps.{is_utc_timestamp}
use agent_projects.Outcomes.{Leaf, Value, Detail, detail_get}
use agent_projects.RunModels.{
  RunRecord, PublicRunStatus, awaiting_approval, interrupted, is_terminal, WorkflowNode, node_name,
}
use agent_projects.Service.Publishing.{status_name}

abbrev public_event_names : List String
public_event_names =
    "cancel_requested" ∷ "model_tool_summary" ∷ "node_completed" ∷ "plan_approved" ∷ "plan_rejected"
    ∷ "planning_tool_summary" ∷ "run_created" ∷ "run_resumed" ∷ "service_interrupted"
    ∷ "workflow_cancelled" ∷ "workflow_checkpoint" ∷ "workflow_event" ∷ "workflow_failed"
    ∷ "workflow_resumed" ∷ "workflow_started" ∷ "workflow_state_synchronized" ∷ "workflow_stopped"
    ∷ []

abbrev public_event_nodes : List String
public_event_nodes =
    "approval" ∷ "baseline_check" ∷ "finalize" ∷ "implement" ∷ "inspect_and_plan" ∷ "prepare"
    ∷ "repair" ∷ "review" ∷ "review_repair" ∷ "verify" ∷ []

abbrev public_event_phases : List String
public_event_phases = "implement" ∷ "planning" ∷ "repair" ∷ "review" ∷ []

unfoldable pub public_event_name : Option Value → String
public_event_name (some (Value.text value)) =
    if is_one_of value public_event_names then value else "workflow_event"
public_event_name _ = "workflow_event"

-- A text of those that are allowed, for `public_event_node` and `public_event_phase`.
unfoldable pub public_event_text : List String → Option Value → Option String
public_event_text allowed (some (Value.text value)) =
    if is_one_of value allowed then some value else none
public_event_text allowed _ = none

unfoldable pub public_event_timestamp : Option Value → Option String
public_event_timestamp (some (Value.text value)) =
    if is_utc_timestamp value then some value else none
public_event_timestamp _ = none

-- `payload[name] = value` if there is a value.
abbrev pub text_field : String → Option String → Detail
text_field name none = []
text_field name (some value) = (name, Value.text value) ∷ []

-- The same of a value that is an `int` and not negative, and of one that is a `bool`.
unfoldable pub count_field : String → Option Value → Detail
count_field name (some (Value.integer n)) = (name, Value.integer n) ∷ []
count_field name _ = []

unfoldable pub flag_field : String → Option Value → Detail
flag_field name (some (Value.boolean b)) = (name, Value.boolean b) ∷ []
flag_field name _ = []

unfoldable pub count_fields : List String → Detail → Detail
unfolding count_field
count_fields [] event = []
count_fields (name ∷ names) event =
    count_field name (detail_get event name) ++ count_fields names event

-- `value.get(name)` of a small object.
unfoldable pub leaf_get : List (String × Leaf) → String → Option Leaf
leaf_get [] key = none
leaf_get ((k, leaf) ∷ rest) key = if str_eq k key then some leaf else leaf_get rest key

unfoldable pub usage_count : String → Option Leaf → List (String × Leaf)
usage_count name (some (Leaf.number n)) = (name, Leaf.number n) ∷ []
usage_count name _ = []

unfoldable pub usage_counts : List String → List (String × Leaf) → List (String × Leaf)
unfolding usage_count leaf_get
usage_counts [] fields = []
usage_counts (name ∷ names) fields =
    usage_count name (leaf_get fields name) ++ usage_counts names fields

unfoldable pub usage_flag : String → Option Leaf → List (String × Leaf)
usage_flag name (some (Leaf.flag b)) = (name, Leaf.flag b) ∷ []
usage_flag name _ = []

unfoldable pub public_model_usage : Option Value → List (String × Leaf)
unfolding usage_counts usage_flag leaf_get
public_model_usage (some (Value.object fields)) =
    usage_counts
      ("response_count" ∷ "reported_response_count" ∷ "input_tokens" ∷ "cached_input_tokens"
        ∷ "output_tokens" ∷ "total_tokens" ∷ [])
      fields
    ++ usage_flag "complete" (leaf_get fields "complete")
public_model_usage _ = []

unfoldable pub usage_field : List (String × Leaf) → Detail
usage_field [] = []
usage_field (field ∷ fields) = ("model_usage", Value.object (field ∷ fields)) ∷ []

-- `_public_event` of an event whose `sequence` is a natural number.
unfoldable pub public_event : String → ℕ → Detail → Detail
unfolding public_event_name public_event_text public_event_timestamp count_fields flag_field
    public_model_usage usage_field
public_event run_id sequence event =
    ("run_id", Value.text run_id)
    ∷ ("sequence", Value.integer sequence)
    ∷ ("event", Value.text (public_event_name (detail_get event "event")))
    ∷ (text_field "node" (public_event_text public_event_nodes (detail_get event "node"))
        ++ (text_field "phase" (public_event_text public_event_phases (detail_get event "phase"))
            ++ (text_field "timestamp" (public_event_timestamp (detail_get event "timestamp"))
                ++ (count_fields
                      ("executed_tool_calls" ∷ "tool_calls" ∷ "tool_errors"
                        ∷ "parallel_tool_call_violations" ∷ "rejected_tool_call_violations"
                        ∷ "recovered_protocol_errors" ∷ [])
                      event
                    ++ (flag_field "request_not_started" (detail_get event "request_not_started")
                        ++ usage_field (public_model_usage (detail_get event "model_usage")))))))

-- `_event_state`
pub record EventState : Type 0 where
  pub run_id : String
  pub status : String
  pub cursor : ℕ
  pub reset : Bool
  pub node : Option String
  pub updated_at : Option String

abbrev node_text : Option WorkflowNode → Option Value
node_text none = some Value.null
node_text (some node) = some (Value.text (node_name node))

unfoldable pub event_state : RunRecord → ℕ → Bool → EventState
unfolding public_event_text public_event_timestamp
event_state run cursor reset = record {
  run_id = run.run_id;
  status = status_name run.status;
  cursor = cursor;
  reset = reset;
  node = public_event_text public_event_nodes (node_text run.current_node);
  updated_at = public_event_timestamp (some (Value.text run.updated_at));
}

-- `_event_stream_stopped`
unfoldable pub event_stream_stopped : PublicRunStatus → Bool
event_stream_stopped awaiting_approval = true
event_stream_stopped interrupted = true
event_stream_stopped status = is_terminal status
