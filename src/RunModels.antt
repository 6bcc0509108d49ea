-- ===== src/RunModels.antt =====
-- src/repo_agent/run_models.py: the records that the workflow, its store and the service share.
-- Texts are `String`; times are the texts that the clock returns.
pub mod Plans
use agent_projects.Prelude.{
  ℕ, String, ◌≡◌, ◌↔◌, subst, Bool, true, false, Option, List, arith, ◌==◌, ◌||◌, refl,
}

pub data PublicRunStatus : Type 0 where
  queued planning awaiting_approval running interrupted : PublicRunStatus
  succeeded unverified failed cancelled policy_denied rejected : PublicRunStatus

pub data WorkflowNode : Type 0 where
  prepare baseline_check inspect_and_plan approval implement : WorkflowNode
  verify repair review review_repair finalize : WorkflowNode

-- `status in TERMINAL_STATUSES`
abbrev pub is_terminal : PublicRunStatus → Bool
is_terminal succeeded = true
is_terminal unverified = true
is_terminal failed = true
is_terminal cancelled = true
is_terminal policy_denied = true
is_terminal rejected = true
is_terminal _ = false

status_index : PublicRunStatus → ℕ
status_index queued = 0
status_index planning = 1
status_index awaiting_approval = 2
status_index running = 3
status_index interrupted = 4
status_index succeeded = 5
status_index unverified = 6
status_index failed = 7
status_index cancelled = 8
status_index policy_denied = 9
status_index rejected = 10

-- Equality of two statuses.
unfoldable pub status_eq : PublicRunStatus → PublicRunStatus → Bool
unfolding status_index
status_eq a b = status_index a == status_index b

pub status_eq_eq : (a b : PublicRunStatus) → status_eq a b ≡ true → a ≡ b
unfolding status_eq
status_eq_eq a b h = ground arith

-- A run in flight has not ended.
pub inflight_lem :
    (st : PublicRunStatus)
    → (status_eq st queued || (status_eq st planning || (status_eq st running || false))) ≡ true
    → is_terminal st ≡ false
unfolding status_eq status_index
inflight_lem queued h = refl
inflight_lem planning h = refl
inflight_lem awaiting_approval h = refl
inflight_lem running h = refl
inflight_lem interrupted h = refl
inflight_lem succeeded h = ground (arith, h)
inflight_lem unverified h = ground (arith, h)
inflight_lem failed h = ground (arith, h)
inflight_lem cancelled h = ground (arith, h)
inflight_lem policy_denied h = ground (arith, h)
inflight_lem rejected h = ground (arith, h)

pub record ChangePlan : Type 0 where
  pub goal : String
  pub files : List String
  pub steps : List String
  pub checks : List String
  pub risks : List String

pub record CheckSummary : Type 0 where
  pub attempt : ℕ
  pub check_id : Option String
  pub status : String
  pub passed : Bool
  pub duration_ms : ℕ
  pub log_artifact : Option String
  pub error : Option String

pub record RunMetrics : Type 0 where
  pub node_count : ℕ
  pub tool_calls : ℕ
  pub repair_attempts : ℕ
  pub review_repairs : ℕ
  pub duration_ms : ℕ
  pub tokens : ℕ

pub record RunRecord : Type 0 where
  pub run_id : String
  pub repo_path : String
  pub task : String
  pub base_ref : Option String
  pub base_commit : Option String
  pub status : PublicRunStatus
  pub current_node : Option WorkflowNode
  pub plan : Option ChangePlan
  pub checks : List CheckSummary
  pub metrics : RunMetrics
  pub error : Option String
  pub summary : Option String
  pub approval_reason : Option String
  pub auto_approve : Bool
  pub allow_remote_model : Bool
  pub cancel_requested : Bool
  pub created_at : String
  pub updated_at : String
  pub started_at : Option String
  pub finished_at : Option String

-- The name of a node, as the code writes it in keys and messages.
unfoldable pub node_name : WorkflowNode → String
node_name prepare = "prepare"
node_name baseline_check = "baseline_check"
node_name inspect_and_plan = "inspect_and_plan"
node_name approval = "approval"
node_name implement = "implement"
node_name verify = "verify"
node_name repair = "repair"
node_name review = "review"
node_name review_repair = "review_repair"
node_name finalize = "finalize"

node_index : WorkflowNode → ℕ
node_index prepare = 0
node_index baseline_check = 1
node_index inspect_and_plan = 2
node_index approval = 3
node_index implement = 4
node_index verify = 5
node_index repair = 6
node_index review = 7
node_index review_repair = 8
node_index finalize = 9

-- Equality of two node names.
unfoldable pub node_eq : WorkflowNode → WorkflowNode → Bool
unfolding node_index
node_eq a b = node_index a == node_index b

pub node_eq_iff : (a b : WorkflowNode) → (node_eq a b ≡ true) ↔ (a ≡ b)
unfolding node_eq
node_eq_iff a b = (λ h. sound a b h, λ p. subst (λ x. node_eq a x ≡ true) p (self a))
  where
    self : (a : WorkflowNode) → node_eq a a ≡ true
    self a = ground arith

    sound : (a b : WorkflowNode) → node_eq a b ≡ true → a ≡ b
    sound a b h = ground arith

-- The bounds that `RunMetrics` and `CheckSummary` declare.
abbrev pub max_declared_repairs : ℕ
max_declared_repairs = 2

abbrev pub max_declared_review_repairs : ℕ
max_declared_review_repairs = 1

abbrev pub max_declared_attempt : ℕ
max_declared_attempt = 4
