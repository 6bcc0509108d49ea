-- ===== src/Engine/World.antt =====
-- What the engine of src/repo_agent/workflow.py is given, and the state that it changes.
use agent_projects.Prelude.{ℕ, suc, String, Bool, true, false, List, Option, none, some}
use agent_projects.Errors.{Exec, ok, pure, ◌>>=◌}
use agent_projects.RunModels.{ChangePlan}
use agent_projects.Outcomes.{
  NodeOutcome, VerificationOutcome, CheckpointResult, WorkflowSnapshot, OperationContext,
}
use agent_projects.Checkpoints
use agent_projects.Checkpoints.{Store, Save}

-- What comes from outside the repository's code.
pub record Host : Type 0 where
  -- the reading of the clock at its n-th use, and whole milliseconds between two readings
  pub now : ℕ → String
  pub wall_ms : String → String → ℕ
  -- the rounded milliseconds that an operation took, started at the n-th use of the clock
  pub operation_ms : ℕ → ℕ
  -- the length of `json.dumps`
  pub json_size : CheckpointResult → ℕ
  -- pydantic's `str_strip_whitespace`
  pub strip_whitespace : String → String

-- The adapters behind `WorkflowOperations`, each with pydantic's `model_validate` of its result.
-- While one runs, other writers may change the store: it returns the store that it leaves.
pub record Operations : Type 0 where
  pub prepare : OperationContext → Exec Store NodeOutcome
  pub baseline_check : OperationContext → Exec Store NodeOutcome
  pub inspect_and_plan : OperationContext → Exec Store ChangePlan
  pub implement : OperationContext → Exec Store NodeOutcome
  pub verify : OperationContext → Exec Store VerificationOutcome
  pub repair : OperationContext → Exec Store NodeOutcome
  pub review : OperationContext → Exec Store NodeOutcome
  pub review_repair : OperationContext → Exec Store NodeOutcome
  pub finalize : OperationContext → Exec Store NodeOutcome

pub record World : Type 0 where
  pub store : Store
  pub active_runs : List String
  pub ticks : ℕ

abbrev pub Engine : Type 0 → Type 0
Engine A = Exec World A

unfoldable pub on_store : {A : Type 0} → Exec Store A → Engine A
on_store m w = let (r, s) = m w.store in (r, record w { store = s })

module _ (h : Host) where
  -- `self._now()`
  unfoldable pub now : Engine String
  now w = (ok (h.now w.ticks), record w { ticks = suc w.ticks })

  unfoldable pub now_if : Bool → Engine (Option String)
  unfolding now
  now_if true = do t ← now; pure (some t)
  now_if false = pure none

  unfoldable pub load_run : String → Engine WorkflowSnapshot
  unfolding on_store
  load_run run_id = on_store (Checkpoints.load_run run_id)

  unfoldable pub save_checkpoint : WorkflowSnapshot → Save → Engine WorkflowSnapshot
  unfolding on_store
  save_checkpoint t a = on_store (Checkpoints.save_checkpoint h.json_size t a)
