-- ===== src/Errors.antt =====
-- The exceptions of src/repo_agent/workflow.py, checkpoints.py, persistence.py, service.py,
-- policy.py and patches.py, and the methods that may raise them: an action keeps the state that it
-- reached when it raises. An exception has its `str` with it.
use agent_projects.Prelude.{String, Bool, true, false, if◌then◌else◌, Option, none, some}

-- The class of an exception; `other` is one that the code of a callee raises, and `interruption` a
-- BaseException that is no Exception, as KeyboardInterrupt.
pub data ErrorKind : Type 0 where
  workflow_error run_not_found duplicate_run invalid_transition : ErrorKind
  concurrent_update run_busy store_closed : ErrorKind
  value_error validation_error type_error graph_recursion : ErrorKind
  queue_full repository_not_allowed runtime_error : ErrorKind
  repository_path_error patch_validation_error : ErrorKind
  run_conflict invalid_run_transition api_error : ErrorKind
  other : String → ErrorKind
  interruption : String → ErrorKind

-- `type(exc).__name__`
unfoldable pub type_name : ErrorKind → String
type_name workflow_error = "WorkflowError"
type_name run_not_found = "RunNotFoundError"
type_name duplicate_run = "DuplicateRunError"
type_name invalid_transition = "InvalidTransitionError"
type_name concurrent_update = "ConcurrentUpdateError"
type_name run_busy = "RunBusyError"
type_name store_closed = "CheckpointStoreClosedError"
type_name value_error = "ValueError"
type_name validation_error = "ValidationError"
type_name type_error = "TypeError"
type_name graph_recursion = "GraphRecursionError"
type_name queue_full = "QueueFullError"
type_name repository_not_allowed = "RepositoryNotAllowedError"
type_name runtime_error = "RuntimeError"
type_name repository_path_error = "RepositoryPathError"
type_name patch_validation_error = "PatchValidationError"
type_name run_conflict = "RunConflictError"
type_name invalid_run_transition = "InvalidRunTransitionError"
type_name api_error = "ApiError"
type_name (other name) = name
type_name (interruption name) = name

-- Whether `except Exception` catches it.
unfoldable pub is_exception : ErrorKind → Bool
is_exception (interruption name) = false
is_exception _ = true

pub record Exc : Type 0 where
  pub kind : ErrorKind
  pub message : String

pub data Result {ℓ} (A : Type ℓ) : Type ℓ where
  ok : A → Result A
  err : Exc → Result A

-- A method over the mutable state `S`.
abbrev pub Exec {ℓ} : Type ℓ → Type ℓ → Type ℓ
Exec S A = S → Result A × S

module _ {ℓ} {S A : Type ℓ} where
  unfoldable pub pure : A → Exec S A
  pure a s = (ok a, s)

  unfoldable pub throw : Exc → Exec S A
  throw e s = (err e, s)

  unfoldable pub raise : ErrorKind → String → Exec S A
  unfolding throw
  raise k m = throw (record { kind = k; message = m })

  unfoldable pub gets : (S → A) → Exec S A
  gets f s = (ok (f s), s)

  unfoldable pub handle : Result A → (Exc → Exec S A) → Exec S A
  handle (ok a) h s = (ok a, s)
  handle (err e) h s = h e s

  -- `try: m  except BaseException as exc: h(exc)`
  unfoldable pub try_except : Exec S A → (Exc → Exec S A) → Exec S A
  unfolding handle
  try_except m h s = let (r, s') = m s in handle r h s'

  -- `try: m  except Exception as exc: h(exc)`
  unfoldable pub try_exception : Exec S A → (Exc → Exec S A) → Exec S A
  unfolding try_except is_exception throw
  try_exception m h = try_except m λ e. if is_exception e.kind then h e else throw e

module _ {ℓ} {S A B : Type ℓ} where
  unfoldable pub proceed : Result A → (A → Exec S B) → Exec S B
  proceed (ok a) f s = f a s
  proceed (err e) f s = (err e, s)

  infixl 10 ◌>>=◌ ◌>>◌
  unfoldable pub ◌>>=◌ : Exec S A → (A → Exec S B) → Exec S B
  unfolding proceed pure throw raise gets
  ◌>>=◌ m f s = let (r, s') = m s in proceed r f s'

  abbrev pub ◌>>◌ : Exec S A → Exec S B → Exec S B
  m >> n = m >>= λ _. n

-- Going on with the value of a call that may raise.
unfoldable pub and_then {ℓ} : {A B : Type ℓ} → Result A → (A → Result B) → Result B
and_then (ok a) f = f a
and_then (err e) f = err e

-- The class of what an action raised.
abbrev pub error_kind {ℓ} : {A : Type ℓ} → Result A → Option ErrorKind
error_kind (ok a) = none
error_kind (err e) = some e.kind
