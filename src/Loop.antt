-- ===== src/Loop.antt =====
-- The agent loop of src/repo_agent/loop.py and its data, src/repo_agent/models.py. The provider
-- and the tool executor are objects of the caller's, given as records over their joint state.
use agent_projects.Prelude.{
  ℕ, zero, suc, ◌+◌, ◌-◌, String, Bool, true, false, not, ◌&&◌, ◌||◌, Option, none, some, List, [],
  ◌∷◌, ◌++◌, if◌then◌else◌, any, all, or_default, strip, decimal, fmt, str_len, str_eq, ltb, ◌==◌,
}
use agent_projects.Errors.{
  Exc, type_name, is_exception, and_then, Result, ok, err, Exec, pure, raise, gets, handle,
  try_except, proceed, ◌>>=◌, ◌>>◌, runtime_error, value_error,
}
pub mod Orderly
pub mod Rounds
pub mod Logging
pub mod Calls
pub mod Ensuring
pub mod Budget

pub data RunStatus : Type 0 where
  completed completed_with_errors max_steps repeated_call provider_error : RunStatus

-- `arguments` maps names to any objects; `A` is the type of such mappings.
pub record ToolCall (A : Type 0) : Type 0 where
  pub id : String
  pub name : String
  pub arguments : A

pub record ToolResult : Type 0 where
  pub call_id : String
  pub name : String
  pub ok : Bool
  pub output : String
  pub error : Option String
  pub exit_code : Option ℕ
  pub truncated : Bool

-- What a provider returns: a FinalAnswer, whose content is `none` where it is no text, a
-- ToolCall, or an object of another type, known by the type's name.
pub data Decision (A : Type 0) : Type 0 where
  final_answer : Option String → Decision A
  tool_call : ToolCall A → Decision A
  unsupported_decision : String → Decision A

-- What an executor returns: a ToolResult, or an object of another type.
pub data Returned : Type 0 where
  tool_result : ToolResult → Returned
  unsupported_result : String → Returned

-- The attributes of `provider.usage`, each `none` where it is absent or of a wrong type.
pub record TokenUsage : Type 0 where
  pub response_count : Option ℕ
  pub complete : Option Bool
  pub total_tokens : Option (Option ℕ)

-- `candidate` is left at its default by the loop, and so by this model.
pub record RunResult : Type 0 where
  pub task : String
  pub status : RunStatus
  pub answer : Option String
  pub steps : ℕ
  pub tool_results : List ToolResult

-- `usage` is `none` where reading it raises an Exception; `set_response_token_budget` is `none` where
-- the provider has no such method, and looking for it raises nothing.
pub record Provider (A S : Type 0) : Type 0 where
  pub next_step : String → List ToolResult → Exec S (Decision A)
  pub set_response_token_budget : Option (ℕ → Exec S ℕ)
  pub usage : S → Option TokenUsage

-- `workspace_revision` is `none` where the attribute is absent or no natural number. Reading it may
-- raise, and changes nothing.
pub record Executor (A S : Type 0) : Type 0 where
  pub execute : ToolCall A → Exec S Returned
  pub workspace_revision : S → Result (Option ℕ)

-- Python's `==` on the arguments, and their `repr`; both may raise.
pub record Arguments (A : Type 0) : Type 0 where
  pub equal : A → A → Result Bool
  pub repr : A → Result String

-- `repr` of a text, which `_execute` puts in a message.
abbrev pub Repr : Type 0
Repr = String → String

abbrev pub max_response_token_budget : ℕ
max_response_token_budget = 30000

-- `_exception_detail`
unfoldable pub exception_detail : Exc → String
exception_detail e =
    let detail = strip e.message in
    if str_len detail == 0 then type_name e.kind else fmt (type_name e.kind ∷ ": " ∷ detail ∷ [])

module _ {A : Type 0} where
  -- A result that the loop makes for a call that has none.
  unfoldable pub failed_result : ToolCall A → String → ToolResult
  failed_result call why = record {
    call_id = call.id;
    name = call.name;
    ok = false;
    output = "";
    error = some why;
    exit_code = none;
    truncated = false;
  }

  -- `_same_invocation` on the arguments: by `==`, and by `repr` where that raises an Exception.
  unfoldable pub same_arguments : Arguments A → A → A → Result Bool → Result Bool
  same_arguments args left right (ok same) = ok same
  same_arguments args left right (err e) =
      if is_exception e.kind
      then and_then (args.repr left) (λ a. and_then (args.repr right) (λ b. ok (str_eq a b)))
      else err e

  -- `_same_invocation`
  unfoldable pub same_invocation : Arguments A → ToolCall A → ToolCall A → Result Bool
  unfolding same_arguments
  same_invocation args left right =
      if str_eq left.name right.name
      then same_arguments args left.arguments right.arguments
          (args.equal left.arguments right.arguments)
      else ok false

module _ {S : Type 0} where
  unfoldable pub usage_fields : Option TokenUsage → Exec S (ℕ × Bool × Option ℕ)
  usage_fields none = raise runtime_error "model token usage is unavailable"
  usage_fields (some u) = elim u.response_count [
    | none ↦ raise runtime_error "model token usage is unavailable"
    | some count ↦ elim u.complete [
      | none ↦ raise runtime_error "model token usage is unavailable"
      | some complete ↦ elim u.total_tokens [
        | none ↦ raise runtime_error "model token usage is unavailable"
        | some total ↦ pure (count, complete, total)
      ]
    ]
  ]

  -- The tokens that are left of the budget.
  unfoldable pub remaining_budget : ℕ → Bool → Option ℕ → Exec S ℕ
  remaining_budget zero complete total = pure max_response_token_budget
  remaining_budget (suc n) true (some total) = pure (max_response_token_budget - total)
  remaining_budget (suc n) true none = raise runtime_error "model token usage is incomplete"
  remaining_budget (suc n) false total = raise runtime_error "model token usage is incomplete"

  unfoldable pub check_usage : ℕ → Bool → Option ℕ → Exec S ℕ
  check_usage (suc n) true (some total) =
      if ltb max_response_token_budget total
      then raise runtime_error (
          fmt ("model token budget exceeded " ∷ decimal max_response_token_budget ∷ " tokens" ∷ []))
      else pure total
  check_usage zero complete total = raise runtime_error "model token usage is incomplete"
  check_usage (suc n) false total = raise runtime_error "model token usage is incomplete"
  check_usage (suc n) true none = raise runtime_error "model token usage is incomplete"

module _ {A : Type 0} where
  -- The checks of `_execute` on what the executor returned.
  unfoldable pub checked : Repr → ToolCall A → Result Returned → Result ToolResult
  checked repr call (err e) =
      if is_exception e.kind
      then ok (failed_result call (fmt ("Tool executor failed: " ∷ exception_detail e ∷ [])))
      else err e
  checked repr call (ok (unsupported_result type)) =
      ok (failed_result call (fmt ("Tool executor returned an unsupported result: " ∷ type ∷ [])))
  checked repr call (ok (tool_result result)) = ok (
      if not (str_eq result.call_id call.id) || not (str_eq result.name call.name)
      then failed_result call (
          fmt (
            "Tool executor returned a result for a different call (call_id="
            ∷ repr result.call_id
            ∷ ", name="
            ∷ repr result.name
            ∷ ")"
            ∷ []))
      else result)

module _ {A S : Type 0} where
  -- `_workspace_revision`
  unfoldable pub workspace_revision : Executor A S → S → Result ℕ
  unfolding and_then
  workspace_revision executor s =
      and_then (executor.workspace_revision s) λ revision. ok (or_default revision 0)

  -- `_provider_token_usage`
  unfoldable pub provider_token_usage : Provider A S → Exec S (ℕ × Bool × Option ℕ)
  provider_token_usage provider s = usage_fields (provider.usage s) s

  unfoldable pub budget_with : Provider A S → (ℕ → Exec S ℕ) → Exec S Bool
  budget_with provider setter = do
    (count, complete, total) ← provider_token_usage provider
    remaining ← remaining_budget count complete total
    if remaining == 0
        then raise runtime_error (
            fmt (
              "model token budget exhausted " ∷ decimal max_response_token_budget ∷ " tokens" ∷ []))
        else setter remaining >> pure true

  -- `_configure_provider_token_budget`
  unfoldable pub configure_provider_token_budget : Provider A S → Exec S Bool
  configure_provider_token_budget provider = elim provider.set_response_token_budget [
    | none ↦ pure false
    | some setter ↦ budget_with provider setter
  ]

  -- `_enforce_provider_token_usage`
  unfoldable pub enforce_provider_token_usage : Provider A S → Exec S ℕ
  enforce_provider_token_usage provider = do
    (count, complete, total) ← provider_token_usage provider
    check_usage count complete total

  -- The body of the `try` of `run`.
  unfoldable pub turn : Provider A S → String → List ToolResult → Exec S (Decision A)
  turn provider task results = do
    budgeted ← configure_provider_token_budget provider
    decision ← provider.next_step task results
    if budgeted then enforce_provider_token_usage provider >> pure decision else pure decision

  -- `_execute`
  unfoldable pub execute : Repr → Executor A S → ToolCall A → Exec S ToolResult
  execute repr executor call s = let (r, s') = executor.execute call s in (checked repr call r, s')

-- What a step comes to: the end of the run, an exception that is not caught, or a call to execute
-- at a workspace revision.
pub data Step (A : Type 0) : Type 0 where
  stop : RunResult → Step A
  raises : Exc → Step A
  go_on : ℕ → ToolCall A → Step A

unfoldable pub run_result : String → RunStatus → String → ℕ → List ToolResult → RunResult
run_result task status answer steps results = record {
  task = task;
  status = status;
  answer = some answer;
  steps = steps;
  tool_results = results;
}

abbrev pub blocked : String
blocked = "Repeated tool call blocked: identical name and arguments"

-- `b or later`
abbrev pub or_later : Result Bool → Result Bool → Result Bool
or_later (ok true) later = ok true
or_later (ok false) later = later
or_later (err e) later = err e

-- The `any` of `run`.
abbrev pub is_repeated :
    {A : Type 0} → Arguments A → List (ℕ × ToolCall A) → ℕ → ToolCall A → Result Bool
is_repeated args [] revision call = ok false
is_repeated args ((r, prior) ∷ previous) revision call =
    let rest = is_repeated args previous revision call in
    if r == revision then or_later (same_invocation args call prior) rest else rest

module _ {A : Type 0} (args : Arguments A) (task : String) (step : ℕ)
    (results : List ToolResult) where
  unfoldable pub answered : Option String → RunResult
  answered none =
      run_result task provider_error "Provider returned an empty or non-text final answer" step
        results
  answered (some content) =
      if str_len (strip content) == 0
      then run_result task provider_error "Provider returned an empty or non-text final answer" step
          results
      else run_result task (if all (λ r. r.ok) results then completed else completed_with_errors)
          content step results

  -- The end of a step with a call, by whether the call is repeated.
  unfoldable pub blocked_or : ℕ → ToolCall A → Result Bool → Step A
  blocked_or revision call (ok true) =
      stop
        (run_result task repeated_call blocked step (results ++ (failed_result call blocked ∷ [])))
  blocked_or revision call (ok false) = go_on revision call
  blocked_or revision call (err e) = raises e

  unfoldable pub with_revision : List (ℕ × ToolCall A) → ToolCall A → Result ℕ → Step A
  unfolding blocked_or
  with_revision previous call (ok revision) =
      blocked_or revision call (is_repeated args previous revision call)
  with_revision previous call (err e) = raises e

  -- The branches of a step, by the provider's decision and the workspace revision, which is read
  -- for a call only.
  unfoldable pub next : List (ℕ × ToolCall A) → Result ℕ → Result (Decision A) → Step A
  unfolding with_revision
  next previous revision (err e) =
      if is_exception e.kind
      then stop (
          run_result task provider_error (fmt ("Provider failed: " ∷ exception_detail e ∷ [])) step
            results)
      else raises e
  next previous revision (ok (final_answer content)) = stop (answered content)
  next previous revision (ok (unsupported_decision type)) = stop (
      run_result task provider_error
        (fmt ("Provider returned an unsupported decision: " ∷ type ∷ [])) step results)
  next previous revision (ok (tool_call call)) = with_revision previous call revision

module _ {A S : Type 0} (args : Arguments A) (repr : Repr) (provider : Provider A S)
    (executor : Executor A S) (bound : ℕ) (task : String) where
  -- The `for` of `run`: `left` rounds remain of `max_steps`, and `step` is the next one's number.
  unfoldable pub rounds : ℕ → ℕ → List ToolResult → List (ℕ × ToolCall A) → Exec S RunResult
  rounds zero step results previous s = (
    ok (
        run_result task max_steps
          (fmt ("Maximum of " ∷ decimal bound ∷ " steps reached before a final answer" ∷ [])) bound
          results),
    s,
  )
  rounds (suc left) step results previous s =
      let (decided, s1) = turn provider task results s in
      let revision = workspace_revision executor s1 in
      elim (next args task step results previous revision decided) [
        | stop r ↦ (ok r, s1)
        | raises e ↦ (err e, s1)
        | go_on n call ↦
            let (executed, s2) = execute repr executor call s1 in
            proceed executed
              (λ result.
                rounds left (suc step) (results ++ (result ∷ [])) (previous ++ ((n, call) ∷ [])))
              s2
      ]

  -- `AgentLoop(provider, executor, max_steps).run(task)`
  unfoldable pub run : Exec S RunResult
  run s =
      if bound == 0
      then raise value_error "max_steps must be a positive integer" s
      else rounds bound 1 [] [] s
