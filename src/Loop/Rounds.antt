-- ===== src/Loop/Rounds.antt =====
-- The agent loop of src/repo_agent/loop.py ends: its steps, its results and its verdict.
use agent_projects.Prelude.{
  ℕ, zero, suc, ◌+◌, ◌≤◌, ◌<◌, String, ◌≡◌, ◌⊎◌, inl, inr, refl, true, false, Option, none, some,
  Bool, List, [], ◌∷◌, ◌++◌, all, length, length-append, ◌==◌, arith, str_len, strip, Bool-cases,
}
use agent_projects.Loop.Orderly.{IsOrderly, is_repeated_ok, checked_ok, revision_ok}
use agent_projects.Errors.{Result, Exec, Exc, ok, err, is_exception, proceed}
use agent_projects.Loop.{
  completed, completed_with_errors, max_steps, repeated_call, provider_error, ToolCall, ToolResult,
  Decision, final_answer, tool_call, unsupported_decision, RunResult, Provider, Executor, Arguments,
  Repr, turn, execute, workspace_revision, is_repeated, Step, stop, go_on, run_result, answered,
  next, failed_result, blocked, rounds, run, raises, blocked_or, with_revision,
}

-- What a result says of itself.
pub data HasVerdict (r : RunResult) : Type 0 where
  succeeded : r.status ≡ completed → all (λ t. t.ok) r.tool_results ≡ true → HasVerdict r
  with_errors :
      r.status ≡ completed_with_errors → all (λ t. t.ok) r.tool_results ≡ false → HasVerdict r
  repeated : r.status ≡ repeated_call → HasVerdict r
  failed : r.status ≡ provider_error → HasVerdict r
  exhausted : r.status ≡ max_steps → HasVerdict r

-- A result of the step `step` with `n` results of tools, or one more.
pub record IsResult (step n : ℕ) (r : RunResult) : Type 0 where
  pub numbered : r.steps ≡ step
  pub few : length r.tool_results ≤ suc n
  pub verdict : HasVerdict r

StopsWell : {A : Type 0} → ℕ → ℕ → Step A → Type 0
StopsWell step n (stop r) = IsResult step n r
StopsWell step n (raises e) = ⊥
StopsWell step n (go_on revision call) = Unit

module _ {A : Type 0} (args : Arguments A) (task : String) (step : ℕ)
    (results : List ToolResult) where
  answered_verdict :
      (content : Option String)
      → IsResult step (length results) (answered args task step results content)
  unfolding answered run_result
  answered_verdict none = record { numbered = refl; few = omega arith; verdict = failed refl }
  answered_verdict (some content) = elim (Bool-cases (str_len (strip content) == 0)) [
    | inl blank ↦ rw blank (record { numbered = refl; few = omega arith; verdict = failed refl })
    | inr text ↦ elim (Bool-cases (all (λ t. t.ok) results)) [
      | inl good ↦
          rw (text, good)
            (record { numbered = refl; few = omega arith; verdict = succeeded refl good })
      | inr bad ↦
          rw (text, bad)
            (record { numbered = refl; few = omega arith; verdict = with_errors refl bad })
    ]
  ]

  blocked_stop :
      (revision : ℕ) (call : ToolCall A) (b : Bool)
      → StopsWell step (length results) (blocked_or args task step results revision call (ok b))
  unfolding blocked_or run_result StopsWell
  blocked_stop revision call true = record {
    numbered = refl;
    few = omega (arith, length-append results (failed_result call blocked ∷ []));
    verdict = repeated refl;
  }
  blocked_stop revision call false = tt

  next_stop :
      (previous : List (ℕ × ToolCall A)) (revision : Result ℕ) (n : ℕ) (d : Result (Decision A))
      → revision ≡ ok n
      → ((call : ToolCall A) → (b : Bool) × (is_repeated args previous n call ≡ ok b))
      → ((e : Exc) → d ≡ err e → is_exception e.kind ≡ true)
      → StopsWell step (length results) (next args task step results previous revision d)
  unfolding next run_result StopsWell with_revision
  next_stop previous revision n (err e) read compared caught =
      rw (caught e refl) (record { numbered = refl; few = omega arith; verdict = failed refl })
  next_stop previous revision n (ok (final_answer content)) read compared caught =
      answered_verdict content
  next_stop previous revision n (ok (unsupported_decision type)) read compared caught = record {
    numbered = refl;
    few = omega arith;
    verdict = failed refl;
  }
  next_stop previous revision n (ok (tool_call call)) read compared caught =
      let (b, known) = compared call in rw read (rw known (blocked_stop n call b))

-- The result of a run whose next step is `step`, of `bound` in all.
pub record IsFinished (bound step : ℕ) (r : RunResult) : Type 0 where
  pub started : (step ≤ r.steps) ⊎ (bound ≤ r.steps)
  pub bounded : r.steps ≤ bound
  pub one_each : length r.tool_results ≤ r.steps
  pub judged : HasVerdict r

-- An outcome that is a result, and what that is.
Returns : ℕ → ℕ → Result RunResult → Type 0
Returns bound step (ok r) = IsFinished bound step r
Returns bound step (err e) = ⊥

finish_step :
    {A S : Type 0} (bound step n : ℕ)
    → suc n ≤ step
    → (s : S) (rest : ℕ → ToolCall A → Result RunResult × S) (st : Step A) → StopsWell step n st
    → step ≤ bound
    → ((revision : ℕ) (call : ToolCall A) → Returns bound step (rest revision call).0)
    → Returns bound step
        (elim st as (λ _. Result RunResult × S) [
          | stop r ↦ (ok r, s)
          | raises e ↦ (err e, s)
          | go_on revision call ↦ rest revision call
        ]).0
unfolding StopsWell Returns
finish_step bound step n few s rest (stop r) well within continue =
    let numbered = well.numbered in
    let few_results = well.few in
    record {
      started = inl (omega (arith, numbered));
      bounded = omega (arith, numbered);
      one_each = omega (arith, numbered, few_results);
      judged = well.verdict;
    }
finish_step bound step n few s rest (raises e) well within continue = absurd well
finish_step bound step n few s rest (go_on revision call) well within continue =
    continue revision call

Returns-earlier :
    (bound step : ℕ) (r : Result RunResult)
    → step ≤ bound
    → Returns bound (suc step) r
    → Returns bound step r
unfolding Returns
Returns-earlier bound step (ok r) within later =
    let started = later.started in
    record {
      started = ground (arith, started);
      bounded = later.bounded;
      one_each = later.one_each;
      judged = later.judged;
    }
Returns-earlier bound step (err e) within later = later

module _ {A S : Type 0} (args : Arguments A) (repr : Repr) (provider : Provider A S)
    (executor : Executor A S) (bound : ℕ) (task : String)
    (orderly : IsOrderly args provider executor task) where
  after_execute :
      (step : ℕ) (call : ToolCall A) (s : S) (f : ToolResult → Exec S RunResult)
      → ((t : ToolResult) (s : S) → Returns bound step (f t s).0)
      → Returns bound step
          (proceed (execute repr executor call s).0 f (execute repr executor call s).1).0
  unfolding execute proceed
  after_execute step call s f later =
      let (t, is_ok) = checked_ok repr call (executor.execute call s).0 (orderly.executes call s) in
      rw is_ok (later t (executor.execute call s).1)

  rounds_finish :
      (left step : ℕ) (results : List ToolResult) (previous : List (ℕ × ToolCall A)) (s : S)
      → left + step ≡ suc bound
      → suc (length results) ≤ step
      → Returns bound step
          (rounds args repr provider executor bound task left step results previous s).0
  unfolding rounds run_result Returns
  rounds_finish zero step results previous s total few = record {
    started = inr (omega arith);
    bounded = omega arith;
    one_each = omega arith;
    judged = exhausted refl;
  }
  rounds_finish (suc left) step results previous s total few =
      let (decided, s1) = turn provider task results s in
      let (revision, read) = revision_ok executor s1 (orderly.revises s1) in
      finish_step bound step (length results) few s1 _
        (next args task step results previous (workspace_revision executor s1) decided)
        (next_stop args task step results previous (workspace_revision executor s1) revision decided
          read (λ call. is_repeated_ok args orderly.compares orderly.prints previous revision call)
          (λ e raised. orderly.turns results s e raised))
        (omega (arith, total))
        (λ n call. after_execute step call s1 _ λ result s2.
          Returns-earlier bound step
            (rounds args repr provider executor bound task left (suc step)
              (results ++ (result ∷ [])) (previous ++ ((n, call) ∷ [])) s2).0
            (omega (arith, total))
            (rounds_finish left (suc step) (results ++ (result ∷ [])) (previous ++ ((n, call) ∷ []))
              s2 (omega (arith, total)) (omega (arith, few, length-append results (result ∷ [])))))

result_of :
    (bound : ℕ) (o : Result RunResult)
    → Returns bound 1 o
    → (r : RunResult) × (o ≡ ok r) × IsFinished bound 1 r
unfolding Returns
result_of bound (ok r) finished = (r, refl, finished)
result_of bound (err e) finished = absurd finished

-- Every orderly run ends with a verdict: for a positive number of steps, if the turns of the
-- provider and the calls of the executor raise at most Exceptions, and `workspace_revision` can be
-- read and the arguments compared, then `run` raises nothing, whatever else the provider and the
-- executor do, and returns a result of at least one and at most `max_steps` steps, with at most one
-- tool result for each step. It is `completed` only if every tool result is ok and
-- `completed_with_errors` only if one is not.
pub run_finishes :
    {A S : Type 0} (args : Arguments A) (repr : Repr) (provider : Provider A S)
    (executor : Executor A S) (bound : ℕ) (task : String) (s : S)
    → IsOrderly args provider executor task
    → 0 < bound
    → (r : RunResult) × ((run args repr provider executor bound task s).0 ≡ ok r)
      × (1 ≤ r.steps)
      × (r.steps ≤ bound)
      × (length r.tool_results ≤ r.steps)
      × HasVerdict r
unfolding run
run_finishes args repr provider executor zero task s orderly positive =
    absurd (omega (arith, positive))
run_finishes args repr provider executor (suc bound) task s orderly positive =
    let (r, returned, finished) = result_of (suc bound) _ (
      rounds_finish args repr provider executor (suc bound) task orderly (suc bound) 1 [] [] s
        (omega arith) (omega arith)) in
    let nonzero : (suc bound == 0) ≡ false = ground arith in
    let started = finished.started in
    (
      r,
      rw nonzero returned,
      ground (arith, started),
      finished.bounded,
      finished.one_each,
      finished.judged,
    )
