-- ===== src/Loop/Calls.antt =====
-- The calls that the agent loop of src/repo_agent/loop.py lets an executor run.
use mathlib.Core.List.{append-nil, append_assoc}
use agent_projects.Prelude.{
  ◌==◌, ◌∙◌, ap, subst, ℕ, zero, suc, String, ◌≡◌, refl, Bool, true, false, ◌&&◌, List, [], ◌∷◌,
  ◌++◌, arith, sym, Bool-cases, inl, inr,
}
use agent_projects.Errors.{Result, Exec, ok, err, raise, proceed, is_exception}
use agent_projects.Loop.{
  ToolCall, ToolResult, Decision, final_answer, unsupported_decision, tool_call, RunResult,
  Provider, Executor, Arguments, Repr, is_repeated, turn, execute, workspace_revision, Step, stop,
  go_on, raises, next, blocked_or, with_revision, rounds, run,
}
use agent_projects.Loop.Logging.{
  beside_log, logging, Quiet-turn, CallLog, are_fresh, is_new, logged_revision,
}

split_fresh : (r : Result Bool) (c : Bool) → (is_new r && c) ≡ true → (r ≡ ok false) × (c ≡ true)
split_fresh (ok true) c both = ground arith
split_fresh (ok false) c both = (refl, both)
split_fresh (err e) c both = ground arith

module _ {A : Type 0} (args : Arguments A) where
  fresh_snoc :
      (seen log : CallLog A) (revision : ℕ) (call : ToolCall A)
      → are_fresh args seen log ≡ true
      → is_repeated args (seen ++ log) revision call ≡ ok false
      → are_fresh args seen (log ++ ((revision, call) ∷ [])) ≡ true
  fresh_snoc seen [] revision call fresh new =
      let unseen : is_repeated args seen revision call ≡ ok false =
        subst (λ l. is_repeated args l revision call ≡ ok false) (append-nil seen) new in
      rw unseen refl
  fresh_snoc seen ((n, c) ∷ log) revision call fresh new =
      let (first, rest) = split_fresh (is_repeated args seen n c) _ fresh in
      let new' : is_repeated args ((seen ++ ((n, c) ∷ [])) ++ log) revision call ≡ ok false =
        subst (λ l. is_repeated args l revision call ≡ ok false)
          (sym (append_assoc seen ((n, c) ∷ []) log)) new in
      rw first (fresh_snoc (seen ++ ((n, c) ∷ [])) log revision call rest new')

  blocked_fresh :
      (task : String) (step : ℕ) (results : List ToolResult) (revision n : ℕ) (c call : ToolCall A)
      (r : Result Bool) (p : ℕ → ToolCall A → Result Bool)
      → p revision c ≡ r
      → blocked_or args task step results revision c r ≡ go_on n call
      → p n call ≡ ok false
  unfolding blocked_or
  blocked_fresh task step results revision n c call (ok true) p is goes = ground arith
  blocked_fresh task step results revision n c call (err e) p is goes = ground arith
  blocked_fresh task step results revision n c call (ok false) p is goes =
      let (at, same) = go_on_inj revision n c call goes in
      subst (λ x. p n x ≡ ok false) same (subst (λ k. p k c ≡ ok false) at is)
    where
      go_on_inj : (a b : ℕ) (x y : ToolCall A) → go_on a x ≡ go_on b y → (a ≡ b) × (x ≡ y)
      go_on_inj a b x y e = (cc, cc)

  went_on :
      (task : String) (step : ℕ) (results : List ToolResult) (revision n : ℕ) (c call : ToolCall A)
      (r : Result Bool)
      → blocked_or args task step results revision c r ≡ go_on n call
      → revision ≡ n
  unfolding blocked_or
  went_on task step results revision n c call (ok true) goes = absurd (cc)
  went_on task step results revision n c call (err e) goes = absurd (cc)
  went_on task step results revision n c call (ok false) goes = cc

  -- A call that goes on is not repeated, and its revision is the one that was read.
  next_fresh :
      (task : String) (step : ℕ) (results : List ToolResult) (previous : CallLog A)
      (revision : Result ℕ) (d : Result (Decision A)) (n : ℕ) (call : ToolCall A)
      → next args task step results previous revision d ≡ go_on n call
      → (is_repeated args previous n call ≡ ok false) × (logged_revision revision ≡ n)
  unfolding next with_revision
  next_fresh task step results previous revision (err e) n call goes =
      elim (Bool-cases (is_exception e.kind)) [
        | inl caught ↦ let no : stop _ ≡ go_on n call = rw caught at goes in absurd (cc)
        | inr escapes ↦ let no : raises e ≡ go_on n call = rw escapes at goes in absurd (cc)
      ]
  next_fresh task step results previous revision (ok (final_answer content)) n call goes =
      absurd (cc)
  next_fresh task step results previous revision (ok (unsupported_decision type)) n call goes =
      absurd (cc)
  next_fresh task step results previous (err e) (ok (tool_call c)) n call goes = absurd (cc)
  next_fresh task step results previous (ok revision) (ok (tool_call c)) n call goes = (
    blocked_fresh task step results revision n c call _ (is_repeated args previous) refl goes,
    went_on task step results revision n c call _ goes,
  )

  step_fresh :
      {S : Type 0} (s : S × CallLog A) (rest : ℕ → ToolCall A → Result RunResult × (S × CallLog A))
      (st : Step A)
      → are_fresh args [] s.1 ≡ true
      → ((n : ℕ) (call : ToolCall A)
          → st ≡ go_on n call
          → are_fresh args [] (rest n call).1.1 ≡ true)
      → are_fresh args []
          (elim st as (λ _. Result RunResult × (S × CallLog A)) [
            | stop r ↦ (ok r, s)
            | raises e ↦ (err e, s)
            | go_on n call ↦ rest n call
          ]).1.1
        ≡ true
  step_fresh s rest (stop r) fresh continues = fresh
  step_fresh s rest (raises e) fresh continues = fresh
  step_fresh s rest (go_on n call) fresh continues = continues n call refl

grown_by :
    {A S : Type 0} (repr : Repr) (executor : Executor A S) (call : ToolCall A) (s : S × CallLog A)
    → (execute repr (logging executor) call s).1.1
      ≡ s.1 ++ ((logged_revision (workspace_revision (logging executor) s), call) ∷ [])
unfolding execute logging workspace_revision
grown_by repr executor call s = refl

-- What an executed call comes to, whether it has a result.
proceed_fresh :
    {A S : Type 0} (args : Arguments A) (r : Result ToolResult)
    (f : ToolResult → Exec (S × CallLog A) RunResult) (s : S × CallLog A)
    → are_fresh args [] s.1 ≡ true
    → ((t : ToolResult) → are_fresh args [] (f t s).1.1 ≡ true)
    → are_fresh args [] (proceed r f s).1.1 ≡ true
unfolding proceed
proceed_fresh args (ok t) f s fresh later = later t
proceed_fresh args (err e) f s fresh later = fresh

module _ {A S : Type 0} (args : Arguments A) (repr : Repr) (provider : Provider A S)
    (executor : Executor A S) (bound : ℕ) (task : String) where
  rounds_fresh :
      (left step : ℕ) (results : List ToolResult) (previous : CallLog A) (s : S) (log : CallLog A)
      → log ≡ previous
      → are_fresh args [] log ≡ true
      → are_fresh args []
          (rounds args repr
            (beside_log provider)
            (logging executor)
            bound
            task
            left
            step
            results
            previous
            (s, log)).1.1
        ≡ true
  unfolding rounds
  rounds_fresh zero step results previous s log same fresh = fresh
  rounds_fresh (suc left) step results previous s log same fresh =
      let (decided, s1) = turn (beside_log provider) task results (s, log) in
      let revision = workspace_revision (logging executor) s1 in
      let kept : s1.1 ≡ log = (Quiet-turn provider task results).at s log in
      let fresh1 : are_fresh args [] s1.1 ≡ true =
        subst (λ l. are_fresh args [] l ≡ true) (sym kept) fresh in
      step_fresh args s1 _ (next args task step results previous revision decided) fresh1
        (λ n call goes.
          let (new, read) =
            next_fresh args task step results previous revision decided n call goes in
          let (executed, s2) = execute repr (logging executor) call s1 in
          let grown : s2.1 ≡ s1.1 ++ ((n, call) ∷ []) =
            grown_by repr executor call s1 ∙ ap (λ k. s1.1 ++ ((k, call) ∷ [])) read in
          let fresh2 : are_fresh args [] s2.1 ≡ true =
            subst (λ l. are_fresh args [] l ≡ true) (sym grown)
              (fresh_snoc args [] s1.1 n call fresh1
                (subst (λ l. is_repeated args l n call ≡ ok false) (sym (kept ∙ same)) new)) in
          proceed_fresh args executed _ s2 fresh2 λ result.
            rounds_fresh left (suc step) (results ++ (result ∷ [])) (previous ++ ((n, call) ∷ []))
              s2.0 s2.1 (grown ∙ ap (λ l. l ++ ((n, call) ∷ [])) (kept ∙ same)) fresh2)

-- No call is executed twice: in a run, no two calls that reach the executor at the same workspace
-- revision have the same name and the same arguments, whatever the provider asks for and whatever
-- the executor does. The executor is observed by a log of its calls, empty at first, in the order
-- of the calls, each with the revision before it.
pub run_repeats_no_call :
    {A S : Type 0} (args : Arguments A) (repr : Repr) (provider : Provider A S)
    (executor : Executor A S) (bound : ℕ) (task : String) (s : S)
    → are_fresh args []
        (run args repr (beside_log provider) (logging executor) bound task (s, [])).1.1
      ≡ true
unfolding run raise
run_repeats_no_call args repr provider executor zero task s = refl
run_repeats_no_call args repr provider executor (suc bound) task s =
    let nonzero : (suc bound == 0) ≡ false = ground arith in
    rw nonzero
      (rounds_fresh args repr provider executor (suc bound) task (suc bound) 1 [] [] s [] refl refl)
