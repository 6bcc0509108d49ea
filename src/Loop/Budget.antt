-- ===== src/Loop/Budget.antt =====
-- The token budget of src/repo_agent/loop.py.
use agent_projects.Prelude.{
  inl, inr, Bool-cases, subst, ◌==◌, if◌then◌else◌, ap, ◌∙◌, ℕ, zero, suc, String, ◌≡◌, refl, Bool,
  true, false, Option, none, some, List, [], ◌∷◌, ◌++◌, arith,
}
use agent_projects.Errors.{is_exception, proceed, Result, Exec, ok, err, ◌>>=◌, ◌>>◌, pure, raise}
use agent_projects.Loop.{
  RunStatus, completed, completed_with_errors, Arguments, Repr, ToolCall, Executor, RunResult, Step,
  stop, raises, go_on, next, run_result, rounds, run, execute, workspace_revision, ToolResult,
  Decision, TokenUsage, Provider, usage_fields, provider_token_usage, remaining_budget, budget_with,
  configure_provider_token_budget, enforce_provider_token_usage, turn,
}
use agent_projects.Loop.Ensuring.{
  check_within, fields_lem, After, Ensures-any, Ensures-pure, Ensures-raise, Ensures-if, Ensures-of,
  bind_inversion, Ensures-bind, IsWithin, Ensures,
}

abbrev pub SpentWithin : {A S : Type 0} → Provider A S → S → Type 0
SpentWithin provider s = (u : TokenUsage) × (provider.usage s ≡ some u) × IsWithin u

module _ {A S : Type 0} (provider : Provider A S) where
  enforce_lem : Ensures (enforce_provider_token_usage provider) (λ _ s. SpentWithin provider s)
  unfolding enforce_provider_token_usage provider_token_usage ◌>>=◌
  enforce_lem = Ensures-of _ λ s n enforced.
      let ((count, complete, total), fields, checked, same) =
        bind_inversion (usage_fields (provider.usage s) s).0 _ _ n enforced in
      let (known, total_known, bounded, kept) =
        check_within count complete total (usage_fields (provider.usage s) s).1 _ n
          (ground (arith, checked)) in
      let (u, usage, _, is_complete, is_total, unchanged) =
        fields_lem (provider.usage s) s _ count complete total (ground (arith, fields)) in
      (
        u,
        ap provider.usage (same ∙ kept ∙ unchanged) ∙ usage,
        record {
          total = n;
          known = is_total ∙ ap some total_known;
          all_known = is_complete ∙ ap some known;
          bounded = bounded;
        },
      )

  budgeted : (setter : ℕ → Exec S ℕ) → Ensures (budget_with provider setter) (λ b _. b ≡ true)
  unfolding budget_with
  budgeted setter = Ensures-bind _ _ (Ensures-any _) λ (count, complete, total) s _.
      (Ensures-bind _ _ (Ensures-any (remaining_budget count complete total)) λ remaining s _.
          (Ensures-if (remaining == 0) _ _ (Ensures-raise _ _) (
              Ensures-bind _ _ (Ensures-any (setter remaining))
                λ _ s _. (Ensures-pure true λ _. refl).at s)).at
            s).at
        s

  configured :
      (o : Option (ℕ → Exec S ℕ)) (setter : ℕ → Exec S ℕ)
      → o ≡ some setter
      → Ensures
          (elim o as (λ _. Exec S Bool) [ none ↦ pure false | some f ↦ budget_with provider f ])
          (λ b _. b ≡ true)
  configured none setter supported = ground arith
  configured (some f) setter supported = budgeted f

  checked_turn :
      (b : Bool) (d : Decision A)
      → b ≡ true
      → Ensures
          (if b then enforce_provider_token_usage provider >> pure d else pure d)
          (λ _ s. SpentWithin provider s)
  unfolding After pure
  checked_turn true d is_true = Ensures-bind _ _ enforce_lem λ _ s spent. spent
  checked_turn false d is_true = ground arith

  -- A turn that decides has spent at most the budget, and has shown that it did.
  turn_within :
      (task : String) (results : List ToolResult) (setter : ℕ → Exec S ℕ)
      → provider.set_response_token_budget ≡ some setter
      → Ensures (turn provider task results) (λ _ s. SpentWithin provider s)
  unfolding turn configure_provider_token_budget
  turn_within task results setter supported =
      Ensures-bind _ _ (configured provider.set_response_token_budget setter supported)
        λ b s is_true.
          (Ensures-bind _ _ (Ensures-any (provider.next_step task results))
              λ decision s _. (checked_turn b decision is_true).at s).at
            s

unfoldable pub is_answered : RunStatus → Bool
is_answered completed = true
is_answered completed_with_errors = true
is_answered _ = false

module _ {A : Type 0} (args : Arguments A) (task : String) (step : ℕ)
    (results : List ToolResult) where
  next_answers :
      (previous : List (ℕ × ToolCall A)) (revision : Result ℕ) (d : Result (Decision A))
      (r : RunResult)
      → next args task step results previous revision d ≡ stop r
      → is_answered r.status ≡ true
      → (x : Decision A) × (d ≡ ok x)
  unfolding next run_result is_answered
  next_answers previous revision (ok x) r stopped answered = (x, refl)
  next_answers previous revision (err e) r stopped answered =
      elim (Bool-cases (is_exception e.kind)) [
        | inl caught ↦ ground (arith, caught, stopped, answered)
        | inr passed ↦ ground (arith, passed, stopped, answered)
      ]

module _ {A S : Type 0} (provider : Provider A S) where
  -- An outcome that is an answer leaves a state whose usage is within the budget.
  AnswersWithin : Result RunResult → S → Type 0
  AnswersWithin (ok r) s = is_answered r.status ≡ true → SpentWithin provider s
  AnswersWithin (err e) s = Unit

  answer_spent :
      (o : Result RunResult) (s : S) (r : RunResult)
      → AnswersWithin o s
      → o ≡ ok r
      → is_answered r.status ≡ true
      → SpentWithin provider s
  unfolding AnswersWithin
  answer_spent (ok r0) s r within same answered = within (ground (arith, same, answered))
  answer_spent (err e) s r within same answered = ground arith

  step_within :
      (s : S) (rest : ℕ → ToolCall A → Result RunResult × S) (st : Step A)
      → ((r : RunResult) → st ≡ stop r → is_answered r.status ≡ true → SpentWithin provider s)
      → ((n : ℕ) (call : ToolCall A) → AnswersWithin (rest n call).0 (rest n call).1)
      → AnswersWithin
          (elim st as (λ _. Result RunResult × S) [
            | stop r ↦ (ok r, s)
            | raises e ↦ (err e, s)
            | go_on n call ↦ rest n call
          ]).0
          (elim st as (λ _. Result RunResult × S) [
            | stop r ↦ (ok r, s)
            | raises e ↦ (err e, s)
            | go_on n call ↦ rest n call
          ]).1
  unfolding AnswersWithin
  step_within s rest (stop r) ends continues = λ answered. ends r refl answered
  step_within s rest (raises e) ends continues = tt
  step_within s rest (go_on n call) ends continues = continues n call

  proceed_within :
      (executed : Result ToolResult) (f : ToolResult → Exec S RunResult) (s : S)
      → ((t : ToolResult) → AnswersWithin (f t s).0 (f t s).1)
      → AnswersWithin (proceed executed f s).0 (proceed executed f s).1
  unfolding AnswersWithin proceed
  proceed_within (ok t) f s later = later t
  proceed_within (err e) f s later = tt

  spent_at :
      (r : Result (Decision A)) (s : S) (d : Decision A)
      → r ≡ ok d
      → After (λ _ s. SpentWithin provider s) r s
      → SpentWithin provider s
  unfolding After
  spent_at (ok x) s d decided spent = spent
  spent_at (err e) s d decided spent = ground arith

module _ {A S : Type 0} (args : Arguments A) (repr : Repr) (provider : Provider A S)
    (executor : Executor A S) (bound : ℕ) (task : String) (setter : ℕ → Exec S ℕ)
    (supported : provider.set_response_token_budget ≡ some setter) where
  rounds_within :
      (left step : ℕ) (results : List ToolResult) (previous : List (ℕ × ToolCall A)) (s : S)
      → AnswersWithin provider
          (rounds args repr provider executor bound task left step results previous s).0
          (rounds args repr provider executor bound task left step results previous s).1
  unfolding rounds run_result is_answered AnswersWithin
  rounds_within zero step results previous s = λ answered. ground arith
  rounds_within (suc left) step results previous s =
      let (decided, s1) = turn provider task results s in
      let revision = workspace_revision executor s1 in
      step_within provider s1 _ (next args task step results previous revision decided)
        (λ r stopped answers.
          let (d, is_ok) =
            next_answers args task step results previous revision decided r stopped answers in
          spent_at provider decided s1 d is_ok
            ((turn_within provider task results setter supported).at s))
        (λ n call.
          let (executed, s2) = execute repr executor call s1 in
          proceed_within provider executed _ s2 (λ result.
            rounds_within left (suc step) (results ++ (result ∷ [])) (previous ++ ((n, call) ∷ []))
              s2))

-- No answer is accepted over the budget: if a provider that has `set_response_token_budget` gives
-- the final answer of a run, so that the run ends as `completed` or `completed_with_errors`, then
-- in the final state its usage is readable, complete, and at most the 30000 tokens of
-- MAX_RESPONSE_TOKEN_BUDGET in total, whatever the provider and the executor do in the run.
pub run_within_budget :
    {A S : Type 0} (args : Arguments A) (repr : Repr) (provider : Provider A S)
    (executor : Executor A S) (bound : ℕ) (task : String) (setter : ℕ → Exec S ℕ) (s s' : S)
    (r : RunResult)
    → provider.set_response_token_budget ≡ some setter
    → run args repr provider executor bound task s ≡ (ok r, s')
    → is_answered r.status ≡ true
    → SpentWithin provider s'
unfolding run raise
run_within_budget args repr provider executor zero task setter s s' r supported runs answered =
    ground arith
run_within_budget args repr provider executor (suc bound) task setter s s' r supported runs
      answered =
    let nonzero : (suc bound == 0) ≡ false = ground arith in
    let rounds_run : rounds args repr provider executor (suc bound) task (suc bound) 1 [] [] s
        ≡ (ok r, s') =
      rw nonzero at runs in
    subst (SpentWithin provider) (ap (λ x. x.1) rounds_run) (
      answer_spent provider _ _ r
        (rounds_within args repr provider executor (suc bound) task setter supported (suc bound) 1
          [] [] s)
        (ap (λ x. x.0) rounds_run) answered)
