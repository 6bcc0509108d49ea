-- ===== src/Loop/Logging.antt =====
-- The log of the calls that reach an executor of src/repo_agent/loop.py, and that the provider's turn
-- leaves it alone.
use agent_projects.Prelude.{
  ◌==◌, if◌then◌else◌, ◌∙◌, ℕ, String, ◌≡◌, refl, Bool, true, false, ◌&&◌, Option, none, some, List,
  [], ◌∷◌, ◌++◌, arith,
}
use agent_projects.Errors.{ErrorKind, Result, ok, err, Exec, proceed, ◌>>=◌, pure, raise}
use agent_projects.Loop.{
  TokenUsage, ToolCall, ToolResult, Provider, Executor, Arguments, is_repeated, usage_fields,
  provider_token_usage, remaining_budget, budget_with, configure_provider_token_budget, check_usage,
  enforce_provider_token_usage, turn, workspace_revision,
}

-- The calls that reached the executor, with the workspace revision before each.
abbrev pub CallLog : Type 0 → Type 0
CallLog A = List (ℕ × ToolCall A)

-- A call is written down with its revision, which was read before.
abbrev pub logged_revision : Result ℕ → ℕ
logged_revision (ok revision) = revision
logged_revision (err e) = 0

module _ {A S : Type 0} where
  unfoldable pub unlogged : {X : Type 0} → Exec S X → Exec (S × CallLog A) X
  unlogged m (s, log) = let (x, s') = m s in (x, (s', log))

  -- A provider beside a log that it does not see.
  unfoldable pub beside_log : Provider A S → Provider A (S × CallLog A)
  unfolding unlogged
  beside_log provider = record {
    next_step = λ task results. unlogged (provider.next_step task results);
    set_response_token_budget = elim provider.set_response_token_budget [
      | none ↦ none
      | some f ↦ some (λ n. unlogged (f n))
    ];
    usage = λ (s, log). provider.usage s;
  }

  -- An executor that writes down each call that it is given.
  unfoldable pub logging : Executor A S → Executor A (S × CallLog A)
  logging executor = record {
    execute = λ call (s, log).
        let (returned, s') = executor.execute call s in
        (returned, (s', log ++ ((logged_revision (workspace_revision executor s), call) ∷ [])));
    workspace_revision = λ (s, log). executor.workspace_revision s;
  }

  -- An action that leaves the log alone.
  pub record IsQuiet {X : Type 0} (m : Exec (S × CallLog A) X) : Type 0 where
    pub at : (s : S) (log : CallLog A) → (m (s, log)).1.1 ≡ log

-- The comparison says that no call is repeated.
abbrev pub is_new : Result Bool → Bool
is_new (ok true) = false
is_new (ok false) = true
is_new (err e) = false

-- No call repeats one before it at the same revision.
abbrev pub are_fresh : {A : Type 0} → Arguments A → CallLog A → CallLog A → Bool
are_fresh args seen [] = true
are_fresh args seen ((revision, call) ∷ rest) =
    is_new (is_repeated args seen revision call)
    && are_fresh args (seen ++ ((revision, call) ∷ [])) rest

module _ {A S : Type 0} where
  Quiet-unlogged : {X : Type 0} (m : Exec S X) → IsQuiet {A = A} {S = S} (unlogged m)
  unfolding unlogged
  Quiet-unlogged m = record { at = λ s log. refl }

  Quiet-pure : {X : Type 0} (x : X) → IsQuiet {A = A} {S = S} (pure x)
  unfolding pure
  Quiet-pure x = record { at = λ s log. refl }

  Quiet-raise :
      {X : Type 0} (k : ErrorKind) (m : String) → IsQuiet {A = A} {S = S} {X = X} (raise k m)
  unfolding raise
  Quiet-raise k m = record { at = λ s log. refl }

  Quiet-if :
      {X : Type 0} (b : Bool) (m n : Exec (S × CallLog A) X)
      → IsQuiet m
      → IsQuiet n
      → IsQuiet (if b then m else n)
  Quiet-if true m n km kn = km
  Quiet-if false m n km kn = kn

  proceed_quiet :
      {X Y : Type 0} (r : Result X) (f : X → Exec (S × CallLog A) Y) (s : S) (log : CallLog A)
      → ((x : X) → IsQuiet (f x))
      → (proceed r f (s, log)).1.1 ≡ log
  unfolding proceed
  proceed_quiet (ok x) f s log kf = (kf x).at s log
  proceed_quiet (err e) f s log kf = refl

  Quiet-bind :
      {X Y : Type 0} (m : Exec (S × CallLog A) X) (f : X → Exec (S × CallLog A) Y)
      → IsQuiet m
      → ((x : X) → IsQuiet (f x))
      → IsQuiet (m >>= f)
  unfolding ◌>>=◌
  Quiet-bind m f km kf = record {
    at = λ s log. proceed_quiet (m (s, log)).0 f (m (s, log)).1.0 (m (s, log)).1.1 kf ∙ km.at s log;
  }

  Quiet-usage : (u : Option TokenUsage) → IsQuiet {A = A} {S = S} (usage_fields u)
  unfolding usage_fields pure raise
  Quiet-usage u = record { at = λ s log. ground arith }

  Quiet-token_usage :
      (provider : Provider A S) → IsQuiet (provider_token_usage (beside_log provider))
  unfolding provider_token_usage
  Quiet-token_usage provider = record {
    at = λ s log. (Quiet-usage ((beside_log provider).usage (s, log))).at s log;
  }

  Quiet-remaining :
      (n : ℕ) (complete : Bool) (total : Option ℕ)
      → IsQuiet {A = A} {S = S} (remaining_budget n complete total)
  unfolding remaining_budget pure raise
  Quiet-remaining n complete total = record { at = λ s log. ground arith }

  Quiet-check :
      (n : ℕ) (complete : Bool) (total : Option ℕ)
      → IsQuiet {A = A} {S = S} (check_usage n complete total)
  unfolding check_usage pure raise
  Quiet-check n complete total = record { at = λ s log. ground arith }

  Quiet-configured :
      (provider : Provider A S) (o : Option (ℕ → Exec S ℕ))
      → IsQuiet
          (elim (elim o as (λ _. Option (ℕ → Exec (S × CallLog A) ℕ)) [
            | none ↦ none
            | some f ↦ some (λ n. unlogged (f n))
          ])
            as (λ _. Exec (S × CallLog A) Bool) [
              | none ↦ pure false
              | some f ↦ budget_with (beside_log provider) f
            ])
  unfolding budget_with
  Quiet-configured provider none = Quiet-pure false
  Quiet-configured provider (some f) =
      Quiet-bind _ _ (Quiet-token_usage provider) λ (count, complete, total).
        Quiet-bind _ _ (Quiet-remaining count complete total) λ remaining.
          Quiet-if (remaining == 0) _ _ (Quiet-raise _ _)
            (Quiet-bind _ _ (Quiet-unlogged (f remaining)) λ _. Quiet-pure true)

  pub Quiet-turn :
      (provider : Provider A S) (task : String) (results : List ToolResult)
      → IsQuiet (turn (beside_log provider) task results)
  unfolding turn configure_provider_token_budget enforce_provider_token_usage beside_log
  Quiet-turn provider task results =
      Quiet-bind _ _ (Quiet-configured provider provider.set_response_token_budget) λ b.
        Quiet-bind _ _ (Quiet-unlogged (provider.next_step task results)) λ decision.
          Quiet-if b _ _
            (Quiet-bind _ _
              (Quiet-bind _ _ (Quiet-token_usage provider)
                λ (count, complete, total). Quiet-check count complete total)
              λ _. Quiet-pure decision)
            (Quiet-pure decision)
