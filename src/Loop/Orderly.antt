-- ===== src/Loop/Orderly.antt =====
-- What src/repo_agent/loop.py asks of the provider, the executor and the arguments, for its calls
-- of them to have a result.
use agent_projects.Prelude.{
  ℕ, String, ◌≡◌, inl, inr, refl, true, false, Option, Bool, str_eq, fmt, or_default, List, [], ◌∷◌,
  ◌==◌, Bool-cases,
}
use agent_projects.Errors.{Result, Exc, ok, err, is_exception, and_then}
use agent_projects.Loop.{
  ToolCall, ToolResult, Provider, Executor, Arguments, Repr, turn, workspace_revision, is_repeated,
  failed_result, Returned, tool_result, unsupported_result, checked, exception_detail, or_later,
  same_arguments, same_invocation,
}

-- The provider and the executor raise nothing but Exceptions (whose `str`, as that of every Exc, is
-- a text), the revision can be read, and the arguments can be compared, where need be by a `repr`
-- that does not raise.
pub record IsOrderly {A S : Type 0} (args : Arguments A) (provider : Provider A S)
    (executor : Executor A S) (task : String) : Type 0 where
  pub turns :
      (results : List ToolResult) (s : S) (e : Exc)
      → (turn provider task results s).0 ≡ err e
      → is_exception e.kind ≡ true
  pub executes :
      (call : ToolCall A) (s : S) (e : Exc)
      → (executor.execute call s).0 ≡ err e
      → is_exception e.kind ≡ true
  pub revises : (s : S) → (o : Option ℕ) × (executor.workspace_revision s ≡ ok o)
  pub compares : (a b : A) (e : Exc) → args.equal a b ≡ err e → is_exception e.kind ≡ true
  pub prints : (a : A) → (t : String) × (args.repr a ≡ ok t)

module _ {A : Type 0} (args : Arguments A)
    (compares : (a b : A) (e : Exc) → args.equal a b ≡ err e → is_exception e.kind ≡ true)
    (prints : (a : A) → (t : String) × (args.repr a ≡ ok t)) where
  same_arguments_ok :
      (a b : A) (r : Result Bool)
      → args.equal a b ≡ r
      → (same : Bool) × (same_arguments args a b r ≡ ok same)
  unfolding same_arguments and_then
  same_arguments_ok a b (ok same) equal = (same, refl)
  same_arguments_ok a b (err e) equal =
      let (s, left) = prints a in
      let (t, right) = prints b in (str_eq s t, rw (compares a b e equal) (rw left (rw right refl)))

  same_invocation_ok :
      (left right : ToolCall A) → (same : Bool) × (same_invocation args left right ≡ ok same)
  unfolding same_invocation
  same_invocation_ok left right = elim (Bool-cases (str_eq left.name right.name)) [
    | inl named ↦
        let (same, e) =
          same_arguments_ok left.arguments right.arguments
            (args.equal left.arguments right.arguments) refl in
        (same, rw named e)
    | inr other ↦ (false, rw other refl)
  ]

  or_later_ok :
      (same : Bool) (later : Result Bool) (b : Bool)
      → later ≡ ok b
      → (c : Bool) × (or_later (ok same) later ≡ ok c)
  or_later_ok true later b e = (true, refl)
  or_later_ok false later b e = (b, e)

  pub is_repeated_ok :
      (previous : List (ℕ × ToolCall A)) (revision : ℕ) (call : ToolCall A)
      → (b : Bool) × (is_repeated args previous revision call ≡ ok b)
  is_repeated_ok [] revision call = (false, refl)
  is_repeated_ok ((n, prior) ∷ previous) revision call =
      let (b, rest) = is_repeated_ok previous revision call in
      let (same, equal) = same_invocation_ok call prior in
      let (c, both) = or_later_ok same (is_repeated args previous revision call) b rest in
      elim (Bool-cases (n == revision)) [
        | inl here ↦ (c, rw here (rw equal both))
        | inr other ↦ (b, rw other rest)
      ]

-- What the executor returns or raises has a result.
pub checked_ok :
    {A : Type 0} (repr : Repr) (call : ToolCall A) (r : Result Returned)
    → ((e : Exc) → r ≡ err e → is_exception e.kind ≡ true)
    → (t : ToolResult) × (checked repr call r ≡ ok t)
unfolding checked
checked_ok repr call (err e) caught = (
  failed_result call (fmt ("Tool executor failed: " ∷ exception_detail e ∷ [])),
  rw (caught e refl) refl,
)
checked_ok repr call (ok (unsupported_result type)) caught = (_, refl)
checked_ok repr call (ok (tool_result result)) caught = (_, refl)

pub revision_ok :
    {A S : Type 0} (executor : Executor A S) (s : S)
    → (o : Option ℕ) × (executor.workspace_revision s ≡ ok o)
    → (n : ℕ) × (workspace_revision executor s ≡ ok n)
unfolding workspace_revision and_then
revision_ok executor s (o, read) = (or_default o 0, rw read refl)
