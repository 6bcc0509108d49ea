-- ===== src/Examples/Agents.antt =====
-- Two agents, and the properties of the agent loop on their runs.
use agent_projects.Prelude.{
  str_eq, strip, is_space, ◌*◌, ℕ, suc, ◌≤◌, String, ◌≡◌, refl, true, false, none, some, [], length,
  arith,
}
use agent_projects.Errors.{ok, pure, ◌>>=◌, raise, proceed, and_then}
use agent_projects.Loop.{
  RunStatus, ToolCall, tool_call, final_answer, tool_result, RunResult, Provider, Executor,
  Arguments, run, rounds, turn, configure_provider_token_budget, budget_with, provider_token_usage,
  usage_fields, remaining_budget, enforce_provider_token_usage, check_usage, next, answered,
  run_result, workspace_revision,
}
use agent_projects.Prelude.{suc}
use agent_projects.Loop.Rounds.{HasVerdict, run_finishes}
use agent_projects.Loop.Orderly.{IsOrderly}
use agent_projects.Loop.Calls.{run_repeats_no_call}
use agent_projects.Loop.Logging.{are_fresh, beside_log, logging}
use agent_projects.Loop.Budget.{SpentWithin, is_answered, run_within_budget}
use agent_projects.Errors.{pure, raise, proceed, ◌>>=◌}

-- An agent whose provider asks for the same call for ever, and one that answers at once. Their
-- state counts the turns.
abbrev texts : Arguments String
texts = record { equal = λ a b. ok (str_eq a b); repr = λ a. ok a }

abbrev status_call : ToolCall String
status_call = record { id = "1"; name = "git_status"; arguments = "" }

abbrev asking : Provider String ℕ
asking = record {
  next_step = λ task results n. (ok (tool_call status_call), suc n);
  set_response_token_budget = none;
  usage = λ n. none;
}

abbrev answering : Provider String ℕ
answering = record {
  next_step = λ task results n. (ok (final_answer (some "done")), suc n);
  set_response_token_budget = some (λ budget n. (ok budget, n));
  usage = λ n. some (record {
    response_count = some n;
    complete = some true;
    total_tokens = some (some (n * 100));
  });
}

abbrev tool : Executor String ℕ
tool = record {
  execute = λ call n. (
    ok (
        tool_result (record {
          call_id = call.id;
          name = call.name;
          ok = true;
          output = "clean";
          error = none;
          exit_code = some 0;
          truncated = false;
        })),
    n,
  );
  workspace_revision = λ n. ok none;
}

abbrev answer_result : RunResult
answer_result = record {
  task = "look";
  status = RunStatus.completed;
  answer = some "done";
  steps = 1;
  tool_results = [];
}

answers : run texts (λ s. s) answering tool 8 "look" 0 ≡ (ok answer_result, 1)
unfolding run rounds turn configure_provider_token_budget budget_with provider_token_usage
    usage_fields remaining_budget enforce_provider_token_usage check_usage next answered run_result
    workspace_revision and_then ◌>>=◌ proceed pure raise strip is_space
answers = refl

run_within_budget_example : SpentWithin answering 1
unfolding is_answered
run_within_budget_example =
    run_within_budget texts (λ s. s) answering tool 8 "look" (λ budget n. (ok budget, n)) 0 1
      answer_result refl answers refl

run_repeats_no_call_example :
    are_fresh texts [] (run texts (λ s. s) (beside_log asking) (logging tool) 8 "look" (0, [])).1.1
    ≡ true
run_repeats_no_call_example = run_repeats_no_call texts (λ s. s) asking tool 8 "look" 0

asking-IsOrderly : IsOrderly texts asking tool "look"
unfolding turn configure_provider_token_budget ◌>>=◌ proceed pure
asking-IsOrderly = record {
  turns = λ results s e raised. ground arith;
  executes = λ call s e raised. ground arith;
  revises = λ s. (none, refl);
  compares = λ a b e raised. ground arith;
  prints = λ a. (a, refl);
}

run_finishes_example :
    (r : RunResult) × ((run texts (λ s. s) asking tool 8 "look" 0).0 ≡ ok r)
    × (1 ≤ r.steps)
    × (r.steps ≤ 8)
    × (length r.tool_results ≤ r.steps)
    × HasVerdict r
run_finishes_example =
    run_finishes texts (λ s. s) asking tool 8 "look" 0 asking-IsOrderly (omega arith)
