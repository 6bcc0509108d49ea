-- ===== src/Examples.antt =====
-- Concrete surroundings and adapters, and a run of theirs, shared by the modules below.
mod Sessions
mod Stores
mod Agents
mod Paths
mod Patching
mod Databases
mod Services
mod Requests
mod Listings
mod Streams
use agent_projects.Prelude.{String, true, false, none, some, [], ◌∷◌}
use agent_projects.Errors.{ok}
use agent_projects.RunModels.{ChangePlan, RunRecord, succeeded}
use agent_projects.Outcomes.{NodeOutcome, VerificationOutcome, as_check_summary}
use agent_projects.Checkpoints.{RunRow}
use agent_projects.Engine.World.{Host, Operations}

-- A host whose clock stands still.
abbrev pub host : Host
host = record {
  now = λ n. "2026-01-01T00:00:00.000Z";
  wall_ms = λ a b. 0;
  operation_ms = λ n. 5;
  json_size = λ r. 100;
  strip_whitespace = λ s. s;
}

abbrev pub good : NodeOutcome
good = record { ok = true; summary = "done"; error = none; detail = [] }

abbrev pub verified : VerificationOutcome
verified = record {
  ok = true;
  status = "passed";
  check_id = some "unit";
  duration_ms = 3;
  log_artifact = none;
  error = none;
  detail = [];
}

abbrev pub small_plan : ChangePlan
small_plan = record {
  goal = "fix";
  files = [];
  steps = "edit" ∷ [];
  checks = "unit" ∷ [];
  risks = [];
}

abbrev pub operations : Operations
operations = record {
  prepare = λ c s. (ok good, s);
  baseline_check = λ c s. (ok good, s);
  inspect_and_plan = λ c s. (ok small_plan, s);
  implement = λ c s. (ok good, s);
  verify = λ c s. (ok verified, s);
  repair = λ c s. (ok good, s);
  review = λ c s. (ok good, s);
  review_repair = λ c s. (ok good, s);
  finalize = λ c s. (ok good, s);
}

abbrev pub id : String
id = "0123456789abcdef0123456789abcdef"

abbrev pub final_run : RunRecord
final_run = record {
  run_id = id;
  repo_path = "/repo";
  task = "fix the bug";
  base_ref = none;
  base_commit = none;
  status = succeeded;
  current_node = none;
  plan = some small_plan;
  checks = as_check_summary verified 0 ∷ [];
  metrics = record {
    node_count = 8;
    tool_calls = 0;
    repair_attempts = 0;
    review_repairs = 0;
    duration_ms = 0;
    tokens = 0;
  };
  error = none;
  summary = some "done";
  approval_reason = none;
  auto_approve = false;
  allow_remote_model = false;
  cancel_requested = false;
  created_at = "2026-01-01T00:00:00.000Z";
  updated_at = "2026-01-01T00:00:00.000Z";
  started_at = some "2026-01-01T00:00:00.000Z";
  finished_at = some "2026-01-01T00:00:00.000Z";
}

abbrev pub final_row : RunRow
final_row = record { run = final_run; next_node = none; version = 17 }

-- A case folding that changes nothing.
abbrev pub unfolded : String → String
unfolded s = s
