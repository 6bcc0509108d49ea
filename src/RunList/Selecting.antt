-- ===== src/RunList/Selecting.antt =====
-- What the list of runs of src/repo_agent/api.py has.
use agent_projects.Prelude.{ℕ, String, Option, List, map}
use agent_projects.RunModels.{RunRecord}
use agent_projects.Service.State.{Service}
use agent_projects.RunList.{Listing}

-- The runs, each with its position.
abbrev pub payloads : (String → Option ℕ) → List RunRecord → Listing
payloads positions runs = map (λ run. (run, positions run.run_id)) runs
