-- ===== src/RunList.antt =====
-- The list of runs, `list_runs` in src/repo_agent/api.py over that of src/repo_agent/service.py.
pub mod Selecting
use agent_projects.Prelude.{
  ℕ, ◌+◌, String, Bool, true, false, not, Option, none, some, List, [], ◌∷◌, ◌++◌, map, ltb, leb,
  ◌==◌, if◌then◌else◌, str_eq, any,
}
use mathlib.Core.List.{reverse}
use agent_projects.Errors.{Result, Exec, ok, err, pure, ◌>>=◌, api_error}
use agent_projects.RunModels.{RunRecord}
use agent_projects.Database.{list, where_true}
use agent_projects.Service.Queue.{Scheduler, ServiceSnapshot, scheduler_snapshot}
use agent_projects.Service.State.{Service, Host, on_database}
use agent_projects.Service.Publishing.{status_name}

-- `RunService.list_runs`
unfoldable pub allowed_runs : {A : Type 0} → Host A → Exec (Service A) (List RunRecord)
unfolding where_true
allowed_runs h = do records ← on_database (list none); pure (where_true h.record_is_allowed records)

abbrev pub later_or : Option ℕ → Option ℕ → Option ℕ
later_or (some later) o = some later
later_or none o = o

-- `positions.get(run_id)`, of the dictionary that the ids make, of which a later one would replace
-- an earlier one.
unfoldable pub position_in : ℕ → String → List String → Option ℕ
position_in n run_id [] = none
position_in n run_id (id ∷ ids) =
    later_or (position_in (n + 1) run_id ids) (if str_eq id run_id then some n else none)

abbrev pub is_wanted : Option String → RunRecord → Bool
is_wanted none run = true
is_wanted (some status) run = str_eq (status_name run.status) status

-- A run as the response has it: the record and its `queue_position`.
abbrev pub Listing : Type 0
Listing = List (RunRecord × Option ℕ)

-- The `for` of `list_runs`, `count` of whose payloads are selected.
unfoldable pub select : ℕ → Option String → (String → Option ℕ) → ℕ → List RunRecord → Listing
select limit status positions count [] = []
select limit status positions count (run ∷ runs) =
    let skipped = select limit status positions count runs in
    let later = select limit status positions (count + 1) runs in
    let payload : RunRecord × Option ℕ = (run, positions run.run_id) in
    if not (is_wanted status run)
    then skipped
    else if count + 1 == limit
    then payload ∷ []
    else payload ∷ later

-- `list_runs` of the API, with a status and a limit that were validated.
unfoldable pub list_runs :
    {A : Type 0} → Host A → Bool → Option String → ℕ → Exec (Service A) (Listing × ServiceSnapshot)
unfolding allowed_runs select position_in scheduler_snapshot
list_runs h alive status limit = do
  records ← allowed_runs h
  λ s.
      let snapshot = scheduler_snapshot alive s.scheduler in
      pure
        (
          select limit status (λ run_id. position_in 1 run_id snapshot.queued_run_ids) 0
              (reverse records),
          snapshot,
        )
        s
