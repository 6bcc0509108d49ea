-- ===== src/Service/Stored/Publishing.antt =====
-- The order in which `_publish_stopped` of src/repo_agent/service.py makes a stopped run known.
use agent_projects.Prelude.{String, ◌≡◌, refl, subst, List}
use agent_projects.Errors.{Result, Exc, ok, err}
use agent_projects.Hoare.{Ends, Hoare, Hoare-bind, Keeps, Keeps-if, Keeps-pure, Keeps-bind}
use agent_projects.RunModels.{RunRecord, is_terminal}
use agent_projects.Outcomes.{Leaf}
use agent_projects.Database.{RunEntry, put}
use agent_projects.Database.Holding.{Holds}
use agent_projects.Database.Storing.{put-Holds, append_event-entries}
use agent_projects.Service.State.{Service, Host}
use agent_projects.Service.Publishing.{append_event, trace, write_report, publish_stopped}
use agent_projects.Service.Keeping.{OnDatabase}
use agent_projects.Service.Stored.{
  Stored, OnDatabase-on_database, OnDatabase-on_artifacts, OnDatabase-utc_now,
}

-- The runs are stored as they were.
abbrev Unchanged : {A : Type 0} → List RunEntry → Service A → Type 0
Unchanged entries = OnDatabase (λ db. db.entries ≡ entries)

module _ {A : Type 0} (h : Host A) (entries : List RunEntry) where
  trace-Unchanged :
      (run : RunRecord) (event : String) (detail : List (String × Leaf))
      → Keeps (Unchanged entries) (trace h run event detail)
  unfolding trace append_event
  trace-Unchanged run event detail = Keeps-bind _ _ (OnDatabase-utc_now h) λ now.
      Keeps-bind _ _
        (Keeps-bind _ _ (OnDatabase-utc_now h)
          λ at. OnDatabase-on_database _ (append_event-entries entries _ _ _))
        λ sequence. OnDatabase-on_artifacts _

  publish_stopped-Stored :
      (run : RunRecord) (event : String) (detail : List (String × Leaf))
      → Hoare
          (Unchanged entries)
          (publish_stopped h run event detail)
          (λ _. Stored run.run_id (λ st. st ≡ run.status))
          (Unchanged entries)
  unfolding publish_stopped write_report
  publish_stopped-Stored run event detail = Hoare-bind _ _ (OnDatabase-on_artifacts _) λ _.
      Hoare-bind _ _
        (Keeps-if (is_terminal run.status) _ _ (λ _. OnDatabase-on_artifacts _) λ _. Keeps-pure tt)
        λ _.
          Hoare-bind _ _ (trace-Unchanged run event detail)
            λ _. OnDatabase-on_database (put run) (put-Holds (λ st. st ≡ run.status) run refl)

module _ {S B : Type 0} {Q : B → S → Type 0} {E : S → Type 0} where
  -- What an outcome meets, by whether the action returned.
  outcome_cases :
      (o : Result B × S)
      → Ends Q E o.0 o.1
      → ((b : B) (t : S) → o ≡ (ok b, t) → Q b t) × ((e : Exc) (t : S) → o ≡ (err e, t) → E t)
  outcome_cases o met = (
    λ b t is. subst (λ x. Ends Q E x.0 x.1) is met,
    λ e t is. subst (λ x. Ends Q E x.0 x.1) is met,
  )

-- A stopped state is stored last: where `_publish_stopped` returns, the run is stored with the status
-- that it published, and where it raises, because the artifact store or the database does, then the
-- runs are stored as they were.
pub publish_stopped_lem :
    {A : Type 0} (h : Host A) (run : RunRecord) (event : String) (detail : List (String × Leaf))
    (s : Service A)
    → ((x : Unit {0}) (t : Service A)
        → publish_stopped h run event detail s ≡ (ok x, t)
        → Holds run.run_id (λ st. st ≡ run.status) t.database)
      × ((e : Exc) (t : Service A)
          → publish_stopped h run event detail s ≡ (err e, t)
          → t.database.entries ≡ s.database.entries)
publish_stopped_lem h run event detail s =
    let both = outcome_cases (publish_stopped h run event detail s) (
      (publish_stopped-Stored h s.database.entries run event detail).at s (record { on = refl })) in
    (λ x t is. (both.0 x t is).on, λ e t is. (both.1 e t is).on)
