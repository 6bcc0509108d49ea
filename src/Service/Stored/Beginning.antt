-- ===== src/Service/Stored/Beginning.antt =====
-- What `_execute_job` of src/repo_agent/service.py stores before it runs the workflow.
use agent_projects.Prelude.{
  String, ◌≡◌, refl, subst, Bool, true, false, Option, none, some, List, if◌then◌else◌,
}
use agent_projects.Errors.{Result, Exec, ok, err, pure, ◌>>◌}
use agent_projects.Hoare.{
  Ends, Hoare, Hoare-bind, Hoare-try, Hoare-pure, Hoare-if, Hoare-after, Hoare-throw, Keeps,
}
use agent_projects.RunModels.{RunRecord, PublicRunStatus, status_eq, is_terminal, planning, running}
use agent_projects.Outcomes.{Leaf}
use agent_projects.Database.{put, get}
use agent_projects.Database.Storing.{Anything, get-run_id, put-Holds}
use agent_projects.Service.Queue.{Job}
use agent_projects.Service.State.{Service, Host, on_database, on_artifacts}
use agent_projects.Service.Publishing.{trace}
use agent_projects.Service.Commands.{is_active}
use agent_projects.Service.Worker.{begin_job, begin_found, start_job}
use agent_projects.Service.Keeping.{OnDatabase}
use agent_projects.Service.Stored.{
  Stored, with_copy, get_run-gives, Stored-trace, OnDatabase-on_database, OnDatabase-on_artifacts,
}

abbrev pub Active : PublicRunStatus → Type 0
Active st = is_active st ≡ true

begun-Active : (b : Bool) → Active (if b then running else planning)
unfolding status_eq
begun-Active true = refl
begun-Active false = refl

abbrev Named : String → Option RunRecord → Type 0
Named run_id none = Unit {0}
Named run_id (some run) = run.run_id ≡ run_id

-- The worker goes on with a run only once that is stored as active.
abbrev pub Begun : {A : Type 0} → String → Option RunRecord → Service A → Type 0
Begun run_id none s = OnDatabase Anything s
Begun run_id (some run) s = Stored run_id Active s

module _ {A B : Type 0} where
  anyhow :
      (m : Exec (Service A) B)
      → Hoare (OnDatabase Anything) m (λ _. OnDatabase Anything) (OnDatabase Anything)
  anyhow m = record { at = λ s p. go (m s).0 (m s).1 }
    where
      go :
          (r : Result B) (s : Service A) → Ends (λ _. OnDatabase Anything) (OnDatabase Anything) r s
      go (ok b) s = record { on = tt }
      go (err e) s = record { on = tt }

  kept-Active :
      {run_id : String} (m : Exec (Service A) B)
      → Keeps (Stored run_id Active) m
      → Hoare (Stored run_id Active) m (λ _. Stored run_id Active) (OnDatabase Anything)
  kept-Active m k = Hoare-after m (λ b s p. p) (λ s p. record { on = tt }) k

module _ {A : Type 0} (h : Host A) where
  publish_started :
      (run : RunRecord) (event : String) (detail : List (String × Leaf))
      → Active run.status
      → Hoare
          (OnDatabase Anything)
          (do
            on_database (put run)
            trace h run event detail
            on_artifacts (h.write_record run)
            pure (some run))
          (Begun run.run_id)
          (OnDatabase Anything)
  publish_started run event detail active =
      Hoare-bind _ _ (OnDatabase-on_database (put run) (put-Holds Active run active)) λ _.
        Hoare-bind _ _ (kept-Active _ (Stored-trace run.run_id Active h run event detail)) λ _.
          Hoare-bind _ _ (kept-Active _ (OnDatabase-on_artifacts _))
            λ _. Hoare-pure (some run) λ s p. p

  start_job-Begun :
      (job : Job) (run : RunRecord)
      → Hoare (OnDatabase Anything) (start_job h job run) (Begun run.run_id) (OnDatabase Anything)
  unfolding start_job
  start_job-Begun job run = Hoare-bind _ _ (anyhow _) λ at.
      Hoare-bind _ _ (anyhow _)
        λ now. with_copy _ _ (publish_started _ _ _ (begun-Active job.resumes))

  begin_found-Begun :
      (job : Job) (o : Option RunRecord)
      → Named job.run_id o
      → Hoare (OnDatabase Anything) (begin_found h job o) (Begun job.run_id) (OnDatabase Anything)
  unfolding begin_found
  begin_found-Begun job none named = Hoare-pure none λ s p. p
  begin_found-Begun job (some run) named =
      Hoare-if (is_terminal run.status) _ _ (λ _. Hoare-pure none λ s p. p)
        λ going.
          Hoare-if run.cancel_requested _ (start_job h job run)
            (λ _. Hoare-bind _ _ (anyhow _) λ _. Hoare-pure none λ s p. p)
            λ _.
              subst
                (λ i.
                  Hoare (OnDatabase Anything) (start_job h job run) (Begun i) (OnDatabase Anything))
                named (start_job-Begun job run)

  pub begin_job-Begun :
      (job : Job)
      → Hoare (OnDatabase Anything) (begin_job h job) (Begun job.run_id) (OnDatabase Anything)
  unfolding begin_job
  begin_job-Begun job = Hoare-bind _ _ (anyhow _) λ set.
      Hoare-if set _ _ (λ _. Hoare-pure none λ s p. p)
        λ _.
          Hoare-bind {Q = λ o s. OnDatabase Anything s × Named job.run_id o} _ _
            (Hoare-try {F = OnDatabase Anything} _ _
              (Hoare-bind _ _
                (get_run-gives (OnDatabase Anything) (λ run. run.run_id ≡ job.run_id) h job.run_id
                  (Hoare-after _ (λ run s p. (record { on = tt }, p.on)) (λ s p. p)
                    (OnDatabase-on_database (get job.run_id) (get-run_id job.run_id))))
                λ run. Hoare-pure (some run) λ s p. p)
              λ e. Hoare-if _ _ _ (λ _. Hoare-pure none λ s p. (p, tt)) λ _. Hoare-throw e λ s p. p)
            λ o. record { at = λ s p. (begin_found-Begun job o p.1).at s p.0 }
