-- ===== src/Service/Stored/Worker.antt =====
-- What the worker of src/repo_agent/service.py does to the stored status of its run, and of others.
use agent_projects.Prelude.{
  ℕ, String, ◌≡◌, ◌≢◌, sym, ap, ◌∙◌, subst, Bool, true, false, not, ◌||◌, Option, none, some, List,
  [], ◌∷◌, if◌then◌else◌, arith, Bool-cases, inl, inr, str_eq, eq_iff, str_len, ◌==◌,
}
use agent_projects.Errors.{Result, Exc, ok, err}
use agent_projects.Hoare.{
  Hoare-bind, Hoare-try, Hoare-pure, Hoare-if, Hoare-after, Hoare-throw, Keeps, Keeps-pure,
  Keeps-raise, Keeps-throw, Keeps-if, Keeps-try, Keeps-bind, Keeps-gets,
}
use agent_projects.RunModels.{
  RunRecord, WorkflowNode, PublicRunStatus, is_terminal, inflight_lem, queued, planning, running,
}
use agent_projects.Outcomes.{Value, Detail}
use agent_projects.Database.{list}
use agent_projects.Database.Holding.{Fits, Every}
use agent_projects.Database.Listing.{Listed, Holds-list}
use agent_projects.Service.Queue.{Job}
use agent_projects.Service.State.{Host}
use agent_projects.Service.Publishing.{
  publish_interrupted, publish_inflight_interrupted, append_event,
}
use agent_projects.Service.Commands.{finish_close}
use agent_projects.Service.Worker.{
  is_cancelled, stops, persisted_of, begin_job, begin_found, start_job, now_or, now_if, checkpoint,
  publish_event, publish_final, publish_outcome, publish_failure, end_job,
}
use agent_projects.Service.Stored.{
  Stored, database_rules, copied, with_lift, with_copy, with_run, Stored-trace, Stored-put,
  Stored-publish_stopped, Stored-finish_cancelled, OnDatabase-on_database, OnDatabase-on_artifacts,
  OnDatabase-on_scheduler, OnDatabase-utc_now,
}

-- The status that `checkpoint` stores.
abbrev pub persisted_status : PublicRunStatus → PublicRunStatus
persisted_status status = if stops status then running else status

persisted_lem :
    (run persisted : RunRecord)
    → persisted_of run ≡ ok persisted
    → (persisted.run_id ≡ run.run_id) × (persisted.status ≡ persisted_status run.status)
unfolding persisted_of
persisted_lem run persisted stored = elim (Bool-cases (stops run.status)) [
  | inl stopped ↦
      let same = copied _ persisted (rw stopped at stored) in
      (ap (λ r. r.run_id) same, rw stopped (ap (λ r. r.status) same))
  | inr going ↦
      let same : ok run ≡ ok persisted = rw going at stored in
      let e : run ≡ persisted = cc in
      (sym (ap (λ r. r.run_id) e), rw going (sym (ap (λ r. r.status) e)))
]

abbrev FitsFound : String → (PublicRunStatus → Type 0) → Option RunRecord → Type 0
FitsFound run_id C none = Unit {0}
FitsFound run_id C (some run) = Fits run_id C run

module _ {A : Type 0} (run_id : String) (C : PublicRunStatus → Type 0) (h : Host A) where
  now_or-Stored : (o : Option String) → Keeps (Stored run_id C) (now_or h o)
  unfolding now_or
  now_or-Stored none = OnDatabase-utc_now h
  now_or-Stored (some at) =
      Keeps-if (str_len at == 0) _ _ (λ _. OnDatabase-utc_now h) λ _. Keeps-pure at

  now_if-Stored : (b : Bool) → Keeps (Stored run_id C) (now_if h b)
  unfolding now_if
  now_if-Stored true = Keeps-bind _ _ (OnDatabase-utc_now h) λ now. Keeps-pure _
  now_if-Stored false = Keeps-pure none

  start_job-Stored :
      (job : Job) (run : RunRecord)
      → run.run_id ≢ run_id
      → Keeps (Stored run_id C) (start_job h job run)
  unfolding start_job
  start_job-Stored job run other = Keeps-bind _ _ (now_or-Stored run.started_at) λ at.
      Keeps-bind _ _ (OnDatabase-utc_now h) λ now. with_copy _ _ (
        Keeps-bind _ _ (Stored-put run_id C h _ λ same. absurd (other same)) λ _.
          Keeps-bind _ _ (Stored-trace run_id C h _ _ _)
            λ _. Keeps-bind _ _ (OnDatabase-on_artifacts _) λ _. Keeps-pure _)

  -- Beginning a job leaves a run that has ended.
  begin_found-Stored :
      (job : Job) (o : Option RunRecord)
      → ((st : PublicRunStatus) → C st → is_terminal st ≡ true)
      → FitsFound run_id C o
      → Keeps (Stored run_id C) (begin_found h job o)
  unfolding begin_found
  begin_found-Stored job none ended fits = Keeps-pure none
  begin_found-Stored job (some run) ended fits =
      Keeps-if (is_terminal run.status) _ _ (λ _. Keeps-pure none)
        λ going.
          let ne : run.run_id ≢ run_id =
            λ same. let at = ended run.status (fits same) in ground (arith, at, going) in
          Keeps-if run.cancel_requested _ (start_job h job run)
            (λ _. Keeps-bind _ _ (Stored-finish_cancelled run_id C h run ne) λ _. Keeps-pure none)
            λ _. start_job-Stored job run ne

  pub begin_job-Stored :
      (job : Job)
      → ((st : PublicRunStatus) → C st → is_terminal st ≡ true)
      → Keeps (Stored run_id C) (begin_job h job)
  unfolding begin_job is_cancelled
  begin_job-Stored job ended = Keeps-bind _ _ (Keeps-gets _) λ set.
      Keeps-if set _ _ (λ _. Keeps-pure none)
        λ _.
          Hoare-bind {Q = λ o s. Stored run_id C s × FitsFound run_id C o} _ _
            (Hoare-try {F = Stored run_id C} _ _
              (with_run run_id C h job.run_id _
                λ run fits same. Hoare-pure (some run) λ s p. (p, fits))
              λ e. Hoare-if _ _ _ (λ _. Hoare-pure none λ s p. (p, tt)) λ _. Hoare-throw e λ s p. p)
            λ o. record { at = λ s p. (begin_found-Stored job o ended p.1).at s p.0 }

  -- A workflow changes its own run only, and stores a state that the condition allows.
  pub checkpoint-Stored :
      (own : String) (run : RunRecord) (event : String) (at : Option WorkflowNode) (detail : Value)
      → (own ≡ run_id → C (persisted_status run.status))
      → Keeps (Stored run_id C) (checkpoint h own run event at detail)
  unfolding checkpoint append_event
  checkpoint-Stored own run event at detail allowed =
      Keeps-if (not (str_eq run.run_id own)) _ _ (λ _. Keeps-raise _ _)
        λ guard.
          let named : run.run_id ≡ own = (eq_iff run.run_id own).0 (ground (arith, guard)) in
          Keeps-bind _ _ (OnDatabase-utc_now h) λ now. with_copy _ _ (
            with_lift _ _ λ persisted stored.
              let (same, st) = persisted_lem _ persisted stored in
              Keeps-bind _ _
                (Stored-put run_id C h persisted
                  λ e. subst C (sym st) (allowed (sym named ∙ sym same ∙ e)))
                λ _. search database_rules depth 10)

  pub publish_event-Stored :
      (own : String) (event : Detail) → Keeps (Stored run_id C) (publish_event h own event)
  unfolding publish_event append_event
  publish_event-Stored own event = search database_rules depth 8

  publish_final-Stored :
      (outcome : RunRecord)
      → outcome.run_id ≢ run_id
      → Keeps (Stored run_id C) (publish_final h outcome)
  unfolding publish_final
  publish_final-Stored outcome other = Keeps-bind _ _ (OnDatabase-utc_now h) λ now.
      Keeps-bind _ _ (now_if-Stored _)
        λ finished. with_copy _ _ (Stored-publish_stopped run_id C h _ _ _ λ e. absurd (other e))

  publish_outcome-Stored :
      (own : String) (outcome : Result RunRecord)
      → own ≢ run_id
      → Keeps (Stored run_id C) (publish_outcome h own outcome)
  unfolding publish_outcome is_cancelled
  publish_outcome-Stored own (err e) other = Keeps-throw e
  publish_outcome-Stored own (ok outcome) other =
      Keeps-if (not (str_eq outcome.run_id own)) _ _ (λ _. Keeps-raise _ _)
        λ guard.
          let named : outcome.run_id ≡ own =
            (eq_iff outcome.run_id own).0 (ground (arith, guard)) in
          with_run run_id C h own _ λ latest fits same. Keeps-bind _ _ (Keeps-gets _) λ set.
            Keeps-if (set || latest.cancel_requested) _ _
              (λ _.
                Keeps-bind _ _ (Stored-finish_cancelled run_id C h latest λ e. other (sym same ∙ e))
                  λ _. Keeps-pure tt)
              λ _.
                Keeps-if (not (stops outcome.status)) _ _ (λ _. Keeps-raise _ _)
                  λ _. publish_final-Stored outcome λ e. other (sym named ∙ e)

  publish_failure-Stored :
      (own : String) (e : Exc) → own ≢ run_id → Keeps (Stored run_id C) (publish_failure h own e)
  unfolding publish_failure is_cancelled
  publish_failure-Stored own e other = with_run run_id C h own _ λ latest fits same.
      Keeps-bind _ _ (Keeps-gets _) λ set.
        Keeps-if (set || latest.cancel_requested) _ _
          (λ _.
            Keeps-bind _ _ (Stored-finish_cancelled run_id C h latest λ e. other (sym same ∙ e))
              λ _. Keeps-pure tt)
          λ _. Keeps-bind _ _ (OnDatabase-utc_now h) λ now.
            with_copy _ _
              (Stored-publish_stopped run_id C h _ _ _ λ e. absurd (other (sym same ∙ e)))

  pub end_job-Stored :
      (own : String) (outcome : Result RunRecord)
      → own ≢ run_id
      → Keeps (Stored run_id C) (end_job h own outcome)
  unfolding end_job
  end_job-Stored own outcome other =
      Keeps-try _ _ (publish_outcome-Stored own outcome other)
        λ e. publish_failure-Stored own e other

  -- Closing interrupts no run that has ended.
  publish_interrupted-Stored :
      (runs : List RunRecord) (count : ℕ)
      → Every (λ run. run.run_id ≢ run_id) runs
      → Keeps (Stored run_id C) (publish_interrupted h runs count)
  unfolding publish_interrupted
  publish_interrupted-Stored [] count others = Keeps-pure count
  publish_interrupted-Stored (run ∷ runs) count others =
      Keeps-bind _ _ (OnDatabase-utc_now h) λ now. with_copy _ _ (
        Keeps-bind _ _ (Stored-publish_stopped run_id C h _ _ _ λ same. absurd (others.0 same))
          λ _. publish_interrupted-Stored runs _ others.1)

  inflight-ne :
      (runs : List RunRecord)
      → ((st : PublicRunStatus) → C st → is_terminal st ≡ true)
      → Every (Listed run_id C (queued ∷ planning ∷ running ∷ [])) runs
      → Every (λ run. run.run_id ≢ run_id) runs
  inflight-ne [] ended all = tt
  inflight-ne (run ∷ runs) ended all = (
    λ same.
        let ends = ended run.status (all.0.0 same) in
        let going = inflight_lem run.status all.0.1 in ground (arith, ends, going),
    inflight-ne runs ended all.1,
  )

  pub finish_close-Stored :
      ((st : PublicRunStatus) → C st → is_terminal st ≡ true)
      → Keeps (Stored run_id C) (finish_close h)
  unfolding finish_close publish_inflight_interrupted
  finish_close-Stored ended =
      Keeps-bind _ _
        (Keeps-try _ _
          (Hoare-bind
            {Q = λ runs s.
              Stored run_id C s × Every (Listed run_id C (queued ∷ planning ∷ running ∷ [])) runs}
            _ _
            (Hoare-after _ (λ runs s p. (record { on = p.on.0 }, p.on.1)) (λ s p. p)
              (OnDatabase-on_database (list _) (Holds-list (queued ∷ planning ∷ running ∷ []))))
            λ runs. record {
              at = λ s p. (publish_interrupted-Stored runs 0 (inflight-ne runs ended p.1)).at s p.0;
            })
          λ e. Keeps-bind _ _ (OnDatabase-on_scheduler _) λ _. Keeps-throw e)
        λ count. Keeps-bind _ _ (OnDatabase-on_scheduler _) λ _. Keeps-pure count
