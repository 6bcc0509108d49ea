-- ===== src/Service/Stored/Commands.antt =====
-- The commands of src/repo_agent/service.py leave the status of a run that is settled: one that has
-- ended, or that the worker is at.
use agent_projects.Prelude.{
  String, ◌≡◌, ◌≢◌, refl, subst, Bool, true, false, not, ◌||◌, Option, if◌then◌else◌, arith,
}
use agent_projects.Hoare.{
  Keeps, Keeps-pure, Keeps-raise, Keeps-throw, Keeps-if, Keeps-try, Keeps-bind,
}
use agent_projects.RunModels.{
  RunRecord, PublicRunStatus, status_eq, status_eq_eq, is_terminal, awaiting_approval, interrupted,
  cancelled,
}
use agent_projects.Database.Holding.{Fits, Holds-create}
use agent_projects.Service.State.{Host}
use agent_projects.Service.Commands.{
  is_active, store_and_schedule, create_reserved, create_run, requeue, reject, approve, decide,
  wrong_state, resume, cancel, cancel_live, publish_cancel, begin_close,
}
use agent_projects.Service.Keeping.{Keeps-lift}
use agent_projects.Service.Stored.{
  Stored, database_rules, with_copy, with_run, Stored-get_run, Stored-trace, Stored-put,
  Stored-publish_stopped, OnDatabase-on_artifacts, OnDatabase-on_scheduler, OnDatabase-utc_now,
}

abbrev pub is_settled : PublicRunStatus → Bool
is_settled status = is_terminal status || is_active status

-- A run whose status is one that a command changes is another run.
is_other :
    (run_id : String) (C : PublicRunStatus → Type 0) (run : RunRecord) (st : PublicRunStatus)
    → ((st : PublicRunStatus) → C st → is_settled st ≡ true)
    → is_settled st ≡ false
    → not (status_eq run.status st) ≡ false
    → Fits run_id C run
    → run.run_id ≢ run_id
unfolding status_eq
is_other run_id C run st settled open_status guard fits same =
    let at = status_eq_eq run.status st (ground (arith, guard)) in
    let settled_there = settled run.status (fits same) in
    let e : is_settled st ≡ true = subst (λ x. is_settled x ≡ true) at settled_there in
    absurd (ground (arith, e, open_status))

module _ {A : Type 0} (run_id : String) (C : PublicRunStatus → Type 0)
    (settled : (st : PublicRunStatus) → C st → is_settled st ≡ true) (h : Host A) where
  create_reserved-Stored : (run : RunRecord) → Keeps (Stored run_id C) (create_reserved h run)
  unfolding create_reserved store_and_schedule
  create_reserved-Stored run =
      Keeps-bind _ _ (search (database_rules, Stored-trace run_id C h, Holds-create) depth 12)
        λ _. Stored-get_run run_id C h run.run_id

  requeue-Stored :
      (old new : RunRecord) (event : String)
      → old.run_id ≢ run_id
      → new.run_id ≢ run_id
      → Keeps (Stored run_id C) (requeue h old new event)
  unfolding requeue
  requeue-Stored old new event other_old other_new =
      Keeps-bind _ _ (Stored-put run_id C h new λ same. absurd (other_new same)) λ _.
        Keeps-bind _ _
          (Keeps-try _ _ (OnDatabase-on_scheduler _) λ e.
            Keeps-bind _ _ (Stored-put run_id C h old λ same. absurd (other_old same))
              λ _. Keeps-throw e)
          λ _.
            Keeps-bind _ _ (Stored-trace run_id C h new event _)
              λ _. Keeps-bind _ _ (OnDatabase-on_artifacts _) λ _. Keeps-pure new

  pub decide-Stored :
      (other : String) (approves : Bool) (reason : Option String)
      → Keeps (Stored run_id C) (decide h other approves reason)
  unfolding decide approve reject wrong_state status_eq
  decide-Stored other approves reason = Keeps-bind _ _ (OnDatabase-on_scheduler _) λ _.
      Keeps-bind _ _ (Keeps-lift _) λ normalized. with_run run_id C h other _ λ run fits same.
        Keeps-if _ _ _ (λ _. Keeps-raise _ _)
          λ guard.
            let ne = is_other run_id C run awaiting_approval settled refl guard fits in
            Keeps-bind _ _ (OnDatabase-utc_now h) λ now.
              Keeps-if approves _ _ (λ _. with_copy _ _ (requeue-Stored run _ _ ne ne))
                λ _. with_copy _ _ (
                  Keeps-bind _ _ (Stored-publish_stopped run_id C h _ _ _ λ same. absurd (ne same))
                    λ _. Keeps-pure _)

  pub resume-Stored : (other : String) → Keeps (Stored run_id C) (resume h other)
  unfolding resume wrong_state status_eq
  resume-Stored other = Keeps-bind _ _ (OnDatabase-on_scheduler _) λ _.
      with_run run_id C h other _ λ run fits same.
        Keeps-if _ _ _ (λ _. Keeps-raise _ _)
          λ guard.
            let ne = is_other run_id C run interrupted settled refl guard fits in
            Keeps-bind _ _ (OnDatabase-utc_now h)
              λ now. with_copy _ _ (requeue-Stored run _ _ ne ne)

  pub create_run-Stored :
      (repo_path task : String) (base_ref : Option String) (auto_approve remote : Bool)
      → Keeps (Stored run_id C) (create_run h repo_path task base_ref auto_approve remote)
  unfolding create_run
  create_run-Stored repo_path task base_ref auto_approve remote =
      search (database_rules, create_reserved-Stored) depth 14

  publish_cancel-Stored :
      (active : Bool) (run : RunRecord)
      → Fits run_id C run
      → Keeps (Stored run_id C) (publish_cancel h active run)
  unfolding publish_cancel
  publish_cancel-Stored true run fits = Keeps-bind _ _ (Stored-put run_id C h run fits) λ _.
      Keeps-bind _ _ (Stored-trace run_id C h run _ _)
        λ _. Keeps-bind _ _ (OnDatabase-on_artifacts _) λ _. Keeps-pure run
  publish_cancel-Stored false run fits =
      Keeps-bind _ _ (Stored-publish_stopped run_id C h run _ _ fits) λ _. Keeps-pure run

  -- A cancelled run that is active keeps its status; any other was not settled.
  cancelled-Fits :
      (run : RunRecord)
      → is_terminal run.status ≡ false
      → Fits run_id C run
      → run.run_id ≡ run_id
      → C (if is_active run.status then run.status else cancelled)
  cancelled-Fits run going fits same =
      let at = settled run.status (fits same) in
      let active : is_active run.status ≡ true = ground (arith, at, going) in rw active (fits same)

  pub cancel-Stored : (other : String) → Keeps (Stored run_id C) (cancel h other)
  unfolding cancel cancel_live
  cancel-Stored other = Keeps-bind _ _ (OnDatabase-on_scheduler _) λ _.
      with_run run_id C h other _ λ run fits same.
        Keeps-if _ _ _ (λ _. Keeps-pure run)
          λ going. Keeps-bind _ _ (OnDatabase-utc_now h) λ now. with_copy _ _ (
            Keeps-bind _ _ (OnDatabase-on_scheduler _)
              λ _. publish_cancel-Stored (is_active run.status) _ (cancelled-Fits run going fits))

  pub begin_close-Stored : Keeps (Stored run_id C) (begin_close h)
  unfolding begin_close
  begin_close-Stored = OnDatabase-on_scheduler _
