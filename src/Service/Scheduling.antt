-- ===== src/Service/Scheduling.antt =====
-- The commands of src/repo_agent/service.py keep the scheduler sound, whatever raises in them.
use agent_projects.Prelude.{
  ℕ, String, Bool, true, false, not, Option, List, if◌then◌else◌, Bool-cases, inl, inr,
}
use agent_projects.Errors.{Exec, pure, ◌>>=◌}
use agent_projects.Hoare.{
  Hoare, Hoare-bind, Hoare-try, Hoare-both, Hoare-before, Hoare-after, Hoare-throw, Keeps,
}
use agent_projects.RunModels.{RunRecord}
use agent_projects.Service.Queue.{
  Job, Scheduler, acquire, release, refuse_full, require_open, schedule, cancel_job, stop,
  release_lease,
}
use agent_projects.Service.Queue.Sound.{
  IsSound, reserved, acquire-IsSound, release-IsSound, schedule-IsSound, require_open-IsSound,
  refuse_full-IsSound,
}
use agent_projects.Service.Queue.Cancelling.{cancel_job-IsSound}
use agent_projects.Service.Queue.Holders.{
  AreHeld, AreHeld-require_open, AreHeld-acquire, AreHeld-release, AreHeld-refuse_full,
  AreHeld-schedule, AreHeld-cancel_job, AreHeld-stop, AreHeld-release_lease,
}
use agent_projects.Service.State.{Service, Host, on_scheduler, fresh_id, utc_now}
use agent_projects.Service.Publishing.{publish_inflight_interrupted}
use agent_projects.Service.Commands.{
  new_record, store_and_schedule, create_reserved, create_run, requeue, reject, approve, decide,
  wrong_state, resume, cancel, cancel_live, publish_cancel, begin_close, finish_close,
}
use agent_projects.Service.Keeping.{
  OnScheduler, OnScheduler-on_scheduler, OnScheduler-on_database, OnScheduler-on_artifacts,
  OnScheduler-utc_now, OnScheduler-fresh_id, Keeps-lift, OnScheduler-trace, publishing_rules,
  OnScheduler-get_run,
}

-- A sound scheduler with `taken` slots in the hands of commands, and the runs with a cancel event.
pub record Ready (max : ℕ) (runs : List String) (taken : ℕ) (s : Scheduler) : Type 0 where
  pub sound : IsSound taken s
  pub held : AreHeld max runs s

module _ {B : Type 0} {max : ℕ} {runs : List String} {k : B → ℕ} {i e : ℕ} where
  Ready-both :
      (m : Exec Scheduler B)
      → Hoare (IsSound i) m (λ b. IsSound (k b)) (IsSound e)
      → Keeps (AreHeld max runs) m
      → Hoare (Ready max runs i) m (λ b. Ready max runs (k b)) (Ready max runs e)
  Ready-both m t u =
      Hoare-before m (λ s r. (r.sound, r.held))
        (Hoare-after m (λ b s p. record { sound = p.0; held = p.1 })
          (λ s p. record { sound = p.0; held = p.1 }) (Hoare-both m t u))

-- Closing leaves the queue.
stop-IsSound : Keeps (IsSound 0) stop
unfolding stop pure
stop-IsSound = record {
  at = λ s v. elim (Bool-cases s.lease_held) [
    | inl held ↦
        rw held (record { lockstep = v.lockstep; distinct = v.distinct; counted = v.counted })
    | inr released ↦
        rw released (record { lockstep = v.lockstep; distinct = v.distinct; counted = v.counted })
  ];
}

release_lease-IsSound : Keeps (IsSound 0) release_lease
unfolding release_lease pure
release_lease-IsSound = record {
  at = λ s v. record { lockstep = v.lockstep; distinct = v.distinct; counted = v.counted };
}

module _ {max : ℕ} {runs : List String} where
  Ready-require_open : (k : ℕ) → Keeps (Ready max runs k) require_open
  Ready-require_open k = Ready-both require_open (require_open-IsSound k) AreHeld-require_open

  Ready-refuse_full : {B : Type 0} (k : ℕ) → Keeps (Ready max runs k) (refuse_full {A = B})
  Ready-refuse_full k = Ready-both refuse_full (refuse_full-IsSound k) AreHeld-refuse_full

  Ready-acquire :
      Hoare (Ready max runs 0) acquire (λ b. Ready max runs (if b then 1 else 0)) (Ready max runs 0)
  Ready-acquire = Ready-both acquire acquire-IsSound AreHeld-acquire

  Ready-release : Hoare (Ready max runs 1) release (λ _. Ready max runs 0) (Ready max runs 0)
  Ready-release = Ready-both release release-IsSound AreHeld-release

  Ready-schedule :
      (j : Job) (b : Bool)
      → Hoare
          (Ready max runs (reserved b))
          (schedule j b)
          (λ _. Ready max runs 0)
          (Ready max runs (reserved b))
  Ready-schedule j b = Ready-both (schedule j b) (schedule-IsSound j b) (AreHeld-schedule j b)

  Ready-requeued : (j : Job) → Keeps (Ready max runs 0) (schedule j false)
  Ready-requeued j = Ready-schedule j false

  Ready-cancel_job :
      (run_id : String) (waiting : Bool) → Keeps (Ready max runs 0) (cancel_job run_id waiting)
  Ready-cancel_job run_id waiting =
      Ready-both (cancel_job run_id waiting)
        (Hoare-after _ (λ b s p. p) (λ s p. absurd p) (cancel_job-IsSound run_id waiting))
        (AreHeld-cancel_job run_id waiting)

  Ready-stop : Keeps (Ready max runs 0) stop
  Ready-stop = Ready-both stop stop-IsSound AreHeld-stop

  Ready-release_lease : Keeps (Ready max runs 0) release_lease
  Ready-release_lease = Ready-both release_lease release_lease-IsSound AreHeld-release_lease

module _ {A : Type 0} (max : ℕ) (runs : List String) (h : Host A) where
  -- What the commands keep.
  abbrev pub ReadyService : ℕ → Service A → Type 0
  ReadyService taken = OnScheduler (Ready max runs taken)

  store_and_schedule-Ready :
      (run : RunRecord)
      → Hoare (ReadyService 1) (store_and_schedule h run) (λ _. ReadyService 0) (ReadyService 1)
  unfolding store_and_schedule
  store_and_schedule-Ready run = Hoare-bind _ _ (OnScheduler-on_artifacts _) λ dir.
      Hoare-bind _ _ (OnScheduler-on_database _) λ _.
        Hoare-bind _ _ (OnScheduler-on_artifacts _) λ _.
          Hoare-bind _ _ (OnScheduler-trace h run _ _)
            λ _. OnScheduler-on_scheduler _ (Ready-schedule _ true)

  create_reserved-Ready :
      (run : RunRecord)
      → Hoare (ReadyService 1) (create_reserved h run) (λ _. ReadyService 0) (ReadyService 0)
  unfolding create_reserved
  create_reserved-Ready run =
      Hoare-bind _ _
        (Hoare-try _ _ (store_and_schedule-Ready run) λ e.
          Hoare-bind _ _ (OnScheduler-on_scheduler _ Ready-release) λ _. Hoare-throw e λ s p. p)
        λ _. OnScheduler-get_run h run.run_id

  pub create_run-Ready :
      (repo_path task : String) (base_ref : Option String) (auto_approve remote : Bool)
      → Keeps (ReadyService 0) (create_run h repo_path task base_ref auto_approve remote)
  unfolding create_run
  create_run-Ready repo_path task base_ref auto_approve remote =
      Hoare-bind _ _ (OnScheduler-on_scheduler _ (Ready-require_open 0)) λ _.
        Hoare-bind _ _ (Keeps-lift _) λ repository. Hoare-bind _ _ (Keeps-lift _) λ normalized_task.
          Hoare-bind _ _ (Keeps-lift _) λ normalized_ref.
            Hoare-bind _ _ (OnScheduler-on_scheduler _ Ready-acquire)
              λ acquired. granted repository normalized_task normalized_ref acquired
    where
      granted :
          (repository task : String) (base_ref : Option String) (acquired : Bool)
          → Hoare
              (OnScheduler (Ready max runs (if acquired then 1 else 0)))
              (if not acquired
                then on_scheduler refuse_full
                else (fresh_id h >>= λ run_id. utc_now h >>= λ now.
                    create_reserved h
                      (new_record h repository task base_ref auto_approve remote run_id now)))
              (λ _. ReadyService 0)
              (ReadyService 0)
      granted repository task base_ref true =
          Hoare-bind _ _ (OnScheduler-fresh_id h)
            λ run_id. Hoare-bind _ _ (OnScheduler-utc_now h) λ now. create_reserved-Ready _
      granted repository task base_ref false = OnScheduler-on_scheduler _ (Ready-refuse_full 0)

  pub decide-Ready :
      (run_id : String) (approves : Bool) (reason : Option String)
      → Keeps (ReadyService 0) (decide h run_id approves reason)
  unfolding decide wrong_state approve reject requeue
  decide-Ready run_id approves reason =
      search (publishing_rules, OnScheduler-on_scheduler, Ready-require_open 0, Ready-requeued)
        depth 20

  pub resume-Ready : (run_id : String) → Keeps (ReadyService 0) (resume h run_id)
  unfolding resume wrong_state requeue
  resume-Ready run_id =
      search (publishing_rules, OnScheduler-on_scheduler, Ready-require_open 0, Ready-requeued)
        depth 20

  publish_cancel-Ready :
      (active : Bool) (run : RunRecord) → Keeps (ReadyService 0) (publish_cancel h active run)
  unfolding publish_cancel
  publish_cancel-Ready true run = search publishing_rules depth 12
  publish_cancel-Ready false run = search publishing_rules depth 12

  pub cancel-Ready : (run_id : String) → Keeps (ReadyService 0) (cancel h run_id)
  unfolding cancel cancel_live
  cancel-Ready run_id =
      search
        (
          publishing_rules,
          OnScheduler-on_scheduler,
          Ready-require_open 0,
          Ready-cancel_job,
          publish_cancel-Ready,
        )
        depth 20

  pub begin_close-Ready : Keeps (ReadyService 0) (begin_close h)
  unfolding begin_close
  begin_close-Ready = OnScheduler-on_scheduler _ Ready-stop

  pub finish_close-Ready : Keeps (ReadyService 0) (finish_close h)
  unfolding finish_close publish_inflight_interrupted
  finish_close-Ready =
      search (publishing_rules, OnScheduler-on_scheduler, Ready-release_lease) depth 14
