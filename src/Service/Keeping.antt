-- ===== src/Service/Keeping.antt =====
-- What the methods of src/repo_agent/service.py keep of the scheduler, with rules for each part of
-- the service's state.
use agent_projects.Prelude.{ℕ, String, Bool, true, false, Option, none, some, List, [], ◌∷◌}
use agent_projects.Errors.{Result, Exec, Exc, ok, err}
use agent_projects.Hoare.{
  Ends, Hoare, Hoare-bind, Hoare-try, Keeps, Keeps-pure, Keeps-raise, Keeps-throw, Keeps-gets,
  Keeps-if, Keeps-try, Keeps-bind, keeps_rules,
}
use agent_projects.RunModels.{RunRecord, WorkflowNode}
use agent_projects.Outcomes.{Leaf, Value, Detail}
use agent_projects.Database.{Database}
use agent_projects.Service.Queue.{Job, Scheduler}
use agent_projects.Service.State.{
  Service, Host, on_database, on_artifacts, on_scheduler, lift, utc_now, fresh_id, get_run,
  allowed_or_refuse,
}
use agent_projects.Service.Publishing.{
  append_event, trace, write_report, publish_stopped, finish_cancelled, publish_interrupted,
}
use agent_projects.Service.Worker.{
  is_cancelled, begin_job, begin_found, start_job, now_or, now_if, checkpoint, publish_event,
  publish_final, publish_outcome, publish_failure, end_job,
}

-- A predicate on one part of the state.
pub record OnScheduler {A : Type 0} (R : Scheduler → Type 0) (s : Service A) : Type 0 where
  pub on : R s.scheduler

pub record OnDatabase {A : Type 0} (R : Database → Type 0) (s : Service A) : Type 0 where
  pub on : R s.database

module _ {A B : Type 0} {R : Scheduler → Type 0} where
  pub OnScheduler-on_database :
      (m : Exec Database B) → Keeps (OnScheduler {A = A} R) (on_database m)
  unfolding on_database
  OnScheduler-on_database m = record { at = λ s p. go (m s.database).0 (m s.database).1 s p }
    where
      go :
          (r : Result B) (d : Database) (s : Service A)
          → OnScheduler R s
          → Ends (λ _. OnScheduler R) (OnScheduler R) r (record s { database = d })
      go (ok a) d s p = record { on = p.on }
      go (err e) d s p = record { on = p.on }

  pub OnScheduler-on_artifacts : (m : Exec A B) → Keeps (OnScheduler {A = A} R) (on_artifacts m)
  unfolding on_artifacts
  OnScheduler-on_artifacts m = record { at = λ s p. go (m s.artifacts).0 (m s.artifacts).1 s p }
    where
      go :
          (r : Result B) (a : A) (s : Service A)
          → OnScheduler R s
          → Ends (λ _. OnScheduler R) (OnScheduler R) r (record s { artifacts = a })
      go (ok b) a s p = record { on = p.on }
      go (err e) a s p = record { on = p.on }

module _ {A B : Type 0} {R E : Scheduler → Type 0} {Q : B → Scheduler → Type 0} where
  pub OnScheduler-on_scheduler :
      (m : Exec Scheduler B)
      → Hoare R m Q E
      → Hoare (OnScheduler {A = A} R) (on_scheduler m) (λ b. OnScheduler (Q b)) (OnScheduler E)
  unfolding on_scheduler
  OnScheduler-on_scheduler m k = record {
    at = λ s p. go (m s.scheduler).0 (m s.scheduler).1 s (k.at s.scheduler p.on);
  }
    where
      go :
          (r : Result B) (q : Scheduler) (s : Service A)
          → Ends Q E r q
          → Ends (λ b. OnScheduler (Q b)) (OnScheduler E) r (record s { scheduler = q })
      go (ok b) q s p = record { on = p }
      go (err e) q s p = record { on = p }

module _ {A B : Type 0} {P : Service A → Type 0} where
  pub Keeps-lift : (r : Result B) → Keeps P (lift r)
  unfolding lift
  Keeps-lift r = record { at = λ s p. go r s p }
    where
      go : (r : Result B) (s : Service A) → P s → Ends (λ _. P) P r s
      go (ok a) s p = p
      go (err e) s p = p

-- Reading the clock never raises.
module _ {A : Type 0} {R : Scheduler → Type 0} {E : Service A → Type 0} (h : Host A) where
  pub OnScheduler-utc_now : Hoare (OnScheduler R) (utc_now h) (λ _. OnScheduler R) E
  unfolding utc_now
  OnScheduler-utc_now = record { at = λ s p. record { on = p.on } }

  pub OnScheduler-fresh_id : Hoare (OnScheduler R) (fresh_id h) (λ _. OnScheduler R) E
  unfolding fresh_id
  OnScheduler-fresh_id = record { at = λ s p. record { on = p.on } }

pub ruleset scheduler_rules = (
  keeps_rules, OnScheduler-on_database, OnScheduler-on_artifacts, Keeps-lift, OnScheduler-utc_now,
  OnScheduler-fresh_id,
)

module _ {A : Type 0} {R : Scheduler → Type 0} (h : Host A) where
  pub OnScheduler-trace :
      (run : RunRecord) (event : String) (detail : List (String × Leaf))
      → Keeps (OnScheduler R) (trace h run event detail)
  unfolding trace append_event
  OnScheduler-trace run event detail = search scheduler_rules

  pub OnScheduler-publish_stopped :
      (run : RunRecord) (event : String) (detail : List (String × Leaf))
      → Keeps (OnScheduler R) (publish_stopped h run event detail)
  unfolding publish_stopped write_report
  OnScheduler-publish_stopped run event detail = search (scheduler_rules, OnScheduler-trace)

  pub OnScheduler-finish_cancelled :
      (run : RunRecord) → Keeps (OnScheduler R) (finish_cancelled h run)
  unfolding finish_cancelled
  OnScheduler-finish_cancelled run = search (scheduler_rules, OnScheduler-publish_stopped)

  pub OnScheduler-get_run : (run_id : String) → Keeps (OnScheduler R) (get_run h run_id)
  unfolding get_run allowed_or_refuse
  OnScheduler-get_run run_id = search scheduler_rules

  pub OnScheduler-publish_interrupted :
      (runs : List RunRecord) (count : ℕ) → Keeps (OnScheduler R) (publish_interrupted h runs count)
  unfolding publish_interrupted
  OnScheduler-publish_interrupted [] count = search scheduler_rules
  OnScheduler-publish_interrupted (run ∷ runs) count =
      search (scheduler_rules, OnScheduler-publish_stopped, OnScheduler-publish_interrupted runs)

pub ruleset publishing_rules = (
  scheduler_rules, OnScheduler-trace, OnScheduler-publish_stopped, OnScheduler-finish_cancelled,
  OnScheduler-get_run, OnScheduler-publish_interrupted,
)

-- The worker's methods, and those of a workflow, do not touch the scheduler.
module _ {A : Type 0} {R : Scheduler → Type 0} (h : Host A) where
  pub OnScheduler-begin_job : (job : Job) → Keeps (OnScheduler R) (begin_job h job)
  unfolding begin_job is_cancelled begin_found now_or start_job
  OnScheduler-begin_job job = search (publishing_rules, found job) depth 14
    where
      now_or_keeps : (o : Option String) → Keeps (OnScheduler R) (now_or h o)
      now_or_keeps none = search publishing_rules
      now_or_keeps (some at) = search publishing_rules

      found : (job : Job) (o : Option RunRecord) → Keeps (OnScheduler R) (begin_found h job o)
      found job none = search publishing_rules
      found job (some run) = search (publishing_rules, now_or_keeps) depth 14

  pub OnScheduler-checkpoint :
      (run_id : String) (run : RunRecord) (event : String) (at : Option WorkflowNode)
      (detail : Value)
      → Keeps (OnScheduler R) (checkpoint h run_id run event at detail)
  unfolding checkpoint append_event
  OnScheduler-checkpoint run_id run event at detail = search publishing_rules depth 20

  pub OnScheduler-publish_event :
      (run_id : String) (event : Detail) → Keeps (OnScheduler R) (publish_event h run_id event)
  unfolding publish_event append_event
  OnScheduler-publish_event run_id event = search publishing_rules

  OnScheduler-publish_outcome :
      (run_id : String) (outcome : Result RunRecord)
      → Keeps (OnScheduler R) (publish_outcome h run_id outcome)
  unfolding publish_outcome is_cancelled publish_final now_if
  OnScheduler-publish_outcome run_id (err e) = search publishing_rules
  OnScheduler-publish_outcome run_id (ok outcome) = search (publishing_rules, now_if_keeps) depth 14
    where
      now_if_keeps : (b : Bool) → Keeps (OnScheduler R) (now_if h b)
      now_if_keeps true = search publishing_rules
      now_if_keeps false = search publishing_rules

  OnScheduler-publish_failure :
      (run_id : String) (e : Exc) → Keeps (OnScheduler R) (publish_failure h run_id e)
  unfolding publish_failure is_cancelled
  OnScheduler-publish_failure run_id e = search publishing_rules depth 14

  pub OnScheduler-end_job :
      (run_id : String) (outcome : Result RunRecord)
      → Keeps (OnScheduler R) (end_job h run_id outcome)
  unfolding end_job
  OnScheduler-end_job run_id outcome =
      Keeps-try _ _ (OnScheduler-publish_outcome run_id outcome)
        (OnScheduler-publish_failure run_id)
