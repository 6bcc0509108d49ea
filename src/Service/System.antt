-- ===== src/Service/System.antt =====
-- RunService of src/repo_agent/service.py at work: its commands, its worker thread and the workflow
-- that the worker runs, interleaved. A step is what one of them does while it holds the locks; the
-- commands exclude one another, and `create_run` is one step.
pub mod Final
pub mod Reachable
use agent_projects.Prelude.{
  ℕ, String, ◌≡◌, Bool, true, false, ◌||◌, Option, none, some, List, [], ◌∷◌, if◌then◌else◌,
}
use agent_projects.Errors.{Result, Exec, ok, err}
use agent_projects.RunModels.{
  RunRecord, WorkflowNode, PublicRunStatus, status_eq, queued, interrupted,
}
use agent_projects.Outcomes.{Value, Detail}
use agent_projects.Database.{Database}
use agent_projects.Service.Queue.{Job, Scheduler, pop, finish, signal}
use agent_projects.Service.State.{Service, Host, on_scheduler}
use agent_projects.Service.Commands.{create_run, decide, resume, cancel, begin_close, finish_close}
use agent_projects.Service.Worker.{begin_job, checkpoint, publish_event, end_job}

-- Where the worker is in `_worker_main`: waiting, with a job that it has not begun, running its
-- workflow, in the `finally` after it returned or raised, or at its end.
pub data Phase : Type 0 where
  idle gone : Phase
  holding : Job → Phase
  executing leaving dying : String → Phase

-- The run that the worker is at.
abbrev pub held_by : Phase → List String
held_by idle = []
held_by gone = []
held_by (holding j) = j.run_id ∷ []
held_by (executing run_id) = run_id ∷ []
held_by (leaving run_id) = run_id ∷ []
held_by (dying run_id) = run_id ∷ []

pub record System (A : Type 0) : Type 0 where
  pub service : Service A
  pub worker : Phase

abbrev pub after_pop : Bool → Result (Option Job) → Phase
after_pop stopping (ok (some j)) = holding j
after_pop true (ok none) = gone
after_pop false (ok none) = idle
after_pop stopping (err e) = gone

abbrev pub after_begin : String → Result (Option RunRecord) → Phase
after_begin run_id (ok (some run)) = executing run_id
after_begin run_id (ok none) = leaving run_id
after_begin run_id (err e) = dying run_id

abbrev pub after_end : String → Result (Unit {0}) → Phase
after_end run_id (ok x) = leaving run_id
after_end run_id (err e) = dying run_id

-- What no workflow gives as its state.
abbrev pub is_outside : PublicRunStatus → Bool
is_outside status = status_eq status queued || status_eq status interrupted

abbrev pub does : {A B : Type 0} → Exec (Service A) B → System A → System A
does m s = record s { service = (m s.service).1 }

pub data Step {A : Type 0} (h : Host A) (s t : System A) : Type 0 where
  creates :
      (repo_path task : String) (base_ref : Option String) (auto_approve remote : Bool)
      → t ≡ does (create_run h repo_path task base_ref auto_approve remote) s
      → Step h s t
  decides :
      (run_id : String) (approves : Bool) (reason : Option String)
      → t ≡ does (decide h run_id approves reason) s
      → Step h s t
  resumes : (run_id : String) → t ≡ does (resume h run_id) s → Step h s t
  cancels : (run_id : String) → t ≡ does (cancel h run_id) s → Step h s t
  closes : t ≡ does (begin_close h) s → Step h s t
  wakes :
      s.worker ≡ idle
      → t ≡ record (does (on_scheduler pop) s) {
        worker = after_pop s.service.scheduler.stopping (on_scheduler {A = A} pop s.service).0;
      }
      → Step h s t
  begins :
      (j : Job)
      → s.worker ≡ holding j
      → t ≡ record (does (begin_job h j) s) {
        worker = after_begin j.run_id (begin_job h j s.service).0;
      }
      → Step h s t
  skips :
      (j : Job)
      → s.worker ≡ holding j
      → s.service.scheduler.stopping ≡ true
      → t ≡ record (does (on_scheduler (signal j.run_id)) s) { worker = leaving j.run_id }
      → Step h s t
  checkpoints :
      (run_id : String)
      → s.worker ≡ executing run_id
      → (run : RunRecord) (event : String) (at : Option WorkflowNode) (detail : Value)
      → is_outside run.status ≡ false
      → t ≡ does (checkpoint h run_id run event at detail) s
      → Step h s t
  publishes :
      (run_id : String)
      → s.worker ≡ executing run_id
      → (event : Detail) → t ≡ does (publish_event h run_id event) s
      → Step h s t
  ends :
      (run_id : String)
      → s.worker ≡ executing run_id
      → (outcome : Result RunRecord)
      → t ≡ record (does (end_job h run_id outcome) s) {
        worker = after_end run_id (end_job h run_id outcome s.service).0;
      }
      → Step h s t
  leaves :
      (run_id : String)
      → s.worker ≡ leaving run_id
      → t ≡ record (does (on_scheduler (finish run_id)) s) { worker = idle }
      → Step h s t
  dies :
      (run_id : String)
      → s.worker ≡ dying run_id
      → t ≡ record (does (on_scheduler (finish run_id)) s) { worker = gone }
      → Step h s t
  starts :
      s.worker ≡ gone
      → s.service.scheduler.stopping ≡ false
      → s.service.scheduler.lease_held ≡ true
      → t ≡ record s { worker = idle }
      → Step h s t
  finishes :
      s.worker ≡ gone
      → s.service.scheduler.stopping ≡ true
      → s.service.scheduler.lease_held ≡ true
      → t ≡ does (finish_close h) s
      → Step h s t

abbrev pub new_scheduler : ℕ → Scheduler
new_scheduler max_queue = record {
  max_queue = max_queue;
  queue = [];
  scheduled = [];
  slots = max_queue;
  cancel_events = [];
  stopping = false;
  lease_held = true;
}

-- A service as `__init__` leaves it, on any database and artifacts, and its worker not started.
abbrev pub new_system : {A : Type 0} → ℕ → Database → A → ℕ → System A
new_system max_queue database artifacts ticks = record {
  service = record {
    database = database;
    artifacts = artifacts;
    scheduler = new_scheduler max_queue;
    ticks = ticks;
  };
  worker = gone;
}

-- What the system reaches.
pub data Reach {A : Type 0} (h : Host A) (s : System A) : System A → Type 0 where
  start : Reach h s s
  next : {t u : System A} → Reach h s t → Step h t u → Reach h s u
