-- ===== src/Service/Queue.antt =====
-- The scheduler of src/repo_agent/service.py: the waiting queue with its bounded semaphore, and the
-- cancel events of the jobs that a worker holds. Each function is what one holder of the lock does.
pub mod Sound
pub mod Popping
pub mod Cancelling
pub mod Holders
pub mod Turns
use agent_projects.Prelude.{
  ℕ, zero, suc, ◌+◌, ◌-◌, String, Bool, true, false, not, ◌&&◌, ◌||◌, Option, none, some, List, [],
  ◌∷◌, ◌++◌, map, ltb, ◌==◌, if◌then◌else◌, is_some, str_eq, decimal, fmt, any, length,
}
use agent_projects.Errors.{
  Exec, pure, raise, throw, gets, ◌>>=◌, ◌>>◌, try_except, queue_full, invalid_run_transition,
  runtime_error, value_error,
}

-- `_QueuedRun`
pub record Job : Type 0 where
  pub run_id : String
  pub resumes : Bool

-- `max_queue` is the bound of `_pending_slots`, of which `slots` are free; `scheduled` is a
-- dictionary by run id in the order of insertion, and `cancel_events` has whether each is set.
pub record Scheduler : Type 0 where
  pub max_queue : ℕ
  pub queue : List Job
  pub scheduled : List Job
  pub slots : ℕ
  pub cancel_events : List (String × Bool)
  pub stopping : Bool
  pub lease_held : Bool

unfoldable pub same_flag : Bool → Bool → Bool
same_flag true b = b
same_flag false b = not b

unfoldable pub job_eq : Job → Job → Bool
unfolding same_flag
job_eq a b = str_eq a.run_id b.run_id && same_flag a.resumes b.resumes

abbrev pub is_for : String → Job → Bool
is_for run_id j = str_eq j.run_id run_id

unfoldable pub require_open : Exec Scheduler (Unit {0})
require_open s =
    (if s.stopping || not s.lease_held then raise runtime_error "RunService is closed" else pure tt)
      s

-- `_pending_slots.acquire(blocking=False)`
unfoldable pub acquire : Exec Scheduler Bool
acquire s = if s.slots == 0 then pure false s else pure true (record s { slots = s.slots - 1 })

-- `_pending_slots.release()` of a bounded semaphore.
unfoldable pub release : Exec Scheduler (Unit {0})
release s =
    if ltb s.slots s.max_queue
    then pure tt (record s { slots = s.slots + 1 })
    else raise value_error "Semaphore released too many times" s

full_message : ℕ → String
full_message n = fmt ("run queue is full (maximum " ∷ decimal n ∷ ")" ∷ [])

unfoldable pub refuse_full : {A : Type 0} → Exec Scheduler A
unfolding full_message
refuse_full s = raise queue_full (full_message s.max_queue) s

insert_job : Job → Exec Scheduler (Unit {0})
insert_job j s =
    if any (is_for j.run_id) s.scheduled
    then raise invalid_run_transition (fmt ("run is already scheduled: " ∷ j.run_id ∷ [])) s
    else pure tt (record s { scheduled = s.scheduled ++ j ∷ []; queue = s.queue ++ j ∷ [] })

abbrev release_unless : Bool → Exec Scheduler (Unit {0})
release_unless true = pure tt
release_unless false = release

-- `_schedule_open` once it has a slot.
schedule_acquired : Job → Bool → Exec Scheduler (Unit {0})
unfolding insert_job
schedule_acquired j slot_reserved =
    try_except (insert_job j) λ e. do release_unless slot_reserved; throw e

-- `_schedule`
unfoldable pub schedule : Job → Bool → Exec Scheduler (Unit {0})
unfolding schedule_acquired
schedule j slot_reserved = do
  require_open
  acquired ← if slot_reserved then pure true else acquire
  if acquired then schedule_acquired j slot_reserved else refuse_full

-- `_scheduled.pop(run_id, None)`: what is left, and what was there.
unfoldable pub find_job : String → List Job → Option Job
find_job run_id [] = none
find_job run_id (j ∷ jobs) = if is_for run_id j then some j else find_job run_id jobs

unfoldable pub drop_job : String → List Job → List Job
drop_job run_id [] = []
drop_job run_id (j ∷ jobs) = if is_for run_id j then jobs else j ∷ drop_job run_id jobs

-- `_queue.remove(job)`
unfoldable pub remove_job : Job → List Job → List Job
unfolding job_eq
remove_job j [] = []
remove_job j (k ∷ jobs) = if job_eq k j then jobs else k ∷ remove_job j jobs

unfoldable pub set_event : String → List (String × Bool) → List (String × Bool)
set_event run_id [] = []
set_event run_id ((k, b) ∷ rest) =
    (k, (if str_eq k run_id then true else b)) ∷ set_event run_id rest

unfoldable pub is_set : String → List (String × Bool) → Bool
is_set run_id [] = false
is_set run_id ((k, b) ∷ rest) = if str_eq k run_id then b else is_set run_id rest

unfoldable pub has_event : String → List (String × Bool) → Bool
has_event run_id [] = false
has_event run_id ((k, b) ∷ rest) = str_eq k run_id || has_event run_id rest

-- `_cancel_events.setdefault(run_id, threading.Event())`
unfoldable pub add_event : String → List (String × Bool) → List (String × Bool)
unfolding has_event
add_event run_id events = if has_event run_id events then events else events ++ (run_id, false) ∷ []

unfoldable pub drop_event : String → List (String × Bool) → List (String × Bool)
drop_event run_id [] = []
drop_event run_id ((k, b) ∷ rest) =
    if str_eq k run_id then rest else (k, b) ∷ drop_event run_id rest

is_that : Job → Option Job → Bool
unfolding job_eq
is_that j none = false
is_that j (some k) = job_eq k j

-- What `_worker_main` does with the head of the queue.
take_head : List Job → Exec Scheduler (Option Job)
unfolding is_that
take_head [] = pure none
take_head (j ∷ rest) = do
  found ← gets (λ s. find_job j.run_id s.scheduled)
  λ s. pure tt (record s { queue = rest; scheduled = drop_job j.run_id s.scheduled })
  if not (is_that j found)
      then raise runtime_error "waiting queue and scheduler state diverged"
      else do
        release
        λ s. pure (some j) (record s { cancel_events = add_event j.run_id s.cancel_events })

-- The lock-held part of `_worker_main`, woken: `none` where it goes on waiting, or returns.
unfoldable pub pop : Exec Scheduler (Option Job)
unfolding take_head
pop s = (if s.stopping then pure none else take_head s.queue) s

-- The `finally` of `_worker_main`.
unfoldable pub finish : String → Exec Scheduler (Unit {0})
finish run_id s = pure tt (record s { cancel_events = drop_event run_id s.cancel_events })

unfoldable pub signal : String → Exec Scheduler (Unit {0})
signal run_id s = pure tt (record s { cancel_events = set_event run_id s.cancel_events })

take_back : Option Job → Exec Scheduler (Unit {0})
unfolding job_eq
take_back none = pure tt
take_back (some j) = do
  λ s. pure tt (record s { scheduled = drop_job j.run_id s.scheduled })
  present ← gets (λ s. any (λ k. job_eq k j) s.queue)
  if not present
      then raise runtime_error "scheduled run is missing from the waiting queue"
      else do λ s. pure tt (record s { queue = remove_job j s.queue }); release

-- The lock-held part of `_cancel`; `waiting` is whether the run is stored as queued.
unfoldable pub cancel_job : String → Bool → Exec Scheduler (Unit {0})
unfolding take_back
cancel_job run_id waiting = do
  signal run_id
  found ← gets (λ s. find_job run_id s.scheduled)
  if waiting then take_back found else pure tt

-- `close`: what it does before it waits for the worker, and the end of the lease.
unfoldable pub stop : Exec Scheduler (Unit {0})
stop s =
    if s.lease_held
    then pure tt
        (record s { stopping = true; cancel_events = map (λ e. (e.0, true)) s.cancel_events })
    else pure tt s

unfoldable pub release_lease : Exec Scheduler (Unit {0})
release_lease s = pure tt (record s { lease_held = false })

-- `ServiceSnapshot`, of a worker that is alive or not.
pub record ServiceSnapshot : Type 0 where
  pub ready : Bool
  pub queue_depth : ℕ
  pub queue_capacity : ℕ
  pub active_count : ℕ
  pub max_concurrency : ℕ
  pub queued_run_ids : List String
  pub active_run_ids : List String

unfoldable pub scheduler_snapshot : Bool → Scheduler → ServiceSnapshot
scheduler_snapshot alive s = record {
  ready = not s.stopping && alive;
  queue_depth = length s.scheduled;
  queue_capacity = s.max_queue;
  active_count = length s.cancel_events;
  max_concurrency = 1;
  queued_run_ids = map (λ j. j.run_id) s.scheduled;
  active_run_ids = map (λ e. e.0) s.cancel_events;
}

-- The loop of `queue_position`.
unfoldable pub position_from : ℕ → String → List Job → Option ℕ
position_from n run_id [] = none
position_from n run_id (j ∷ jobs) =
    if is_for run_id j then some n else position_from (n + 1) run_id jobs

unfoldable pub queue_position : String → Scheduler → Option ℕ
unfolding position_from
queue_position run_id s = position_from 1 run_id s.scheduled
