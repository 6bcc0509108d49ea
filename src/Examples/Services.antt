-- ===== src/Examples/Services.antt =====
-- A service whose database has one run that has ended, what it goes through, and its properties.
use agent_projects.Prelude.{
  ◌+◌, String, ◌≡◌, refl, Bool, true, false, Option, none, some, [], ◌∷◌, length, ltb, str_len, fmt,
  strip,
}
use agent_projects.Errors.{Exc, ok, err, pure, ◌>>=◌, runtime_error, validation_error}
use agent_projects.RunModels.{RunRecord, succeeded, running}
use agent_projects.Database.{find_entry, has_run, get, column}
use agent_projects.Service.Queue.{Job, Scheduler, queue_position, pop, cancel_job, is_set}
use agent_projects.Service.Queue.Sound.{AreDistinct}
use agent_projects.Service.Queue.Turns.{nth_job, queue_position-turn}
use agent_projects.Service.Queue.Holders.{holders}
use agent_projects.Service.State.{
  Service, Host, get_run, on_database, on_scheduler, exception_detail, validated_run_id,
  allowed_or_refuse, lift,
}
use agent_projects.Service.Commands.{create_run, cancel}
use agent_projects.Service.Worker.{end_job}
use agent_projects.Service.Publishing.{publish_stopped}
use agent_projects.Service.Stored.Publishing.{publish_stopped_lem}
use agent_projects.Database.Holding.{Holds}
use agent_projects.Service.Failing.{end_job-too_long}
use agent_projects.Service.System.{
  System, idle, Reach, start, next, starts, creates, wakes, cancels, does, new_system, held_by,
  after_pop,
}
use agent_projects.Service.System.Reachable.{scheduler_lem, guards_dead}
use agent_projects.Service.System.Final.{HasStatus, ended_lem}
use agent_projects.Examples.{id, final_run}
use agent_projects.Examples.Databases.{quiet, final_entry}

abbrev fresh_run_id : String
fresh_run_id = "fedcba9876543210fedcba9876543210"

-- A service whose surroundings refuse nothing.
abbrev pub surroundings : Host (Unit {0})
surroundings = record {
  now = λ n. "2026-01-01T00:00:00.000Z";
  new_id = λ n. fresh_run_id;
  is_hexadecimal = λ s. true;
  lower = λ s. s;
  validated_repo_path = λ s. ok s;
  record_is_allowed = λ r. true;
  initialize = λ run_id. pure run_id;
  write_record = λ run. pure tt;
  append_trace = λ run_id event. pure tt;
  write_report = λ run_id text. pure tt;
}

abbrev pub fresh : System (Unit {0})
fresh = new_system 2 quiet tt 0

-- The worker starts, a run is created, and the worker takes it.
abbrev started : System (Unit {0})
started = record fresh { worker = idle }

abbrev created : System (Unit {0})
created = does (create_run surroundings "/repo" "fix the bug" none false false) started

abbrev woken : System (Unit {0})
woken = record (does (on_scheduler pop) created) {
  worker =
      after_pop created.service.scheduler.stopping
        (on_scheduler {A = Unit {0}} pop created.service).0;
}

created_reached : Reach surroundings fresh created
created_reached =
    next (next start (starts refl refl refl refl))
      (creates "/repo" "fix the bug" none false false refl)

woken_reached : Reach surroundings fresh woken
woken_reached = next created_reached (wakes refl refl)

scheduler_lem_example :
    (woken.service.scheduler.scheduled ≡ woken.service.scheduler.queue)
    × AreDistinct woken.service.scheduler.queue
    × (woken.service.scheduler.slots + length woken.service.scheduler.queue ≡ 2)
    × (holders woken.service.scheduler ≡ held_by woken.worker)
scheduler_lem_example = scheduler_lem surroundings 2 quiet tt 0 woken woken_reached

guards_dead_example :
    ((o : Option Job) × ((pop created.service.scheduler).0 ≡ ok o))
    × ((run_id : String) (waiting : Bool)
        → (cancel_job run_id waiting created.service.scheduler).0 ≡ ok tt)
guards_dead_example = guards_dead surroundings 2 quiet tt 0 created created_reached

-- The run that has ended is cancelled, once another has been created.
abbrev later : System (Unit {0})
later = does (cancel surroundings id) created

later_reached : Reach surroundings fresh later
later_reached = next created_reached (cancels id refl)

fresh-HasStatus : HasStatus id succeeded fresh
unfolding has_run find_entry
fresh-HasStatus = record { every = (λ same. refl, tt); stored = refl }

ended_lem_example : HasStatus id succeeded later
ended_lem_example =
    ended_lem surroundings 2 quiet tt 0 fresh later id succeeded start refl fresh-HasStatus
      later_reached

-- Two runs wait.
abbrev pub first_job : Job
first_job = record { run_id = id; resumes = false }

abbrev pub second_job : Job
second_job = record { run_id = fresh_run_id; resumes = true }

abbrev pub busy : Scheduler
busy = record {
  max_queue = 2;
  queue = first_job ∷ second_job ∷ [];
  scheduled = first_job ∷ second_job ∷ [];
  slots = 0;
  cancel_events = [];
  stopping = false;
  lease_held = true;
}

busy_position : queue_position fresh_run_id busy ≡ some 2
unfolding queue_position
busy_position = refl

queue_position-turn_example : (j : Job) × (nth_job 1 busy ≡ some j) × (j.run_id ≡ fresh_run_id)
queue_position-turn_example =
    queue_position-turn fresh_run_id 1 busy
      (record { lockstep = refl; distinct = (refl, (refl, tt)); counted = refl }) refl busy_position

-- A workflow raises a message of more than 4000 characters.
abbrev twice : String → String
twice s = fmt (s ∷ s ∷ [])

abbrev long_message : String
long_message = twice (
    twice (
      twice (
        twice (
          twice
            (twice (twice "the workflow stopped with a message that is long, xxxxxxxxxxxxxx"))))))

abbrev long_failure : Exc
long_failure = record { kind = runtime_error; message = long_message }

abbrev running_run : RunRecord
running_run = record final_run { status = running; cancel_requested = false }

abbrev at_work : Service (Unit {0})
at_work = record fresh.service {
  database = record quiet { entries = record final_entry { run = running_run } ∷ [] };
}

at_work_found : get_run surroundings id at_work ≡ (ok running_run, at_work)
unfolding get_run get validated_run_id allowed_or_refuse on_database lift ◌>>=◌ find_entry pure
    column
at_work_found = refl

long_detail : ltb 4000 (str_len (exception_detail long_failure)) ≡ true
unfolding exception_detail strip fmt
long_detail = refl

not_cancelled : is_set id at_work.scheduler.cancel_events ≡ false
unfolding is_set
not_cancelled = refl

end_job-too_long_example : end_job surroundings id (err long_failure) at_work ≡ (
  err (record { kind = validation_error; message = "RunRecord" }),
  record at_work { ticks = 1 },
)
end_job-too_long_example =
    end_job-too_long surroundings id long_failure at_work running_run at_work_found not_cancelled
      refl long_detail

publish_stopped_lem_example :
    ((x : Unit {0}) (t : Service (Unit {0}))
      → publish_stopped surroundings final_run "workflow_stopped" [] fresh.service ≡ (ok x, t)
      → Holds id (λ st. st ≡ succeeded) t.database)
    × ((e : Exc) (t : Service (Unit {0}))
        → publish_stopped surroundings final_run "workflow_stopped" [] fresh.service ≡ (err e, t)
        → t.database.entries ≡ fresh.service.database.entries)
publish_stopped_lem_example =
    publish_stopped_lem surroundings final_run "workflow_stopped" [] fresh.service
