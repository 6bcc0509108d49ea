-- ===== src/Service/Failing.antt =====
-- What `_execute_job` in src/repo_agent/service.py does where a workflow raises.
use agent_projects.Prelude.{suc, String, ◌≡◌, refl, true, false, ltb, str_len}
use agent_projects.Errors.{Exc, ok, err, throw, gets, ◌>>=◌, try_except, validation_error}
use agent_projects.RunModels.{RunRecord}
use agent_projects.Service.Queue.{is_set}
use agent_projects.Service.State.{
  Service, Host, lift, utc_now, get_run, validated_copy, exception_detail,
}
use agent_projects.Service.Worker.{is_cancelled, publish_outcome, publish_failure, end_job}

module _ {A : Type 0} (h : Host A) where
  -- A failure that is too long to store is not recorded: where a workflow raises and the run is
  -- stored, allowed and not cancelled, but the exception's name and message take more than 4000
  -- characters, then the handler raises a validation error itself, and the database, with the
  -- status of the run, the artifacts and the scheduler are as they were.
  pub end_job-too_long :
      (run_id : String) (e : Exc) (s : Service A) (latest : RunRecord)
      → get_run h run_id s ≡ (ok latest, s)
      → is_set run_id s.scheduler.cancel_events ≡ false
      → latest.cancel_requested ≡ false
      → ltb 4000 (str_len (exception_detail e)) ≡ true
      → end_job h run_id (err e) s ≡ (
        err (record { kind = validation_error; message = "RunRecord" }),
        record s { ticks = suc s.ticks },
      )
  unfolding end_job publish_outcome publish_failure is_cancelled try_except throw gets lift utc_now
      ◌>>=◌ validated_copy
  end_job-too_long run_id e s latest found live kept long =
      rw found (rw live (rw kept (rw long refl)))
