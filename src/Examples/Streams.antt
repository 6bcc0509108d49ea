-- ===== src/Examples/Streams.antt =====
-- The event stream of a run that has succeeded, and its property.
use agent_projects.Prelude.{◌≡◌, refl, some, ◌∷◌, map, arith, length, if◌then◌else◌, any_char}
use agent_projects.Errors.{ok}
use agent_projects.Database.{find_entry, where_true}
use agent_projects.Database.Logging.{log_of}
use agent_projects.Service.State.{Service, validated_run_id}
use agent_projects.PublicEvents.{event_state, event_stream_stopped}
use agent_projects.PublicEvents.Timestamps.{is_run_id}
use agent_projects.EventStream.{snapshot, sent_first, is_reset, snapshot_id, run_events}
use agent_projects.EventStream.Pages.{sent_of, last_word, after_cursor}
use agent_projects.EventStream.Reading.{IsServed}
use agent_projects.EventStream.Replay.{run_events_lem}
use agent_projects.Examples.{id, final_run}
use agent_projects.Examples.Databases.{logged, logged-IsLogged, logged_bounded, final_entry}
use agent_projects.Examples.Services.{surroundings, fresh}

abbrev streaming : Service (Unit {0})
streaming = record fresh.service { database = logged }

streaming-IsServed : IsServed surroundings id streaming final_entry
unfolding is_run_id any_char validated_run_id find_entry
streaming-IsServed = record {
  logged = logged-IsLogged;
  bounded = logged_bounded;
  named = refl;
  valid = refl;
  found = refl;
  allowed = refl;
}

run_events_lem_example :
    run_events 3 surroundings id (some 1) (record { service = streaming; event_stream_slots = 4 })
    ≡ (
      ok (
          sent_first
            (snapshot
                (event_state final_run
                  (length (log_of id logged))
                  (is_reset (some 1) (length (log_of id logged))))
                (snapshot_id (some 1) (length (log_of id logged)))
              ∷ map (sent_of id) (after_cursor (some 1) (log_of id logged)))
            (last_word final_run (length (log_of id logged)))),
      record {
        service = streaming;
        event_stream_slots = if event_stream_stopped final_run.status then 4 else 3;
      },
    )
unfolding where_true
run_events_lem_example =
    run_events_lem surroundings id streaming final_entry streaming-IsServed (some 1) 3 3
      (omega arith) (omega arith)
