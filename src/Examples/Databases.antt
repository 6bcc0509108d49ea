-- ===== src/Examples/Databases.antt =====
-- A database with one run, its events and its stream, and their properties.
use agent_projects.Prelude.{
  str_eq, ◌++◌, if◌then◌else◌, ℕ, suc, ◌≤◌, String, ◌≡◌, refl, true, false, none, some, [], ◌∷◌,
  map, arith, length, take, drop,
}
use agent_projects.Errors.{ok, pure}
use agent_projects.Outcomes.{Value, Detail}
use agent_projects.Database.{
  Database, RunEntry, EventRow, find_entry, has_run, latest_sequence, append_event, event_page,
  where_true, page_event, find_effect, record_side_effect, side_effect,
}
use agent_projects.Database.Logging.{
  appended_row, IsLogged, log_of, event_page-slice, append_event-IsLogged,
}
use agent_projects.Database.Effects.{record_side_effect_once}
use agent_projects.Examples.{id, final_run}

abbrev pub final_entry : RunEntry
final_entry = record {
  run = final_run;
  engine_state = none;
  artifact_dir = "runs/one";
  created_at = "2026-01-01T00:00:00.000Z";
  updated_at = "2026-01-01T00:00:00.000Z";
}

-- No event yet.
abbrev pub quiet : Database
quiet = record { entries = final_entry ∷ []; events = []; effects = [] }

abbrev note : Detail
note = ("event", Value.text "note") ∷ []

abbrev event_at : ℕ → EventRow
event_at n = record {
  run_id = id;
  sequence = n;
  event = note;
  created_at = "2026-01-01T00:00:00.000Z";
}

-- Two events.
abbrev pub logged : Database
logged = record quiet { events = event_at 1 ∷ event_at 2 ∷ [] }

quiet-IsLogged : (run_id : String) → IsLogged run_id quiet
unfolding where_true latest_sequence
quiet-IsLogged run_id = record { numbered = tt; top = refl; owned = λ missing. refl }

pub logged-IsLogged : IsLogged id logged
unfolding where_true latest_sequence has_run find_entry
logged-IsLogged = record {
  numbered = (refl, (refl, tt));
  top = refl;
  owned = λ missing. ground (arith, missing);
}

logged_stored : has_run id logged ≡ true
unfolding has_run find_entry
logged_stored = refl

pub logged_bounded : length (log_of id logged) ≤ 9223372036854775807
unfolding where_true
logged_bounded = omega arith

event_page-slice_example : event_page id (Value.integer 1) (Value.integer 1) logged ≡ (
  ok (record {
    events = map page_event (take 1 (drop 1 (log_of id logged)));
    latest_sequence = length (log_of id logged);
  }),
  logged,
)
event_page-slice_example =
    event_page-slice id 1 1 logged logged-IsLogged logged_stored (omega arith) (omega arith)
      (omega arith)

abbrev once_logged : Database
once_logged = record quiet { events = event_at 1 ∷ [] }

first_appended : append_event id note "2026-01-01T00:00:00.000Z" quiet ≡ (ok 1, once_logged)
unfolding append_event has_run find_entry latest_sequence pure
first_appended = refl

append_event-IsLogged_example :
    IsLogged id once_logged
    × (1 ≡ suc (length (log_of id quiet)))
    × (log_of id once_logged
        ≡ log_of id quiet
          ++ (if str_eq id id then appended_row id note "2026-01-01T00:00:00.000Z" 1 ∷ [] else []))
append_event-IsLogged_example =
    append_event-IsLogged id id note "2026-01-01T00:00:00.000Z" quiet quiet-IsLogged first_appended

abbrev effected : Database
effected = record quiet {
  effects =
      record {
        run_id = id;
        effect_key = "key";
        result = note;
        created_at = "2026-01-01T00:00:00.000Z";
      }
      ∷ [];
}

recorded :
    record_side_effect id "key" note "2026-01-01T00:00:00.000Z" quiet ≡ (ok (true, note), effected)
unfolding record_side_effect find_effect has_run find_entry pure
recorded = refl

record_side_effect_once_example :
    (record_side_effect id "key" [] "2026-01-02T00:00:00.000Z" effected
      ≡ (ok (false, note), effected))
    × (side_effect id "key" effected ≡ (ok (some note), effected))
record_side_effect_once_example =
    record_side_effect_once id "key" note note "2026-01-01T00:00:00.000Z" quiet effected true []
      "2026-01-02T00:00:00.000Z" recorded
