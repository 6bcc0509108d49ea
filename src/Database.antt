-- ===== src/Database.antt =====
-- src/repo_agent/persistence.py: RunDatabase as its three tables. A method is one transaction,
-- which changes nothing where it raises. The columns hold the values whose JSON they are, and
-- `now` is the text that `utc_now()` returns.
pub mod Logging
pub mod Effects
pub mod Holding
pub mod Listing
pub mod TextOrder
pub mod Sorting
pub mod Storing
use agent_projects.Prelude.{
  ℕ, ◌+◌, String, ◌≡◌, Bool, true, false, not, ◌&&◌, ◌||◌, Option, none, some, List, [], ◌∷◌, ◌++◌,
  map, ltb, leb, ◌==◌, if◌then◌else◌, is_some, str_eq, decimal, fmt, any, take,
}
use agent_projects.Errors.{
  Exec, pure, raise, gets, ◌>>=◌, ◌>>◌, run_not_found, run_conflict, value_error,
}
use agent_projects.RunModels.{
  PublicRunStatus, RunRecord, status_eq, queued, planning, running, interrupted,
}
use agent_projects.Outcomes.{Value, Detail, detail_get}
use Prim.Native.Nat.{Ordering}
use Prim.Native.String.{compare}

-- A row of `runs`; its `run_id` is that of the record.
pub record RunEntry : Type 0 where
  pub run : RunRecord
  pub engine_state : Option Detail
  pub artifact_dir : String
  pub created_at : String
  pub updated_at : String

-- A row of `service_events`.
pub record EventRow : Type 0 where
  pub run_id : String
  pub sequence : ℕ
  pub event : Detail
  pub created_at : String

-- A row of `side_effects`.
pub record EffectRow : Type 0 where
  pub run_id : String
  pub effect_key : String
  pub result : Detail
  pub created_at : String

pub record Database : Type 0 where
  pub entries : List RunEntry
  pub events : List EventRow
  pub effects : List EffectRow

abbrev pub max_event_sequence : ℕ
max_event_sequence = 9223372036854775807

abbrev pub max_event_page_size : ℕ
max_event_page_size = 256

pub record EventPage : Type 0 where
  pub events : List Detail
  pub latest_sequence : ℕ

-- `SELECT … FROM runs WHERE run_id = ?`
unfoldable pub find_entry : String → List RunEntry → Option RunEntry
find_entry run_id [] = none
find_entry run_id (e ∷ rest) = if str_eq e.run.run_id run_id then some e else find_entry run_id rest

unfoldable pub has_run : String → Database → Bool
has_run run_id db = is_some (find_entry run_id db.entries)

missing_run : {A : Type 0} → String → Exec Database A
missing_run run_id = raise run_not_found (fmt ("run not found: " ∷ run_id ∷ []))

unfoldable pub create : RunRecord → String → Exec Database (Unit {0})
create run artifact_dir db =
    if has_run run.run_id db
    then raise run_conflict (fmt ("run already exists: " ∷ run.run_id ∷ [])) db
    else let row : RunEntry = record {
      run = run;
      engine_state = none;
      artifact_dir = artifact_dir;
      created_at = run.created_at;
      updated_at = run.updated_at;
    } in
      pure tt (record db { entries = db.entries ++ row ∷ [] })

-- A column of the row that `fetchone` returns, if there is one.
unfoldable pub column : {A : Type 0} → String → (RunEntry → A) → Option RunEntry → Exec Database A
unfolding missing_run
column run_id f none = missing_run run_id
column run_id f (some e) = pure (f e)

unfoldable pub get : String → Exec Database RunRecord
get run_id db = column run_id (λ e. e.run) (find_entry run_id db.entries) db

unfoldable pub artifact_dir : String → Exec Database String
artifact_dir run_id db = column run_id (λ e. e.artifact_dir) (find_entry run_id db.entries) db

-- `UPDATE runs SET … WHERE run_id = ?`
unfoldable pub update_entry : String → (RunEntry → RunEntry) → List RunEntry → List RunEntry
update_entry run_id f [] = []
update_entry run_id f (e ∷ rest) =
    (if str_eq e.run.run_id run_id then f e else e) ∷ update_entry run_id f rest

unfoldable pub update_or_missing : String → (RunEntry → RunEntry) → Exec Database (Unit {0})
unfolding missing_run
update_or_missing run_id f db =
    if has_run run_id db
    then pure tt (record db { entries = update_entry run_id f db.entries })
    else missing_run run_id db

unfoldable pub put : RunRecord → Exec Database (Unit {0})
unfolding update_or_missing
put run = update_or_missing run.run_id (λ e. record e { run = run; updated_at = run.updated_at })

unfoldable pub save_engine_state : String → Detail → String → Exec Database (Unit {0})
unfolding update_or_missing
save_engine_state run_id state now =
    update_or_missing run_id (λ e. record e { engine_state = some state; updated_at = now })

unfoldable pub load_engine_state : String → Exec Database (Option Detail)
load_engine_state run_id db = column run_id (λ e. e.engine_state) (find_entry run_id db.entries) db

-- `a <= b` on texts, as SQLite compares them.
unfoldable pub text_le : String → String → Bool
text_le a b = elim (compare a b) [ Ordering.gt ↦ false | _ ↦ true ]

-- `ORDER BY`, which keeps the order of the table among equals.
unfoldable pub insert_by : {A : Type 0} → (A → A → Bool) → A → List A → List A
insert_by before x [] = x ∷ []
insert_by before x (y ∷ ys) = if before x y then x ∷ y ∷ ys else y ∷ insert_by before x ys

unfoldable pub order_by : {A : Type 0} → (A → A → Bool) → List A → List A
unfolding insert_by
order_by before [] = []
order_by before (x ∷ xs) = insert_by before x (order_by before xs)

-- `WHERE`
unfoldable pub where_true : {A : Type 0} → (A → Bool) → List A → List A
where_true p [] = []
where_true p (x ∷ xs) = let rest = where_true p xs in if p x then x ∷ rest else rest

unfoldable pub status_in : Option (List PublicRunStatus) → RunEntry → Bool
status_in none e = true
status_in (some statuses) e = any (status_eq e.run.status) statuses

unfoldable pub list : Option (List PublicRunStatus) → Exec Database (List RunRecord)
unfolding order_by where_true
list statuses = gets λ db.
    map (λ e. e.run)
      (order_by (λ a b. text_le a.created_at b.created_at)
        (where_true (status_in statuses) db.entries))

-- `COALESCE(MAX(sequence), 0)` of one run's events.
unfoldable pub latest_sequence : String → List EventRow → ℕ
latest_sequence run_id [] = 0
latest_sequence run_id (e ∷ rest) =
    let m = latest_sequence run_id rest in
    if str_eq e.run_id run_id && ltb m e.sequence then e.sequence else m

unfoldable pub append_event : String → Detail → String → Exec Database ℕ
unfolding missing_run
append_event run_id event now db =
    if not (has_run run_id db)
    then missing_run run_id db
    else let sequence = latest_sequence run_id db.events + 1 in
      let row : EventRow = record {
        run_id = run_id;
        sequence = sequence;
        event = event;
        created_at = now;
      } in
      pure sequence (record db { events = db.events ++ row ∷ [] })

-- The run's events above a cursor, `ORDER BY sequence ASC`.
unfoldable pub rows_after : String → ℕ → List EventRow → List EventRow
unfolding order_by where_true
rows_after run_id after rows =
    order_by (λ a b. leb a.sequence b.sequence)
      (where_true (λ e. str_eq e.run_id run_id && ltb after e.sequence) rows)

unfoldable pub events : String → Exec Database (List Detail)
unfolding missing_run rows_after order_by where_true
events run_id db =
    if has_run run_id db
    then pure
        (map (λ e. e.event)
          (order_by (λ a b. leb a.sequence b.sequence)
            (where_true (λ e. str_eq e.run_id run_id) db.events)))
        db
    else missing_run run_id db

-- `d[key] = value`
unfoldable pub detail_set : Detail → String → Value → Detail
detail_set [] key value = (key, value) ∷ []
detail_set ((k, v) ∷ rest) key value =
    if str_eq k key then (k, value) ∷ rest else (k, v) ∷ detail_set rest key value

-- `d.setdefault(key, value)`
unfoldable pub detail_default : Detail → String → Value → Detail
detail_default d key value = if is_some (detail_get d key) then d else detail_set d key value

unfoldable pub page_event : EventRow → Detail
unfolding detail_set detail_default
page_event e =
    detail_default (detail_set e.event "sequence" (Value.integer e.sequence)) "timestamp"
      (Value.text e.created_at)

-- `type(value) is int and low <= value <= high`; a Boolean is no `int` here.
unfoldable pub is_int_between : ℕ → ℕ → Value → Bool
is_int_between low high (Value.integer n) = leb low n && leb n high
is_int_between low high _ = false

unfoldable pub int_of : Value → ℕ
int_of (Value.integer n) = n
int_of _ = 0

unfoldable pub page_of : String → ℕ → ℕ → Exec Database EventPage
unfolding missing_run rows_after page_event
page_of run_id after limit db =
    if has_run run_id db
    then pure
        (record {
          events = map page_event (take limit (rows_after run_id after db.events));
          latest_sequence = latest_sequence run_id db.events;
        })
        db
    else missing_run run_id db

-- `_validate_event_cursor` of service.py makes the same tests.
unfoldable pub validate_event_cursor :
    {A : Type 0} → Value → Value → Exec Database A → Exec Database A
validate_event_cursor after limit next =
    if not (is_int_between 0 max_event_sequence after)
    then raise value_error "after_sequence must be an integer from 0 to 2^63-1"
    else if not (is_int_between 1 max_event_page_size limit)
    then raise value_error
        (fmt ("limit must be an integer from 1 to " ∷ decimal max_event_page_size ∷ []))
    else next

unfoldable pub event_page : String → Value → Value → Exec Database EventPage
unfolding validate_event_cursor page_of is_int_between int_of
event_page run_id after limit =
    validate_event_cursor after limit (page_of run_id (int_of after) (int_of limit))

unfoldable pub find_effect : String → String → List EffectRow → Option EffectRow
find_effect run_id key [] = none
find_effect run_id key (e ∷ rest) =
    if str_eq e.run_id run_id && str_eq e.effect_key key
    then some e
    else find_effect run_id key rest

-- An insertion whose foreign key names no run is refused.
insert_effect : EffectRow → Exec Database (Bool × Detail)
insert_effect e db =
    if has_run e.run_id db
    then pure (true, e.result) (record db { effects = db.effects ++ e ∷ [] })
    else raise run_conflict "could not record side effect" db

memoized : EffectRow → Option EffectRow → Exec Database (Bool × Detail)
unfolding insert_effect
memoized e none = insert_effect e
memoized e (some old) = pure (false, old.result)

unfoldable pub record_side_effect :
    String → String → Detail → String → Exec Database (Bool × Detail)
unfolding memoized
record_side_effect run_id key result now db =
    memoized (record { run_id = run_id; effect_key = key; result = result; created_at = now })
      (find_effect run_id key db.effects) db

unfoldable pub side_effect : String → String → Exec Database (Option Detail)
side_effect run_id key =
    gets λ db. elim (find_effect run_id key db.effects) [ none ↦ none | some e ↦ some e.result ]

abbrev pub stopped_message : String
stopped_message = "Service stopped before the workflow reached a pause or terminal state"

-- The loop of `mark_inflight_interrupted`, whose n-th reading of the clock is `now n`.
unfoldable pub interrupt_all : (ℕ → String) → ℕ → List RunRecord → Exec Database ℕ
unfolding put
interrupt_all now n [] = pure n
interrupt_all now n (run ∷ rest) = do
  put (record run { status = interrupted; updated_at = now n; error = some stopped_message })
  interrupt_all now (n + 1) rest

unfoldable pub mark_inflight_interrupted : (ℕ → String) → Exec Database ℕ
unfolding list interrupt_all
mark_inflight_interrupted now = do
  runs ← list (some (queued ∷ planning ∷ running ∷ []))
  interrupt_all now 0 runs
