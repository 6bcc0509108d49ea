-- ===== src/EventStream.antt =====
-- The event stream of a run, `run_events` in src/repo_agent/api.py: what it sends before it first
-- waits for new events, or ends.
pub mod Pages
pub mod Reading
pub mod Replay
use agent_projects.Prelude.{
  ℕ, zero, suc, String, Bool, true, false, not, ◌&&◌, ◌||◌, Option, none, some, List, [], ◌∷◌, ◌++◌,
  ltb, leb, if◌then◌else◌, length, str_eq, is_one_of,
}
use agent_projects.Errors.{
  ErrorKind, queue_full, repository_not_allowed, run_not_found, invalid_run_transition, value_error,
  validation_error, repository_path_error, patch_validation_error, api_error, Result, Exec, ok, err,
  pure, raise, try_exception, proceed, ◌>>=◌, ◌>>◌,
}
use agent_projects.RunModels.{RunRecord}
use agent_projects.Outcomes.{Value, Detail, detail_get}
use agent_projects.Database
use agent_projects.Database.{EventPage, max_event_sequence, validate_event_cursor}
use agent_projects.Service.State.{Host, Service, on_database, lift, validated_run_id, get_run}
use agent_projects.PublicEvents.{EventState, event_state, event_stream_stopped, public_event}
use agent_projects.PublicEvents.Timestamps.{is_run_id}

abbrev pub event_page_size : ℕ
event_page_size = 64

-- A value that is an `int`, and not a negative one.
unfoldable pub as_count : Option Value → Option ℕ
as_count (some (Value.integer n)) = some n
as_count _ = none

-- `event.get("sequence")`
unfoldable pub sequence_in : Detail → Option ℕ
unfolding as_count
sequence_in event = as_count (detail_get event "sequence")

-- The loop of `_validated_event_page`: the sequences rise above `previous`, up to the latest one.
unfoldable pub are_rising : ℕ → ℕ → List Detail → Bool
unfolding sequence_in
are_rising previous latest [] = true
are_rising previous latest (event ∷ events) = elim (sequence_in event) as (λ _. Bool) [
  | none ↦ false
  | some n ↦ (leb 1 n && leb n latest && ltb previous n) && are_rising n latest events
]

abbrev is_empty : List Detail → Bool
is_empty [] = true
is_empty (event ∷ events) = false

unfoldable pub validated_event_page : {S : Type 0} → ℕ → EventPage → Exec S EventPage
unfolding are_rising
validated_event_page after page =
    if (leb page.latest_sequence max_event_sequence && leb (length page.events) event_page_size)
      && are_rising after page.latest_sequence page.events
      && not (is_empty page.events && ltb after page.latest_sequence)
    then pure page
    else raise api_error "The run service returned an invalid event page"

-- What `_service_call` makes of an Exception of the service; a class that ErrorKind does not name
-- counts as none of those that it tests for.
unfoldable pub api_message : ErrorKind → String
api_message queue_full = "The run service queue is full"
api_message repository_not_allowed = "repo_path is outside the configured allowed roots"
api_message run_not_found = "Run not found"
api_message invalid_run_transition = "The run state rejects this action"
api_message value_error = "The run state rejects this action"
api_message validation_error = "The run state rejects this action"
api_message repository_path_error = "The run state rejects this action"
api_message patch_validation_error = "The run state rejects this action"
api_message kind = "The run service failed"

-- `_service_call` of an operation other than `create` and `artifact`
unfoldable pub service_call : {S B : Type 0} → Exec S B → Exec S B
unfolding api_message
service_call m = try_exception m λ e. raise api_error (api_message e.kind)

-- `_validated_event_record`; `_run_payload` of a RunRecord has its fields.
unfoldable pub validated_event_record : {S : Type 0} → String → RunRecord → Exec S RunRecord
validated_event_record run_id run =
    if str_eq run.run_id run_id
    then pure run
    else raise api_error "The run service returned an invalid record"

module _ {A : Type 0} (h : Host A) where
  -- `RunService.event_page` with the API's limit
  unfoldable pub event_page : String → ℕ → Exec (Service A) EventPage
  event_page run_id after = do
    valid ← lift (validated_run_id h run_id)
    on_database
        (validate_event_cursor (Value.integer after) (Value.integer event_page_size) (pure after))
    get_run h valid
    on_database (Database.event_page valid (Value.integer after) (Value.integer event_page_size))

  -- The page that follows a cursor, and the record.
  unfoldable pub next_page : String → ℕ → Exec (Service A) EventPage
  unfolding event_page validated_event_page
  next_page run_id cursor = event_page run_id cursor >>= validated_event_page cursor

  unfoldable pub next_record : String → Exec (Service A) RunRecord
  unfolding validated_event_record
  next_record run_id = get_run h run_id >>= validated_event_record run_id

-- A message of the stream: its payload and its id. The first asks a client that has lost the stream
-- to wait for 1500 milliseconds.
pub data Message : Type 0 where
  snapshot : EventState → Option ℕ → Message
  progress : Detail → ℕ → Message
  done : EventState → ℕ → Message

-- How far the stream has come: it has returned, it waits for new events, an exception has ended
-- it, or its rounds are used up.
pub data Ending : Type 0 where
  returned waits cut_off out_of_fuel : Ending

pub record Sent : Type 0 where
  pub messages : List Message
  pub ending : Ending

abbrev pub sent_first : List Message → Sent → Sent
sent_first messages sent = record sent { messages = messages ++ sent.messages }

-- The `for` of `stream`: the progress messages sent, and the cursor then.
unfoldable pub send : String → ℕ → List Detail → List Message × ℕ
unfolding sequence_in
send run_id cursor [] = ([], cursor)
send run_id cursor (event ∷ events) = elim (sequence_in event) as (λ _. List Message × ℕ) [
  | none ↦ send run_id cursor events
  | some n ↦
      let (later, last) = send run_id n events in
      let skipped = send run_id cursor events in
      if leb n cursor then skipped else (progress (public_event run_id n event) n ∷ later, last)
]

module _ {A : Type 0} where
  -- A call of the service and what follows it; an exception ends the stream without a message.
  unfoldable pub go_on :
      {B : Type 0} → Result B × Service A → (B → Service A → Sent × Service A) → Sent × Service A
  go_on (ok b, s) next = next b s
  go_on (err e, s) next = (record { messages = []; ending = cut_off }, s)

  -- With the last page of a run that has stopped.
  unfoldable pub finish :
      (EventPage → Service A → Sent × Service A)
      → RunRecord
      → ℕ
      → EventPage
      → Service A
      → Sent × Service A
  finish next run cursor page s =
      if is_empty page.events
      then (
        record { messages = done (event_state run cursor false) cursor ∷ []; ending = returned },
        s,
      )
      else next page s

  -- With the record of a run whose events are all sent.
  unfoldable pub caught_up :
      Host A
      → (EventPage → Service A → Sent × Service A)
      → String
      → ℕ
      → RunRecord
      → Service A
      → Sent × Service A
  unfolding go_on finish
  caught_up h next run_id cursor run s =
      if event_stream_stopped run.status
      then go_on (next_page h run_id cursor s) (finish next run cursor)
      else (record { messages = []; ending = waits }, s)

  -- The `while` of `stream` on fuel, up to the first wait for new events.
  unfoldable pub stream : ℕ → Host A → String → ℕ → EventPage → Service A → Sent × Service A
  unfolding caught_up go_on
  stream zero h run_id cursor page s = (record { messages = []; ending = out_of_fuel }, s)
  stream (suc fuel) h run_id cursor page s =
      let (messages, last) = send run_id cursor page.events in
      let next = stream fuel h run_id last in
      let (sent, s') =
        if ltb last page.latest_sequence
        then go_on (next_page h run_id last s) next
        else go_on (next_record h run_id s) (caught_up h next run_id last) in
      (sent_first messages sent, s')

abbrev pub requested_or_zero : Option ℕ → ℕ
requested_or_zero none = 0
requested_or_zero (some n) = n

-- Whether the client's cursor is beyond the events, and the cursor from which the stream starts.
abbrev pub is_reset : Option ℕ → ℕ → Bool
is_reset none latest = false
is_reset (some cursor) latest = ltb latest cursor

abbrev pub first_cursor : Option ℕ → ℕ → ℕ
first_cursor none latest = latest
first_cursor (some cursor) latest = if ltb latest cursor then latest else cursor

abbrev pub snapshot_id : Option ℕ → ℕ → Option ℕ
snapshot_id none latest = some latest
snapshot_id (some cursor) latest = if ltb latest cursor then some latest else none

-- The API's state: the service, and the event streams that may still be opened.
pub record Api (A : Type 0) : Type 0 where
  pub service : Service A
  pub event_stream_slots : ℕ

abbrev pub has_ended : Ending → Bool
has_ended waits = false
has_ended _ = true

module _ {A : Type 0} where
  -- The response, and the slot: a stream that has ended gives it back.
  unfoldable pub start_stream :
      ℕ → Host A → String → Option ℕ → EventPage → RunRecord → ℕ → Service A → Result Sent × Api A
  unfolding stream
  start_stream fuel h run_id requested page run slots s =
      let latest = page.latest_sequence in
      let first =
        snapshot (event_state run latest (is_reset requested latest))
          (snapshot_id requested latest) in
      let (sent, s') = stream fuel h run_id (first_cursor requested latest) page s in
      (
        ok (sent_first (first ∷ []) sent),
        record {
          service = s';
          event_stream_slots = if has_ended sent.ending then suc slots else slots;
        },
      )

  -- The `try` of `run_events`, which holds one slot: `slots` are the others.
  unfoldable pub first_calls : Host A → String → Option ℕ → Exec (Service A) (EventPage × RunRecord)
  first_calls h run_id requested = do
    found ← service_call (event_page h run_id (requested_or_zero requested))
    page ← validated_event_page (requested_or_zero requested) found
    latest ← service_call (get_run h run_id)
    run ← validated_event_record run_id latest
    pure (page, run)

  unfoldable pub open_stream :
      ℕ
      → Host A
      → String
      → Option ℕ
      → ℕ
      → Result (EventPage × RunRecord) × Service A
      → Result Sent × Api A
  unfolding start_stream
  open_stream fuel h run_id requested slots (ok (page, run), s) =
      start_stream fuel h run_id requested page run slots s
  open_stream fuel h run_id requested slots (err e, s) =
      (err e, record { service = s; event_stream_slots = suc slots })

  unfoldable pub lease : ℕ → Host A → String → Option ℕ → ℕ → Service A → Result Sent × Api A
  unfolding first_calls open_stream
  lease fuel h run_id requested zero s =
      raise api_error "Too many live event streams"
        (record { service = s; event_stream_slots = zero })
  lease fuel h run_id requested (suc slots) s =
      open_stream fuel h run_id requested slots (first_calls h run_id requested s)

  -- `run_events`, with the client's cursor, which was validated.
  unfoldable pub run_events : ℕ → Host A → String → Option ℕ → Exec (Api A) Sent
  unfolding lease
  run_events fuel h run_id requested api =
      if is_run_id run_id
      then lease fuel h run_id requested api.event_stream_slots api.service
      else raise api_error "Run not found" api
