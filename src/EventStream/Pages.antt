-- ===== src/EventStream/Pages.antt =====
-- How the stream of src/repo_agent/api.py reads a page of numbered rows.
use agent_projects.Prelude.{
  ◌++◌, if◌then◌else◌, ℕ, zero, suc, ◌+◌, ◌≤◌, String, ◌≡◌, refl, sym, ap, subst, true, false,
  Option, none, some, List, [], ◌∷◌, map, arith, is_some, ltb, leb, length, take, drop, str_eq,
  eq_iff, Bool-cases, inl, inr,
}
use agent_projects.Outcomes.{Value, Detail, detail_get}
use agent_projects.Database.{EventRow, page_event, detail_set, detail_default}
use agent_projects.Database.Logging.{AreNumbered}
use mathlib.Core.List.{append_assoc}
use agent_projects.RunModels.{RunRecord}
use agent_projects.PublicEvents.{public_event, event_state, event_stream_stopped}
use agent_projects.EventStream.{
  sequence_in, as_count, are_rising, send, Sent, Message, progress, done, returned, waits,
  sent_first, has_ended,
}

detail_get-set_self :
    (d : Detail) (key : String) (v : Value) → detail_get (detail_set d key v) key ≡ some v
unfolding detail_get detail_set
detail_get-set_self [] key v = ground (arith, eq_iff key key)
detail_get-set_self ((k, w) ∷ d) key v = ground (arith, eq_iff k key, detail_get-set_self d key v)

detail_get-set_ne :
    (d : Detail) (key other : String) (v : Value)
    → str_eq key other ≡ false
    → detail_get (detail_set d key v) other ≡ detail_get d other
unfolding detail_get detail_set
detail_get-set_ne [] key other v ne = rw ne refl
detail_get-set_ne ((k, w) ∷ d) key other v ne =
    ground (arith, eq_iff k key, eq_iff k other, eq_iff key other, detail_get-set_ne d key other v)

-- The sequence that a page writes into an event is the one that its reader finds.
sequence_in-page_event : (e : EventRow) → sequence_in (page_event e) ≡ some e.sequence
unfolding sequence_in page_event detail_default as_count
sequence_in-page_event e =
    let d = detail_set e.event "sequence" (Value.integer e.sequence) in
    let found = detail_get-set_self e.event "sequence" (Value.integer e.sequence) in
    elim (Bool-cases (is_some (detail_get d "timestamp"))) [
      | inl given ↦ rw given (rw found refl)
      | inr absent ↦ rw absent (
          rw (detail_get-set_ne d "timestamp" "sequence" (Value.text e.created_at) refl)
            (rw found refl))
    ]

-- What is sent of a row.
abbrev pub sent_of : String → EventRow → Message
sent_of run_id e = progress (public_event run_id e.sequence (page_event e)) e.sequence

pub are_rising-numbered :
    (k latest : ℕ) (rows : List EventRow)
    → AreNumbered k rows
    → k + length rows ≤ latest
    → are_rising k latest (map page_event rows) ≡ true
unfolding are_rising
are_rising-numbered k latest [] v fits = refl
are_rising-numbered k latest (e ∷ rows) v fits =
    let rest = are_rising-numbered (suc k) latest rows v.1 (omega arith) in
    let positive : leb 1 e.sequence ≡ true = ground (arith, v.0) in
    let within : leb e.sequence latest ≡ true = ground (arith, v.0) in
    let above : ltb k e.sequence ≡ true = ground (arith, v.0) in
    rw (sequence_in-page_event e, are_rising)
      (rw (positive, within, above)
        (subst (λ j. are_rising j latest (map page_event rows) ≡ true) (sym v.0) rest))

pub send-numbered :
    (run_id : String) (k : ℕ) (rows : List EventRow)
    → AreNumbered k rows
    → send run_id k (map page_event rows) ≡ (map (sent_of run_id) rows, k + length rows)
unfolding send
send-numbered run_id k [] v = let same : k ≡ k + 0 = omega arith in ap (λ n. ([], n)) same
send-numbered run_id k (e ∷ rows) v =
    let later = send-numbered run_id (suc k) rows v.1 in
    let fresh : leb e.sequence k ≡ false = ground (arith, v.0) in
    let rest =
      subst
        (λ j. send run_id j (map page_event rows) ≡ (map (sent_of run_id) rows, j + length rows))
        (sym v.0) later in
    let last : e.sequence + length rows ≡ k + suc (length rows) = omega (arith, v.0) in
    rw (sequence_in-page_event e, send)
      (rw fresh (rw rest (ap (λ n. (sent_of run_id e ∷ map (sent_of run_id) rows, n)) last)))

-- Events at or below the cursor are not sent.
pub send_stale :
    (run_id : String) (k cursor : ℕ) (rows : List EventRow)
    → AreNumbered k rows
    → k + length rows ≤ cursor
    → send run_id cursor (map page_event rows) ≡ ([], cursor)
unfolding send
send_stale run_id k cursor [] v stale = refl
send_stale run_id k cursor (e ∷ rows) v stale =
    let old : leb e.sequence cursor ≡ true = ground (arith, v.0) in
    rw (sequence_in-page_event e, send)
      (rw old (send_stale run_id (suc k) cursor rows v.1 (omega arith)))

-- What ends the messages of a stream whose events are all sent: `done` where the run has stopped.
abbrev pub last_word : RunRecord → ℕ → Sent
last_word run cursor =
    if event_stream_stopped run.status
    then record { messages = done (event_state run cursor false) cursor ∷ []; ending = returned }
    else record { messages = []; ending = waits }

pub ended-last_word :
    (run : RunRecord) (cursor : ℕ)
    → has_ended (last_word run cursor).ending ≡ event_stream_stopped run.status
ended-last_word run cursor = elim (Bool-cases (event_stream_stopped run.status)) [
  | inl stopped ↦ rw stopped refl
  | inr going ↦ rw going refl
]

pub sent_first-append :
    (xs ys : List Message) (sent : Sent)
    → sent_first xs (sent_first ys sent) ≡ sent_first (xs ++ ys) sent
sent_first-append xs ys sent =
    ap (λ m. record sent { messages = m }) (sym (append_assoc xs ys sent.messages))

-- What follows the cursor that a client names; a client that names none gets new events only.
abbrev pub after_cursor : Option ℕ → List EventRow → List EventRow
after_cursor none log = []
after_cursor (some cursor) log = drop cursor log

pub length-map : {A B : Type 0} (f : A → B) (xs : List A) → length (map f xs) ≡ length xs
length-map f [] = refl
length-map f (x ∷ xs) = ap suc (length-map f xs)

pub AreNumbered-take :
    (k n : ℕ) (rows : List EventRow) → AreNumbered k rows → AreNumbered k (take n rows)
AreNumbered-take k zero rows v = tt
AreNumbered-take k (suc n) [] v = tt
AreNumbered-take k (suc n) (e ∷ rows) v = (v.0, AreNumbered-take (suc k) n rows v.1)
