-- ===== src/EventStream/Reading.antt =====
-- The pages and the record that the stream of src/repo_agent/api.py reads of a run.
use agent_projects.Prelude.{
  ℕ, ◌+◌, ◌-◌, ◌≤◌, ◌<◌, String, ◌≡◌, refl, subst, true, false, ◌&&◌, some, List, [], ◌∷◌, ◌++◌,
  map, arith, ltb, leb, length, length-drop, length-take, take, drop, drop_all, take-append-drop,
  drop-drop, Bool-cases, inl, inr, str_eq,
}
use agent_projects.Errors.{ok, pure, ◌>>=◌}
use agent_projects.Database.{
  RunEntry, EventRow, EventPage, has_run, find_entry, get, column, page_event, max_event_sequence,
  validate_event_cursor, is_int_between,
}
use agent_projects.Database.Logging.{
  IsLogged, AreNumbered, AreNumbered-drop, log_of, event_page-slice,
}
use agent_projects.Service.State.{
  Host, Service, on_database, lift, validated_run_id, allowed_or_refuse, get_run,
}
use agent_projects.PublicEvents.Timestamps.{is_run_id}
use agent_projects.EventStream.{
  are_rising, is_empty, validated_event_page, event_page, next_page, validated_event_record,
  next_record, event_page_size, send,
}
use agent_projects.EventStream.Pages.{
  sent_of, are_rising-numbered, send-numbered, length-map, AreNumbered-take,
}

-- What a run is whose events may be streamed: its id has the form of one, the row is stored, its
-- repository is allowed, and its events are numbered, at most 2^63 - 1 of them.
pub record IsServed {A : Type 0} (h : Host A) (run_id : String) (s : Service A) (entry : RunEntry)
    : Type 0 where
  pub logged : IsLogged run_id s.database
  pub bounded : length (log_of run_id s.database) ≤ max_event_sequence
  pub named : is_run_id run_id ≡ true
  pub valid : validated_run_id h run_id ≡ ok run_id
  pub found : find_entry run_id s.database.entries ≡ some entry
  pub allowed : h.record_is_allowed entry.run ≡ true

le→leb : (a b : ℕ) → a ≤ b → leb a b ≡ true
le→leb a b h = ground arith

find_entry-run_id :
    (run_id : String) (entries : List RunEntry) (entry : RunEntry)
    → find_entry run_id entries ≡ some entry
    → str_eq entry.run.run_id run_id ≡ true
unfolding find_entry
find_entry-run_id run_id [] entry found = ground (arith, found)
find_entry-run_id run_id (e ∷ entries) entry found =
    elim (Bool-cases (str_eq e.run.run_id run_id)) [
      | inl here ↦ ground (arith, here, found)
      | inr later ↦ find_entry-run_id run_id entries entry (rw later at found)
    ]

module _ {A : Type 0} (h : Host A) (run_id : String) (s : Service A) (entry : RunEntry)
    (o : IsServed h run_id s entry) where
  -- The rows of the page that follows a cursor, and the page.
  abbrev pub rows_at : ℕ → List EventRow
  rows_at cursor = take event_page_size (drop cursor (log_of run_id s.database))

  abbrev pub page_at : ℕ → EventPage
  page_at cursor = record {
    events = map page_event (rows_at cursor);
    latest_sequence = length (log_of run_id s.database);
  }

  pub rows_at-AreNumbered : (cursor : ℕ) → AreNumbered cursor (rows_at cursor)
  rows_at-AreNumbered cursor =
      let same : 0 + cursor ≡ cursor = omega arith in
      let rest = drop cursor (log_of run_id s.database) in
      AreNumbered-take cursor event_page_size rest (
        subst (λ k. AreNumbered k rest) same
          (AreNumbered-drop 0 cursor (log_of run_id s.database) o.logged.numbered))

  pub length-rows_at :
      (cursor : ℕ)
      → length (rows_at cursor)
        ≡ (length (log_of run_id s.database) - cursor)
          - ((length (log_of run_id s.database) - cursor) - event_page_size)
  length-rows_at cursor = omega (
    arith,
    length-take event_page_size (drop cursor (log_of run_id s.database)),
    length-drop cursor (log_of run_id s.database),
  )

  -- There is nothing beyond the log.
  pub rows_at-beyond :
      (cursor : ℕ) → length (log_of run_id s.database) ≤ cursor → rows_at cursor ≡ []
  rows_at-beyond cursor beyond = rw (drop_all cursor (log_of run_id s.database) beyond) refl

  are_rising-rows_at :
      (cursor : ℕ)
      → are_rising cursor (length (log_of run_id s.database)) (map page_event (rows_at cursor))
        ≡ true
  unfolding are_rising
  are_rising-rows_at cursor = elim (Bool-cases (ltb cursor (length (log_of run_id s.database)))) [
    | inl before ↦
        are_rising-numbered cursor (length (log_of run_id s.database)) (rows_at cursor)
          (rows_at-AreNumbered cursor) (ground (arith, length-rows_at cursor))
    | inr beyond ↦ rw (rows_at-beyond cursor (ground arith)) refl
  ]

  not_missing :
      (cursor : ℕ)
      → (is_empty (map page_event (rows_at cursor))
          && ltb cursor (length (log_of run_id s.database)))
        ≡ false
  not_missing cursor = go (rows_at cursor) (length-rows_at cursor)
    where
      go :
          (rows : List EventRow)
          → length rows
            ≡ (length (log_of run_id s.database) - cursor)
              - ((length (log_of run_id s.database) - cursor) - event_page_size)
          → (is_empty (map page_event rows) && ltb cursor (length (log_of run_id s.database)))
            ≡ false
      go [] e = ground arith
      go (x ∷ rows) e = refl

  pub get_run-entry : get_run h run_id s ≡ (ok entry.run, s)
  unfolding get_run lift on_database get column allowed_or_refuse ◌>>=◌ pure
  get_run-entry = rw o.valid (rw o.found (rw o.allowed refl))

  pub event_page-page_at :
      (cursor : ℕ)
      → cursor ≤ max_event_sequence
      → event_page h run_id cursor s ≡ (ok (page_at cursor), s)
  unfolding event_page lift on_database validate_event_cursor is_int_between has_run ◌>>=◌ pure
  event_page-page_at cursor low =
      let in_range : leb 0 cursor && leb cursor max_event_sequence ≡ true = ground arith in
      let stored : has_run run_id s.database ≡ true = rw o.found refl in
      rw o.valid (
        rw in_range (
          rw get_run-entry (
            rw
              (event_page-slice run_id cursor event_page_size s.database o.logged stored low
                (omega arith) (omega arith))
              refl)))

  pub validated-page_at :
      (cursor : ℕ) → validated_event_page cursor (page_at cursor) s ≡ (ok (page_at cursor), s)
  unfolding validated_event_page pure
  validated-page_at cursor =
      let small : leb (length (log_of run_id s.database)) max_event_sequence ≡ true =
        le→leb _ _ o.bounded in
      let few : leb (length (map page_event (rows_at cursor))) event_page_size ≡ true =
        le→leb _ _ (omega (arith, length-rows_at cursor, length-map page_event (rows_at cursor))) in
      rw (small, few) (rw (are_rising-rows_at cursor, not_missing cursor) refl)

  pub next_page-page_at :
      (cursor : ℕ)
      → cursor ≤ max_event_sequence
      → next_page h run_id cursor s ≡ (ok (page_at cursor), s)
  unfolding next_page ◌>>=◌
  next_page-page_at cursor low = rw (event_page-page_at cursor low) (validated-page_at cursor)

  pub validated-entry : validated_event_record run_id entry.run s ≡ (ok entry.run, s)
  unfolding validated_event_record pure
  validated-entry = rw (find_entry-run_id run_id s.database.entries entry o.found) refl

  pub next_record-entry : next_record h run_id s ≡ (ok entry.run, s)
  unfolding next_record ◌>>=◌
  next_record-entry = rw get_run-entry validated-entry

  pub send-page_at :
      (cursor : ℕ)
      → send run_id cursor (map page_event (rows_at cursor))
        ≡ (map (sent_of run_id) (rows_at cursor), cursor + length (rows_at cursor))
  send-page_at cursor = send-numbered run_id cursor (rows_at cursor) (rows_at-AreNumbered cursor)

  -- The rest of the log after a page that is not the last.
  pub drop-page :
      (cursor : ℕ)
      → cursor + length (rows_at cursor) < length (log_of run_id s.database)
      → rows_at cursor ++ drop (cursor + length (rows_at cursor)) (log_of run_id s.database)
        ≡ drop cursor (log_of run_id s.database)
  drop-page cursor more =
      let log = log_of run_id s.database in
      let full : cursor + length (rows_at cursor) ≡ cursor + event_page_size =
        omega (arith, length-rows_at cursor, more) in
      rw (full, ← drop-drop event_page_size cursor log)
        (take-append-drop event_page_size (drop cursor log))

  -- The last page.
  pub last_page :
      (cursor : ℕ)
      → cursor ≤ length (log_of run_id s.database)
      → length (log_of run_id s.database) ≤ cursor + length (rows_at cursor)
      → (length (drop cursor (log_of run_id s.database)) ≤ event_page_size)
        × (cursor + length (rows_at cursor) ≡ length (log_of run_id s.database))
  last_page cursor low end =
      omega (arith, length-drop cursor (log_of run_id s.database), length-rows_at cursor)
