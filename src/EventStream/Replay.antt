-- ===== src/EventStream/Replay.antt =====
-- What the event stream of src/repo_agent/api.py sends of the log that is stored.
use agent_projects.Prelude.{
  ℕ, zero, suc, ◌+◌, ◌≤◌, ◌<◌, String, ◌≡◌, refl, sym, ap, ◌∙◌, false, Option, none, some, List, [],
  ◌∷◌, map, arith, ltb, ltb→lt, ltb→ge, length, if◌then◌else◌, drop, drop_all, take_all, Bool-cases,
  inl, inr,
}
use mathlib.Core.List.{map-append}
use agent_projects.Errors.{ok, pure, proceed, try_exception, try_except, handle, ◌>>=◌}
use agent_projects.Database.{RunEntry, EventRow, EventPage, page_event, max_event_sequence}
use agent_projects.Database.Logging.{log_of}
use agent_projects.Service.State.{Host, Service}
use agent_projects.PublicEvents.{event_state, event_stream_stopped}
use agent_projects.EventStream.{
  event_page_size, Sent, snapshot, sent_first, service_call, send, go_on, finish, caught_up, stream,
  start_stream, first_calls, open_stream, lease, requested_or_zero, is_reset, first_cursor,
  snapshot_id, run_events,
}
use agent_projects.EventStream.Pages.{
  sent_of, send_stale, last_word, ended-last_word, sent_first-append, after_cursor,
}
use agent_projects.EventStream.Reading.{
  IsServed, rows_at, page_at, rows_at-AreNumbered, length-rows_at, rows_at-beyond, get_run-entry,
  event_page-page_at, validated-page_at, next_page-page_at, validated-entry, next_record-entry,
  send-page_at, drop-page, last_page,
}

module _ {A : Type 0} (h : Host A) (run_id : String) (s : Service A) (entry : RunEntry)
    (o : IsServed h run_id s entry) where
  abbrev log : List EventRow
  log = log_of run_id s.database

  -- The stream at the end of the log.
  caught_up_end :
      (next : EventPage → Service A → Sent × Service A)
      → caught_up h next run_id (length log) entry.run s ≡ (last_word entry.run (length log), s)
  unfolding caught_up go_on finish
  caught_up_end next = elim (Bool-cases (event_stream_stopped entry.run.status)) [
    | inr going ↦ rw going refl
    | inl stopped ↦
        let nothing = rows_at-beyond h run_id s entry o (length log) (omega arith) in
        rw stopped
          (rw (next_page-page_at h run_id s entry o (length log) o.bounded) (rw nothing refl))
  ]

  stream-page_at :
      (fuel cursor : ℕ)
      → cursor ≤ length log
      → length log < fuel + cursor
      → stream fuel h run_id cursor (page_at h run_id s entry o cursor) s ≡ (
        sent_first (map (sent_of run_id) (drop cursor log)) (last_word entry.run (length log)),
        s,
      )
  unfolding stream go_on
  stream-page_at zero cursor low enough = absurd (omega arith)
  stream-page_at (suc fuel) cursor low enough =
      let last = cursor + length (rows_at h run_id s entry o cursor) in
      let word = last_word entry.run (length log) in
      let sent = map (sent_of run_id) (rows_at h run_id s entry o cursor) in
      rw (send-page_at h run_id s entry o cursor) (elim (Bool-cases (ltb last (length log))) [
        | inl more ↦
            let below = ltb→lt last (length log) more in
            let later =
              stream-page_at fuel last (omega arith)
                (omega (arith, length-rows_at h run_id s entry o cursor)) in
            rw more (
              rw (next_page-page_at h run_id s entry o last (omega (arith, o.bounded))) (
                rw later (
                  ap (λ m. (m, s))
                    (sent_first-append sent (map (sent_of run_id) (drop last log)) word
                      ∙ ap (λ m. sent_first m word)
                          (sym (
                              map-append (sent_of run_id) (rows_at h run_id s entry o cursor)
                                (drop last log))
                            ∙ ap (map (sent_of run_id))
                                (drop-page h run_id s entry o cursor below))))))
        | inr over ↦
            let (short, end) =
              last_page h run_id s entry o cursor low (ltb→ge last (length log) over) in
            let all = take_all event_page_size (drop cursor log) short in
            rw over (
              rw (next_record-entry h run_id s entry o) (
                rw end (
                  rw (caught_up_end (stream fuel h run_id (length log)))
                    (ap (λ rows. (sent_first (map (sent_of run_id) rows) word, s)) all))))
      ])

  -- A page that holds nothing new.
  stream-stale :
      (fuel cursor : ℕ)
      → send run_id (length log) (map page_event (rows_at h run_id s entry o cursor))
        ≡ ([], length log)
      → stream (suc fuel) h run_id (length log) (page_at h run_id s entry o cursor) s
        ≡ (last_word entry.run (length log), s)
  unfolding stream go_on
  stream-stale fuel cursor stale =
      let over : ltb (length log) (length log) ≡ false = ground arith in
      rw stale (
        rw over (
          rw (next_record-entry h run_id s entry o)
            (rw (caught_up_end (stream fuel h run_id (length log))) refl)))

  -- The stream from the cursor that the client's one gives.
  stream-requested :
      (requested : Option ℕ) (fuel : ℕ)
      → requested_or_zero requested ≤ max_event_sequence
      → length log < fuel
      → stream fuel h run_id
          (first_cursor requested (length log))
          (page_at h run_id s entry o (requested_or_zero requested))
          s
        ≡ (
          sent_first
              (map (sent_of run_id) (after_cursor requested log))
              (last_word entry.run (length log)),
          s,
        )
  stream-requested requested zero low enough = absurd (omega arith)
  stream-requested none (suc fuel) low enough = stream-stale fuel 0 (
      send_stale run_id 0 (length log) (rows_at h run_id s entry o 0)
        (rows_at-AreNumbered h run_id s entry o 0)
        (ground (arith, length-rows_at h run_id s entry o 0)))
  stream-requested (some cursor) (suc fuel) low enough =
      elim (Bool-cases (ltb (length log) cursor)) [
        | inl beyond ↦
            let nothing =
              rows_at-beyond h run_id s entry o cursor (omega (arith, ltb→lt _ _ beyond)) in
            let stale : send run_id (length log)
                  (map page_event (rows_at h run_id s entry o cursor))
                ≡ ([], length log) =
              rw nothing (send_stale run_id (length log) (length log) [] tt (omega arith)) in
            rw beyond (
              rw (stream-stale fuel cursor stale)
                (rw (drop_all cursor log (omega (arith, ltb→lt _ _ beyond))) refl))
        | inr within ↦
            rw within (stream-page_at (suc fuel) cursor (ltb→ge _ _ within) (omega arith))
      ]

  first_calls-entry :
      (requested : Option ℕ)
      → requested_or_zero requested ≤ max_event_sequence
      → first_calls h run_id requested s
        ≡ (ok (page_at h run_id s entry o (requested_or_zero requested), entry.run), s)
  unfolding first_calls service_call try_exception try_except handle ◌>>=◌ pure proceed
  first_calls-entry requested low =
      rw (event_page-page_at h run_id s entry o (requested_or_zero requested) low) (
        rw (validated-page_at h run_id s entry o (requested_or_zero requested))
          (rw (get_run-entry h run_id s entry o) (rw (validated-entry h run_id s entry o) refl)))

  -- The stream sends the rest of the log: where a slot is free, for a run whose id is well formed
  -- and which is stored and allowed, and whose events are numbered, at most 2^63 - 1 of them, while
  -- nothing is written, and whatever cursor a client names, up to 2^63 - 1, the stream sends the
  -- snapshot, with `reset` if and only if the cursor is beyond the latest sequence, and then exactly
  -- the public forms of the events that follow the cursor, each once and in their order, with their
  -- sequences as ids; without a cursor it sends none of them. If the run has ended, awaits approval
  -- or is interrupted, it then sends `done`, returns, and gives its slot back; otherwise it waits and
  -- keeps the slot. More rounds than there are events are enough.
  pub run_events_lem :
      (requested : Option ℕ) (fuel slots : ℕ)
      → requested_or_zero requested ≤ max_event_sequence
      → length log < fuel
      → run_events fuel h run_id requested (record { service = s; event_stream_slots = suc slots })
        ≡ (
          ok (
              sent_first
                (snapshot
                    (event_state entry.run (length log) (is_reset requested (length log)))
                    (snapshot_id requested (length log))
                  ∷ map (sent_of run_id) (after_cursor requested log))
                (last_word entry.run (length log))),
          record {
            service = s;
            event_stream_slots = if event_stream_stopped entry.run.status then suc slots else slots;
          },
        )
  unfolding run_events lease open_stream start_stream
  run_events_lem requested fuel slots low enough = rw o.named (
      rw (first_calls-entry requested low) (
        rw (stream-requested requested fuel low enough)
          (rw (ended-last_word entry.run (length log)) refl)))
