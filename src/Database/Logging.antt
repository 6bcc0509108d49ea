-- ===== src/Database/Logging.antt =====
-- The event log of src/repo_agent/persistence.py: its numbering, and the pages that are read.
use agent_projects.Prelude.{
  ℕ, zero, suc, sym, ◌+◌, ◌≤◌, ◌<◌, String, ◌≡◌, refl, ap, ◌∙◌, subst, Bool, true, false, ◌&&◌,
  List, [], ◌∷◌, ◌++◌, map, arith, if◌then◌else◌, ltb, leb, length, length-append, take, drop,
  str_eq, eq_iff, Bool-cases, inl, inr,
}
use mathlib.Core.List.{append-nil}
use agent_projects.Errors.{ok, pure, raise, throw}
use agent_projects.Outcomes.{Detail, Value}
use agent_projects.Database.{
  Database, EventRow, has_run, max_event_sequence, max_event_page_size, latest_sequence,
  append_event, insert_by, order_by, where_true, rows_after, page_event, page_of, event_page,
  is_int_between, int_of, validate_event_cursor, missing_run,
}

abbrev pub is_of : String → EventRow → Bool
is_of run_id e = str_eq e.run_id run_id

-- The events of a run, in the order of the table.
abbrev pub log_of : String → Database → List EventRow
log_of run_id db = where_true (is_of run_id) db.events

-- The rows are numbered k + 1, k + 2, and so on.
abbrev pub AreNumbered : ℕ → List EventRow → Type 0
AreNumbered k [] = Unit {0}
AreNumbered k (e ∷ rest) = (e.sequence ≡ suc k) × AreNumbered (suc k) rest

-- What holds of a run's events: they are numbered from 1 without a gap in the order of the table,
-- and only a run that is stored has any.
pub record IsLogged (run_id : String) (db : Database) : Type 0 where
  pub numbered : AreNumbered 0 (log_of run_id db)
  pub top : latest_sequence run_id db.events ≡ length (log_of run_id db)
  pub owned : has_run run_id db ≡ false → log_of run_id db ≡ []

where_true-append :
    {A : Type 0} (p : A → Bool) (xs : List A) (x : A)
    → where_true p (xs ++ x ∷ []) ≡ where_true p xs ++ (if p x then x ∷ [] else [])
unfolding where_true
where_true-append p [] x = refl
where_true-append p (y ∷ xs) x = ground (arith, where_true-append p xs x)

where_true_both :
    {A : Type 0} (p q : A → Bool) (xs : List A)
    → where_true (λ x. p x && q x) xs ≡ where_true q (where_true p xs)
unfolding where_true
where_true_both p q [] = refl
where_true_both p q (x ∷ xs) = ground (arith, where_true_both p q xs)

AreNumbered-append :
    (k : ℕ) (xs : List EventRow) (x : EventRow)
    → AreNumbered k xs
    → x.sequence ≡ suc (k + length xs)
    → AreNumbered k (xs ++ x ∷ [])
AreNumbered-append k [] x v e = (omega arith, tt)
AreNumbered-append k (y ∷ xs) x v e = (v.0, AreNumbered-append (suc k) xs x v.1 (omega arith))

latest_sequence-append :
    (run_id : String) (rows : List EventRow) (x : EventRow)
    → x.run_id ≡ run_id
    → latest_sequence run_id rows < x.sequence
    → latest_sequence run_id (rows ++ x ∷ []) ≡ x.sequence
unfolding latest_sequence
latest_sequence-append run_id [] x same above = ground (arith, eq_iff x.run_id run_id)
latest_sequence-append run_id (y ∷ rows) x same above =
    ground (arith, latest_sequence-append run_id rows x)

latest_sequence-append_ne :
    (run_id : String) (rows : List EventRow) (x : EventRow)
    → is_of run_id x ≡ false
    → latest_sequence run_id (rows ++ x ∷ []) ≡ latest_sequence run_id rows
unfolding latest_sequence
latest_sequence-append_ne run_id [] x other = ground arith
latest_sequence-append_ne run_id (y ∷ rows) x other =
    ground (arith, latest_sequence-append_ne run_id rows x)

where_all :
    (k after : ℕ) (xs : List EventRow)
    → AreNumbered k xs
    → after ≤ k
    → where_true (λ e. ltb after e.sequence) xs ≡ xs
unfolding where_true
where_all k after [] v low = refl
where_all k after (x ∷ xs) v low =
    rw (where_all (suc k) after xs v.1 (omega arith)) (ground (arith, v.0))

-- The rows above a cursor are what is left after the first rows.
where_above :
    (k n : ℕ) (xs : List EventRow)
    → AreNumbered k xs
    → where_true (λ e. ltb (k + n) e.sequence) xs ≡ drop n xs
unfolding where_true
where_above k zero xs v = where_all k (k + 0) xs v (omega arith)
where_above k (suc n) [] v = refl
where_above k (suc n) (x ∷ xs) v =
    let skipped : ltb (k + suc n) x.sequence ≡ false = ground (arith, v.0) in
    let shift : k + suc n ≡ suc k + n = omega arith in
    rw skipped (
      subst (λ j. where_true (λ e. ltb j e.sequence) xs ≡ drop n xs) (sym shift)
        (where_above (suc k) n xs v.1))

where_above_cursor :
    (after : ℕ) (xs : List EventRow)
    → AreNumbered 0 xs
    → where_true (λ e. ltb after e.sequence) xs ≡ drop after xs
where_above_cursor after xs v =
    let same : 0 + after ≡ after = omega arith in
    subst (λ j. where_true (λ e. ltb j e.sequence) xs ≡ drop after xs) same
      (where_above 0 after xs v)

pub AreNumbered-drop :
    (k n : ℕ) (xs : List EventRow) → AreNumbered k xs → AreNumbered (k + n) (drop n xs)
AreNumbered-drop k zero xs v =
    let same : k ≡ k + 0 = omega arith in subst (λ j. AreNumbered j xs) same v
AreNumbered-drop k (suc n) [] v = tt
AreNumbered-drop k (suc n) (x ∷ xs) v =
    let shift : suc k + n ≡ k + suc n = omega arith in
    subst (λ j. AreNumbered j (drop n xs)) shift (AreNumbered-drop (suc k) n xs v.1)

order_by_numbered :
    (k : ℕ) (xs : List EventRow)
    → AreNumbered k xs
    → order_by (λ a b. leb a.sequence b.sequence) xs ≡ xs
unfolding order_by insert_by
order_by_numbered k [] v = refl
order_by_numbered k (x ∷ []) v = refl
order_by_numbered k (x ∷ y ∷ xs) v =
    let ordered : leb x.sequence y.sequence ≡ true = ground (arith, v.0, v.1.0) in
    rw (order_by_numbered (suc k) (y ∷ xs) v.1) (rw ordered refl)

-- The rows above a cursor, as a slice of the run's log.
pub rows_after-drop :
    (run_id : String) (after : ℕ) (db : Database)
    → IsLogged run_id db
    → rows_after run_id after db.events ≡ drop after (log_of run_id db)
unfolding rows_after
rows_after-drop run_id after db v =
    let log = log_of run_id db in
    rw (where_true_both (is_of run_id) (λ e. ltb after e.sequence) db.events) (
      rw (where_above_cursor after log v.numbered)
        (order_by_numbered (0 + after) (drop after log) (AreNumbered-drop 0 after log v.numbered)))

-- A page is a slice of the log: for a stored run whose events are numbered, and a cursor and a
-- limit within their bounds, `event_page` changes nothing and returns the events that follow the
-- first `after` ones, `limit` of them at most, in the order in which they were appended, with the
-- number of all events of the run as the latest sequence.
pub event_page-slice :
    (run_id : String) (after limit : ℕ) (db : Database)
    → IsLogged run_id db
    → has_run run_id db ≡ true
    → after ≤ max_event_sequence
    → 1 ≤ limit
    → limit ≤ max_event_page_size
    → event_page run_id (Value.integer after) (Value.integer limit) db ≡ (
      ok (record {
        events = map page_event (take limit (drop after (log_of run_id db)));
        latest_sequence = length (log_of run_id db);
      }),
      db,
    )
unfolding event_page page_of validate_event_cursor is_int_between int_of pure
event_page-slice run_id after limit db v stored low one high =
    let in_range : leb 0 after && leb after max_event_sequence ≡ true = ground arith in
    let allowed : leb 1 limit && leb limit max_event_page_size ≡ true = ground arith in
    rw in_range (rw allowed (rw stored (rw (rows_after-drop run_id after db v) (rw v.top refl))))

-- A row of the log, and the one that `append_event` inserts.
abbrev pub appended_row : String → Detail → String → ℕ → EventRow
appended_row run_id event now sequence = record {
  run_id = run_id;
  sequence = sequence;
  event = event;
  created_at = now;
}

abbrev new_row : String → Detail → String → Database → EventRow
new_row run_id event now db = record {
  run_id = run_id;
  sequence = latest_sequence run_id db.events + 1;
  event = event;
  created_at = now;
}

abbrev with_row : EventRow → Database → Database
with_row row db = record db { events = db.events ++ row ∷ [] }

append_inversion :
    (run_id : String) (event : Detail) (now : String) (db : Database) {sequence : ℕ}
    {db' : Database}
    → append_event run_id event now db ≡ (ok sequence, db')
    → (has_run run_id db ≡ true)
      × (sequence ≡ latest_sequence run_id db.events + 1)
      × (db' ≡ with_row (new_row run_id event now db) db)
unfolding append_event pure missing_run raise throw
append_inversion run_id event now db appended = elim (Bool-cases (has_run run_id db)) [
  | inl stored ↦ ground arith
  | inr missing ↦ ground arith
]

with_row-IsLogged_self :
    (row : EventRow) (db : Database)
    → IsLogged row.run_id db
    → has_run row.run_id db ≡ true
    → row.sequence ≡ suc (length (log_of row.run_id db))
    → IsLogged row.run_id (with_row row db)
unfolding has_run
with_row-IsLogged_self row db v stored next =
    let own : is_of row.run_id row ≡ true = (eq_iff row.run_id row.run_id).1 refl in
    let log = log_of row.run_id db in
    let grown : log_of row.run_id (with_row row db) ≡ log ++ row ∷ [] =
      rw (where_true-append (is_of row.run_id) db.events row) (rw own refl) in
    let len = length-append log (row ∷ []) in
    record {
      numbered =
          subst (AreNumbered 0) (sym grown)
            (AreNumbered-append 0 log row v.numbered (omega (arith, next)));
      top =
          latest_sequence-append row.run_id db.events row refl (omega (arith, v.top, next))
          ∙ omega (arith, next, len, ap length grown);
      owned = λ missing. ground (arith, stored, missing);
    }

with_row-IsLogged_ne :
    (row : EventRow) (run_id : String) (db : Database)
    → IsLogged run_id db
    → is_of run_id row ≡ false
    → IsLogged run_id (with_row row db)
unfolding has_run
with_row-IsLogged_ne row run_id db v other =
    let same : log_of run_id (with_row row db) ≡ log_of run_id db =
      rw (where_true-append (is_of run_id) db.events row) (rw other (append-nil _)) in
    record {
      numbered = subst (AreNumbered 0) (sym same) v.numbered;
      top = latest_sequence-append_ne run_id db.events row other ∙ v.top ∙ sym (ap length same);
      owned = λ missing. same ∙ v.owned missing;
    }

-- Appending adds one row to one log: if the events of every run are numbered from 1 without a gap,
-- only stored runs have any, and `append_event` succeeds, then it returns one more than the number
-- of events that the run had, the run's log is what it was with one row at its end, which holds the
-- event, that number and the time, and the log of every other run is what it was; the events of
-- every run are still numbered from 1 without a gap, and only stored runs have any.
pub append_event-IsLogged :
    (run_id other : String) (event : Detail) (now : String) (db : Database) {sequence : ℕ}
    {db' : Database}
    → ((id : String) → IsLogged id db)
    → append_event run_id event now db ≡ (ok sequence, db')
    → IsLogged other db'
      × (sequence ≡ suc (length (log_of run_id db)))
      × (log_of other db'
          ≡ log_of other db
            ++ (if str_eq run_id other then appended_row run_id event now sequence ∷ [] else []))
append_event-IsLogged run_id other event now db {sequence} v appended =
    let (stored, next, made) = append_inversion run_id event now db appended in
    let row = new_row run_id event now db in
    let top = (v run_id).top in
    let count : sequence ≡ suc (length (log_of run_id db)) = omega (arith, top, next) in
    (
      subst (IsLogged other) (sym made) (elim (Bool-cases (str_eq run_id other)) [
        | inl same ↦
            let e = (eq_iff run_id other).0 same in
            subst (λ id. IsLogged id (with_row row db)) e
              (with_row-IsLogged_self row db (v run_id) stored (omega (arith, top)))
        | inr different ↦ with_row-IsLogged_ne row other db (v other) different
      ]),
      count,
      subst
          (λ d.
            log_of other d
            ≡ log_of other db
              ++ (if str_eq run_id other then appended_row run_id event now sequence ∷ [] else []))
          (sym made)
          (subst
            (λ n.
              log_of other (with_row row db)
              ≡ log_of other db
                ++ (if str_eq run_id other then appended_row run_id event now n ∷ [] else []))
            (sym next) (where_true-append (is_of other) db.events row)),
    )
