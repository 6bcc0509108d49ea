-- ===== src/Database/Effects.antt =====
-- The memoized side effects of src/repo_agent/persistence.py, and its runs.
use agent_projects.Prelude.{
  String, ◌≡◌, refl, Bool, true, false, ◌&&◌, Option, none, some, List, [], ◌∷◌, ◌++◌, arith,
  if◌then◌else◌, str_eq, eq_iff, Bool-cases, inl, inr,
}
use agent_projects.Errors.{ok, pure, raise, throw, gets}
use agent_projects.Outcomes.{Detail}
use agent_projects.Database.{
  Database, RunEntry, EffectRow, find_entry, find_effect, record_side_effect, memoized,
  insert_effect, side_effect,
}

abbrev is_effect : String → String → EffectRow → Bool
is_effect run_id key e = str_eq e.run_id run_id && str_eq e.effect_key key

find_effect-append :
    (run_id key : String) (rows : List EffectRow) (e : EffectRow)
    → find_effect run_id key rows ≡ none
    → is_effect run_id key e ≡ true
    → find_effect run_id key (rows ++ e ∷ []) ≡ some e
unfolding find_effect
find_effect-append run_id key [] e fresh own = rw own refl
find_effect-append run_id key (d ∷ rows) e fresh own = elim (Bool-cases (is_effect run_id key d)) [
  | inl old ↦ absurd (ground (arith, old, fresh))
  | inr other ↦ rw other (find_effect-append run_id key rows e (rw other at fresh) own)
]

found_after :
    (e : EffectRow) (o : Option EffectRow) (stored : Detail) (db db' : Database) (fresh : Bool)
    → find_effect e.run_id e.effect_key db.effects ≡ o
    → memoized e o db ≡ (ok (fresh, stored), db')
    → (d : EffectRow) × (find_effect e.run_id e.effect_key db'.effects ≡ some d)
      × (d.result ≡ stored)
unfolding memoized insert_effect pure raise throw
found_after e none stored db db' fresh before memo =
    let own : is_effect e.run_id e.effect_key e ≡ true =
      ground (arith, eq_iff e.run_id e.run_id, eq_iff e.effect_key e.effect_key) in
    let later = find_effect-append e.run_id e.effect_key db.effects e before own in
    (e, ground (arith, later), ground arith)
found_after e (some old) stored db db' fresh before memo = (old, ground arith, ground arith)

-- Where a side effect is recorded, its result is the one that is found later.
recorded_lem :
    (run_id key : String) (result stored : Detail) (now : String) (db db' : Database) (fresh : Bool)
    → record_side_effect run_id key result now db ≡ (ok (fresh, stored), db')
    → (e : EffectRow) × (find_effect run_id key db'.effects ≡ some e) × (e.result ≡ stored)
unfolding record_side_effect
recorded_lem run_id key result stored now db db' fresh recorded =
    found_after _ (find_effect run_id key db.effects) stored db db' fresh refl recorded

-- A side effect is recorded once: after `record_side_effect` has returned, a later one for the
-- same run and key, whatever its result, says that it is not the first, returns the result of the
-- first and changes nothing, and `side_effect` returns that result too.
pub record_side_effect_once :
    (run_id key : String) (result stored : Detail) (now : String) (db db' : Database) (fresh : Bool)
    (result' : Detail) (now' : String)
    → record_side_effect run_id key result now db ≡ (ok (fresh, stored), db')
    → (record_side_effect run_id key result' now' db' ≡ (ok (false, stored), db'))
      × (side_effect run_id key db' ≡ (ok (some stored), db'))
unfolding record_side_effect memoized side_effect pure gets
record_side_effect_once run_id key result stored now db db' fresh result' now' recorded =
    let (e, found, same) = recorded_lem run_id key result stored now db db' fresh recorded in
    (rw found (rw same refl), rw found (rw same refl))

find_entry-append :
    (run_id : String) (entries : List RunEntry) (e : RunEntry)
    → find_entry run_id entries ≡ none
    → find_entry run_id (entries ++ e ∷ []) ≡ (if str_eq e.run.run_id run_id then some e else none)
unfolding find_entry
find_entry-append run_id [] e fresh = refl
find_entry-append run_id (d ∷ entries) e fresh = elim (Bool-cases (str_eq d.run.run_id run_id)) [
  | inl old ↦ absurd (ground (arith, old, fresh))
  | inr other ↦ rw other (find_entry-append run_id entries e (rw other at fresh))
]
