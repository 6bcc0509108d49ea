-- ===== src/Database/Storing.antt =====
-- What src/repo_agent/persistence.py has of one run once it has read or stored it.
use agent_projects.Prelude.{
  String, ◌≡◌, refl, List, [], ◌∷◌, arith, str_eq, eq_iff, Bool-cases, Option-cases, inl, inr,
}
use agent_projects.Errors.{pure, raise, throw}
use agent_projects.Hoare.{Hoare, Keeps}
use agent_projects.RunModels.{RunRecord, PublicRunStatus}
use agent_projects.Outcomes.{Detail}
use agent_projects.Database.{
  Database, RunEntry, find_entry, has_run, get, put, update_entry, update_or_missing, column,
  missing_run, append_event,
}
use agent_projects.Database.Holding.{AllFit, Holds, find_entry-Fits, has_entry-update}

-- Reading a run gives a record of it, and storing a record leaves no other of its run.
abbrev pub Anything : Database → Type 0
Anything db = Unit {0}

pub get-run_id :
    (other : String) → Hoare Anything (get other) (λ run _. run.run_id ≡ other) Anything
unfolding get column missing_run pure raise throw
get-run_id other = record {
  at = λ db v. elim (Option-cases (find_entry other db.entries)) [
    | inl missing ↦ rw missing tt
    | inr (e, found) ↦
        rw found
          (find_entry-Fits other (λ st. Unit {0}) other db.entries e (any_fit db.entries) found).1
  ];
}
  where
    any_fit : (entries : List RunEntry) → AllFit other (λ st. Unit {0}) entries
    any_fit [] = tt
    any_fit (e ∷ entries) = (λ same. tt, any_fit entries)

AllFit-replaced :
    (C : PublicRunStatus → Type 0) (run : RunRecord) (entries : List RunEntry)
    → C run.status
    → AllFit run.run_id C
        (update_entry run.run_id (λ e. record e { run = run; updated_at = run.updated_at }) entries)
unfolding update_entry
AllFit-replaced C run [] c = tt
AllFit-replaced C run (e ∷ entries) c = elim (Bool-cases (str_eq e.run.run_id run.run_id)) [
  | inl here ↦ rw here (λ same. c, AllFit-replaced C run entries c)
  | inr later ↦ rw later (
    λ same. absurd (ground (arith, later, (eq_iff e.run.run_id run.run_id).1 same)),
    AllFit-replaced C run entries c,
  )
]

pub put-Holds :
    {R : Database → Type 0} (C : PublicRunStatus → Type 0) (run : RunRecord)
    → C run.status
    → Hoare R (put run) (λ _. Holds run.run_id C) R
unfolding put update_or_missing missing_run has_run pure raise throw
put-Holds C run c = record {
  at = λ db v. elim (Bool-cases (has_run run.run_id db)) [
    | inl there ↦ rw there (record {
      every = AllFit-replaced C run db.entries c;
      stored = has_entry-update run.run_id run.run_id _ db.entries (λ e same. refl) there;
    })
    | inr missing ↦ rw missing v
  ];
}

-- An event leaves the runs.
pub append_event-entries :
    (entries : List RunEntry) (run_id : String) (event : Detail) (now : String)
    → Keeps (λ db. db.entries ≡ entries) (append_event run_id event now)
unfolding append_event missing_run has_run pure raise throw
append_event-entries entries run_id event now = record {
  at = λ db v. elim (Bool-cases (has_run run_id db)) [
    | inl there ↦ rw there v
    | inr missing ↦ rw missing v
  ];
}
