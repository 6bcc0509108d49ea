-- ===== src/Database/Holding.antt =====
-- What holds of the stored status of one run while src/repo_agent/persistence.py changes others.
use agent_projects.Prelude.{
  String, ◌≡◌, refl, sym, ◌∙◌, subst, true, false, some, List, [], ◌∷◌, ◌++◌, arith, is_some,
  str_eq, eq_iff, Bool-cases, Option-cases, inl, inr,
}
use agent_projects.Errors.{pure, raise, throw}
use agent_projects.Hoare.{Hoare, Keeps}
use agent_projects.RunModels.{RunRecord, PublicRunStatus}
use agent_projects.Outcomes.{Detail}
use agent_projects.Database.{
  Database, RunEntry, find_entry, has_run, create, get, put, update_entry, update_or_missing,
  column, missing_run, append_event,
}

-- A record that meets the condition if it is of the run.
abbrev pub Fits : String → (PublicRunStatus → Type 0) → RunRecord → Type 0
Fits run_id C run = run.run_id ≡ run_id → C run.status

abbrev pub Every : {A : Type 0} → (A → Type 0) → List A → Type 0
Every P [] = Unit {0}
Every P (x ∷ xs) = P x × Every P xs

abbrev pub AllFit : String → (PublicRunStatus → Type 0) → List RunEntry → Type 0
AllFit run_id C = Every (λ e. Fits run_id C e.run)

-- The run is stored, with a status that meets the condition.
pub record Holds (run_id : String) (C : PublicRunStatus → Type 0) (db : Database) : Type 0 where
  pub every : AllFit run_id C db.entries
  pub stored : has_run run_id db ≡ true

module _ (run_id : String) (C : PublicRunStatus → Type 0) where
  pub find_entry-Fits :
      (other : String) (entries : List RunEntry) (e : RunEntry)
      → AllFit run_id C entries
      → find_entry other entries ≡ some e
      → Fits run_id C e.run × (e.run.run_id ≡ other)
  unfolding find_entry
  find_entry-Fits other [] e all found = absurd (ground arith)
  find_entry-Fits other (d ∷ entries) e all found = elim (Bool-cases (str_eq d.run.run_id other)) [
    | inl here ↦
        let same : d ≡ e = entry_inj d e (rw here at found) in
        subst (λ x. Fits run_id C x.run × (x.run.run_id ≡ other)) same
          (all.0, (eq_iff d.run.run_id other).0 here)
    | inr later ↦ find_entry-Fits other entries e all.1 (rw later at found)
  ]
    where
      entry_inj : (a b : RunEntry) → some a ≡ some b → a ≡ b
      entry_inj a b e = cc

  AllFit-append :
      (entries : List RunEntry) (e : RunEntry)
      → AllFit run_id C entries
      → Fits run_id C e.run
      → AllFit run_id C (entries ++ e ∷ [])
  AllFit-append [] e all fits = (fits, tt)
  AllFit-append (d ∷ entries) e all fits = (all.0, AllFit-append entries e all.1 fits)

  -- An update that leaves the run's id and whose records fit.
  AllFit-update :
      (other : String) (f : RunEntry → RunEntry) (entries : List RunEntry)
      → ((e : RunEntry) → e.run.run_id ≡ other → Fits run_id C (f e).run)
      → AllFit run_id C entries
      → AllFit run_id C (update_entry other f entries)
  unfolding update_entry
  AllFit-update other f [] new all = tt
  AllFit-update other f (e ∷ entries) new all = elim (Bool-cases (str_eq e.run.run_id other)) [
    | inl here ↦
        rw here
          (new e ((eq_iff e.run.run_id other).0 here), AllFit-update other f entries new all.1)
    | inr later ↦ rw later (all.0, AllFit-update other f entries new all.1)
  ]

has_entry-append :
    (run_id : String) (entries : List RunEntry) (e : RunEntry)
    → is_some (find_entry run_id entries) ≡ true
    → is_some (find_entry run_id (entries ++ e ∷ [])) ≡ true
unfolding find_entry
has_entry-append run_id [] e found = absurd (ground arith)
has_entry-append run_id (d ∷ entries) e found = ground (arith, has_entry-append run_id entries e)

pub has_entry-update :
    (run_id other : String) (f : RunEntry → RunEntry) (entries : List RunEntry)
    → ((e : RunEntry) → e.run.run_id ≡ other → (f e).run.run_id ≡ other)
    → is_some (find_entry run_id entries) ≡ true
    → is_some (find_entry run_id (update_entry other f entries)) ≡ true
unfolding find_entry update_entry
has_entry-update run_id other f [] same found = found
has_entry-update run_id other f (e ∷ entries) same found =
    elim (Bool-cases (str_eq e.run.run_id other)) [
      | inl here ↦
          let old = (eq_iff e.run.run_id other).0 here in
          let kept : (f e).run.run_id ≡ e.run.run_id = same e old ∙ sym old in
          rw here (rw kept (ground (arith, found, has_entry-update run_id other f entries same)))
      | inr later ↦ rw later (ground (arith, found, has_entry-update run_id other f entries same))
    ]

module _ {run_id : String} {C : PublicRunStatus → Type 0} where
  -- Storing a record that fits.
  pub Holds-put : (run : RunRecord) → Fits run_id C run → Keeps (Holds run_id C) (put run)
  unfolding put update_or_missing missing_run has_run pure raise throw
  Holds-put run fits = record {
    at = λ db v. elim (Bool-cases (has_run run.run_id db)) [
      | inl there ↦ rw there (record {
        every = AllFit-update run_id C run.run_id _ db.entries (λ e same. fits) v.every;
        stored = has_entry-update run_id run.run_id _ db.entries (λ e same. refl) v.stored;
      })
      | inr missing ↦ rw missing v
    ];
  }

  -- Only a new run can be created.
  pub Holds-create : (run : RunRecord) (dir : String) → Keeps (Holds run_id C) (create run dir)
  unfolding create has_run pure raise throw
  Holds-create run dir = record {
    at = λ db v. elim (Bool-cases (has_run run.run_id db)) [
      | inl there ↦ rw there v
      | inr fresh ↦ rw fresh (record {
        every = AllFit-append run_id C db.entries _ v.every (λ same.
            absurd (ground (arith, fresh, subst (λ i. has_run i db ≡ true) (sym same) v.stored)));
        stored = has_entry-append run_id db.entries _ v.stored;
      })
    ];
  }

  pub Holds-append_event :
      (other : String) (event : Detail) (now : String)
      → Keeps (Holds run_id C) (append_event other event now)
  unfolding append_event missing_run has_run pure raise throw
  Holds-append_event other event now = record {
    at = λ db v. elim (Bool-cases (has_run other db)) [
      | inl there ↦ rw there (record { every = v.every; stored = v.stored })
      | inr missing ↦ rw missing v
    ];
  }

  pub Holds-get :
      (other : String)
      → Hoare
          (Holds run_id C)
          (get other)
          (λ run db. Holds run_id C db × Fits run_id C run × (run.run_id ≡ other))
          (Holds run_id C)
  unfolding get column missing_run pure raise throw
  Holds-get other = record {
    at = λ db v. elim (Option-cases (find_entry other db.entries)) [
      | inl missing ↦ rw missing v
      | inr (e, found) ↦
          let (fits, same) = find_entry-Fits run_id C other db.entries e v.every found in
          rw found (v, fits, same)
    ];
  }

-- What a stored status meets, it meets at once.
pub Holds-both :
    (run_id : String) (C D : PublicRunStatus → Type 0) (db : Database)
    → Holds run_id C db
    → Holds run_id D db
    → (st : PublicRunStatus) × C st × D st
unfolding has_run
Holds-both run_id C D db v w = elim (Option-cases (find_entry run_id db.entries)) [
  | inl missing ↦ absurd (no_some (rw missing at v.stored))
  | inr (e, found) ↦
      let (fits, same) = find_entry-Fits run_id C run_id db.entries e v.every found in
      let (fits', _) = find_entry-Fits run_id D run_id db.entries e w.every found in
      (e.run.status, fits same, fits' same)
]
  where
    no_some : false ≡ true → ⊥
    no_some e = ground (arith, e)
