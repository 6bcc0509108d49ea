-- ===== src/Checkpoints/Numbering.antt =====
-- The invariant that the two tables of src/repo_agent/checkpoints.py keep between transactions.
use agent_projects.Prelude.{
  ℕ, zero, suc, ◌+◌, ◌<◌, String, ◌≡◌, ◌≢◌, refl, ap, subst, none, some, List, [], ◌∷◌, ◌++◌, arith,
  length, length-append, map, str_eq, eq_iff, Bool-cases, inl, inr,
}
use agent_projects.Errors.{ok}
use agent_projects.Outcomes.{CheckpointResult, WorkflowCheckpoint, WorkflowSnapshot}
use agent_projects.Checkpoints.{
  Store, RunRow, Save, find_run, save_checkpoint, checkpoint_of, max_sequence, of_run,
}
use agent_projects.Checkpoints.Laws.{
  Commits, committed, committed_row, save_inversion, find_run-update_self, find_run-update_ne,
}

-- 1, 2, …, n
abbrev pub up_to : ℕ → List ℕ
up_to zero = []
up_to (suc n) = up_to n ++ suc n ∷ []

-- What holds of a run's row (if it has one) and its checkpoints: the version counts the
-- checkpoints, and these are numbered from 1 in the order of the table.
pub record IsNumbered (s : Store) (run_id : String) : Type 0 where
  pub counted :
      (row : RunRow)
      → find_run run_id s.runs ≡ some row
      → row.version ≡ length (of_run run_id s.checkpoints)
  pub owned : find_run run_id s.runs ≡ none → of_run run_id s.checkpoints ≡ []
  pub numbered :
      map (λ c. c.sequence) (of_run run_id s.checkpoints)
      ≡ up_to (length (of_run run_id s.checkpoints))
  pub top : max_sequence run_id s.checkpoints ≡ length (of_run run_id s.checkpoints)

of_run-append :
    (run_id : String) (cs : List WorkflowCheckpoint) (c : WorkflowCheckpoint)
    → c.run_id ≡ run_id
    → of_run run_id (cs ++ c ∷ []) ≡ of_run run_id cs ++ c ∷ []
unfolding of_run
of_run-append run_id [] c same = ground (arith, eq_iff c.run_id run_id)
of_run-append run_id (d ∷ cs) c same = ground (arith, of_run-append run_id cs c)

of_run-append_ne :
    (run_id : String) (cs : List WorkflowCheckpoint) (c : WorkflowCheckpoint)
    → c.run_id ≢ run_id
    → of_run run_id (cs ++ c ∷ []) ≡ of_run run_id cs
unfolding of_run
of_run-append_ne run_id [] c other = ground (arith, eq_iff c.run_id run_id)
of_run-append_ne run_id (d ∷ cs) c other = ground (arith, of_run-append_ne run_id cs c)

max_sequence-append :
    (run_id : String) (cs : List WorkflowCheckpoint) (c : WorkflowCheckpoint)
    → c.run_id ≡ run_id
    → max_sequence run_id cs < c.sequence
    → max_sequence run_id (cs ++ c ∷ []) ≡ c.sequence
unfolding max_sequence
max_sequence-append run_id [] c same above = ground (arith, eq_iff c.run_id run_id)
max_sequence-append run_id (d ∷ cs) c same above = ground (arith, max_sequence-append run_id cs c)

max_sequence-append_ne :
    (run_id : String) (cs : List WorkflowCheckpoint) (c : WorkflowCheckpoint)
    → c.run_id ≢ run_id
    → max_sequence run_id (cs ++ c ∷ []) ≡ max_sequence run_id cs
unfolding max_sequence
max_sequence-append_ne run_id [] c other = ground (arith, eq_iff c.run_id run_id)
max_sequence-append_ne run_id (d ∷ cs) c other = ground (arith, max_sequence-append_ne run_id cs c)

map_sequence-append :
    (cs : List WorkflowCheckpoint) (c : WorkflowCheckpoint)
    → map (λ x. x.sequence) (cs ++ c ∷ []) ≡ map (λ x. x.sequence) cs ++ c.sequence ∷ []
map_sequence-append [] c = refl
map_sequence-append (d ∷ cs) c = ap (λ xs. d.sequence ∷ xs) (map_sequence-append cs c)

pub find_run-run_id :
    (run_id : String) (runs : List RunRow) (row : RunRow)
    → find_run run_id runs ≡ some row
    → row.run.run_id ≡ run_id
unfolding find_run
find_run-run_id run_id [] row found = cc
find_run-run_id run_id (r ∷ rest) row found =
    ground (arith, find_run-run_id run_id rest row, eq_iff r.run.run_id run_id)

module _ (t : WorkflowSnapshot) (a : Save) (s : Store) where
  -- The run that is saved.
  committed-IsNumbered_self :
      {t' : WorkflowSnapshot} {s' : Store}
      → Commits t a s t' s'
      → IsNumbered s a.run.run_id
      → IsNumbered (committed t a s) a.run.run_id
  unfolding checkpoint_of
  committed-IsNumbered_self c v =
      let id = a.run.run_id in
      let cs = s.checkpoints in
      let new = checkpoint_of a (max_sequence id cs + 1) in
      let own = of_run-append id cs new refl in
      let found' =
        find_run-update_self (committed_row t a) t.version s.runs c.row c.found c.current in
      let len = length-append (of_run id cs) (new ∷ []) in
      record {
        counted = λ row found.
            rw own (ground (arith, len, v.counted c.row c.found, c.current, found, found'));
        owned = λ missing. ground (arith, found');
        numbered =
            rw (own, map_sequence-append (of_run id cs) new, len)
              (ground (arith, v.numbered, v.top));
        top =
            rw (own, len) (omega (arith, v.top, max_sequence-append id cs new refl (omega arith)));
      }

  -- Every other run.
  committed-IsNumbered_ne :
      (run_id : String)
      → a.run.run_id ≢ run_id
      → IsNumbered s run_id
      → IsNumbered (committed t a s) run_id
  unfolding checkpoint_of
  committed-IsNumbered_ne run_id ne v =
      let new = checkpoint_of a (max_sequence a.run.run_id s.checkpoints + 1) in
      let rest = of_run-append_ne run_id s.checkpoints new ne in
      let runs = find_run-update_ne (committed_row t a) t.version s.runs run_id ne in
      record {
        counted = λ row found. rw rest (v.counted row (rw runs at found));
        owned = λ missing. rw rest (v.owned (rw runs at missing));
        numbered = rw rest v.numbered;
        top = rw (rest, max_sequence-append_ne run_id s.checkpoints new ne) v.top;
      }

-- A save that succeeds keeps, for every run, the version equal to the number of its checkpoints
-- and the checkpoints numbered from 1 without a gap.
pub save-IsNumbered :
    (js : CheckpointResult → ℕ) (t : WorkflowSnapshot) (a : Save) (s : Store) (run_id : String)
    {t' : WorkflowSnapshot} {s' : Store}
    → save_checkpoint js t a s ≡ (ok t', s')
    → ((id : String) → IsNumbered s id)
    → IsNumbered s' run_id
save-IsNumbered js t a s run_id {t'} {s'} h v =
    let c = save_inversion js t a s h in
    rw c.store (elim (Bool-cases (str_eq a.run.run_id run_id)) [
      | inl same ↦
          let e = (eq_iff a.run.run_id run_id).0 same in
          subst (IsNumbered (committed t a s)) e
            (committed-IsNumbered_self t a s c (v a.run.run_id))
      | inr other ↦
          committed-IsNumbered_ne t a s run_id (λ e. ground (arith, eq_iff a.run.run_id run_id))
            (v run_id)
    ])
