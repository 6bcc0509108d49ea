-- ===== src/Engine/Saving.antt =====
-- The triples of the reads and writes that the engine of src/repo_agent/workflow.py is made of.
use agent_projects.Prelude.{
  fmt, ◌⊎◌, Option-cases, ℕ, String, ◌≡◌, refl, sym, subst, some, [], ◌∷◌, arith, Bool-cases, inl,
  inr,
}
use agent_projects.Errors.{Exec, store_closed, run_not_found, ok, err, Exc, ◌>>=◌}
use agent_projects.RunModels.{WorkflowNode}
use agent_projects.Outcomes.{CheckpointPhase, WorkflowSnapshot}
use agent_projects.Checkpoints
use agent_projects.Checkpoints.{
  find_checkpoint, of_run, Store, RunRow, Save, find_run, checkpoint_of, max_sequence,
  snapshot_from_row,
}
use agent_projects.Checkpoints.Numbering.{find_run-run_id}
use agent_projects.Engine.World.{Host, load_run, on_store}
use agent_projects.Engine.Triple.{Assertion, Triple, Triple-on_store}
use agent_projects.Engine.Cursor.{Invariant, Live, row_of}

-- A read of the store under a precondition.
pub reads :
    {A : Type 0} {P E : Assertion} {Q : A → Assertion} (m : Exec Store A)
    → ((s : Store) → P s → E s)
    → ((s : Store) → P s → ((a : A) × (m s ≡ (ok a, s)) × Q a s) ⊎ ((e : Exc) × (m s ≡ (err e, s))))
    → Triple P (on_store m) Q E
reads {Q = Q} m weaken cases = Triple-on_store m (record {
  at = λ s p. elim (cases s p) [ inl (a, e, q) ↦ rw e q | inr (x, e) ↦ rw e (weaken s p) ];
})

-- Loading the run of a live snapshot returns it.
pub Triple-load-Live :
    (h : Host) (t : WorkflowSnapshot)
    → Triple (Live t) (load_run h t.run.run_id) (λ t' s. Live t s × (t' ≡ t)) (Live t)
unfolding load_run Checkpoints.load_run ◌>>=◌ row_of snapshot_from_row
Triple-load-Live h t =
    reads (Checkpoints.load_run t.run.run_id) (λ s l. l)
      λ s l. elim (Bool-cases s.closed) [
        | inl shut ↦ inr (
          record { kind = store_closed; message = "checkpoint store is closed" },
          ground (arith, l.current),
        )
        | inr opened ↦ inl (t, ground (arith, l.current), (l, refl))
      ]

-- Loading any run of a well placed store.
pub Triple-load :
    (h : Host) (run_id : String)
    → Triple Invariant (load_run h run_id) (λ t s. Live t s × (t.run.run_id ≡ run_id)) Invariant
unfolding load_run Checkpoints.load_run ◌>>=◌ row_of snapshot_from_row
Triple-load h run_id =
    reads (Checkpoints.load_run run_id) (λ s l. l)
      λ s inv. elim (Bool-cases s.closed) [
        | inl shut ↦
            inr
              (record { kind = store_closed; message = "checkpoint store is closed" }, ground arith)
        | inr opened ↦ elim (Option-cases (find_run run_id s.runs)) [
          | inl missing ↦ inr (
            record {
              kind = run_not_found;
              message = fmt ("run " ∷ run_id ∷ " does not exist" ∷ []);
            },
            ground arith,
          )
          | inr (row, found) ↦
              let p = find_run-run_id run_id s.runs row found in
              inl (
                snapshot_from_row row,
                ground arith,
                (
                  record {
                    invariant = inv;
                    current = subst (λ id. find_run id s.runs ≡ some row) (sym p) found;
                  },
                  p,
                ),
              )
        ]
      ]

-- Looking for a checkpoint changes nothing.
pub Triple-get_checkpoint :
    {P E : Assertion} (run_id : String) (node : WorkflowNode) (attempt : ℕ)
    (phase : CheckpointPhase)
    → ((s : Store) → P s → E s)
    → Triple P (on_store (Checkpoints.get_checkpoint run_id node attempt phase)) (λ _. P) E
unfolding Checkpoints.get_checkpoint ◌>>=◌
Triple-get_checkpoint run_id node attempt phase weaken =
    reads (Checkpoints.get_checkpoint run_id node attempt phase) weaken λ s p.
      elim (Bool-cases s.closed) [
        | inl shut ↦
            inr
              (record { kind = store_closed; message = "checkpoint store is closed" }, ground arith)
        | inr opened ↦
            inl (find_checkpoint run_id node attempt phase s.checkpoints, ground arith, p)
      ]

pub Triple-list_checkpoints :
    {P E : Assertion} (run_id : String)
    → ((s : Store) → P s → E s)
    → Triple P (on_store (Checkpoints.list_checkpoints run_id)) (λ _. P) E
unfolding Checkpoints.list_checkpoints Checkpoints.load_run ◌>>=◌
Triple-list_checkpoints run_id weaken = reads (Checkpoints.list_checkpoints run_id) weaken λ s p.
    elim (Bool-cases s.closed) [
      | inl shut ↦
          inr (record { kind = store_closed; message = "checkpoint store is closed" }, ground arith)
      | inr opened ↦ elim (Option-cases (find_run run_id s.runs)) [
        | inl missing ↦ inr (
          record { kind = run_not_found; message = fmt ("run " ∷ run_id ∷ " does not exist" ∷ []) },
          ground arith,
        )
        | inr (row, found) ↦ inl (of_run run_id s.checkpoints, ground arith, p)
      ]
    ]
