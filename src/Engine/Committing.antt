-- ===== src/Engine/Committing.antt =====
-- `save_checkpoint` from the methods of src/repo_agent/workflow.py keeps the invariant.
use agent_projects.Prelude.{
  ℕ, ◌+◌, String, ◌≡◌, refl, sym, subst, ◌∙◌, ◌||◌, Option, none, some, arith, str_eq, eq_iff,
  Bool-cases, inl, inr,
}
use agent_projects.Errors.{Result, ok, err, pure, raise, validation_error, ◌>>=◌}
use agent_projects.RunModels.{RunMetrics, WorkflowNode, RunRecord}
use agent_projects.Outcomes.{
  CheckpointPhase, CheckpointResult, WorkflowCheckpoint, WorkflowSnapshot,
}
use agent_projects.Checkpoints
use agent_projects.Checkpoints.{
  find_checkpoint, of_run, Store, RunRow, Save, find_run, checkpoint_of, max_sequence,
  snapshot_from_row,
}
use agent_projects.Checkpoints.Laws.{
  Commits, committed, committed_row, save_inversion, save_error, find_run-update_self,
  find_run-update_ne,
}
use agent_projects.Engine.World.{Host, now, save_checkpoint}
use agent_projects.Engine.Records.{
  within_limits, timed, stripped, updated_record, model_validate, save_for_node,
}
use agent_projects.Engine.Triple.{
  Triple-pure, Triple-if, Triple-raise, Assertion, Meets, Triple, Triple-bind, Triple-now,
  Triple-on_store, Triple-weaken_post,
}
use agent_projects.Engine.Cursor.{
  decides, approves, approved, Cursor, Invariant, Live, row_of, Refreshes, Cursor-or,
  Cursor-refresh, approved-append,
}

-- What an advanced snapshot has to do with the one before.
abbrev pub Advanced : WorkflowSnapshot → WorkflowSnapshot → Assertion
Advanced t t' s = Live t' s × (t'.run.run_id ≡ t.run.run_id)

-- The same, with the new cursor.
abbrev pub Moved : WorkflowSnapshot → Option WorkflowNode → WorkflowSnapshot → Assertion
Moved t next t' s = Live t' s × (t'.run.run_id ≡ t.run.run_id) × (t'.next_node ≡ next)

timed_same :
    (h : Host) (t : String) (o : Option String) (m : RunMetrics)
    → ((timed h t o m).repair_attempts ≡ m.repair_attempts)
      × ((timed h t o m).review_repairs ≡ m.review_repairs)
unfolding timed
timed_same h t none m = (refl, refl)
timed_same h t (some s) m = (refl, refl)

module _ {P E : Assertion} (h : Host) (r : RunRecord) where
  Triple-model_validate :
      (r' : RunRecord)
      → ((s : Store) → P s → E s)
      → Refreshes r r'
      → Triple P (model_validate h r') (λ v s. P s × Refreshes r v) E
  unfolding model_validate
  Triple-model_validate r' weaken f =
      Triple-if (within_limits (stripped h r')) (pure (stripped h r'))
        (raise validation_error "RunRecord")
        (λ _. Triple-pure (stripped h r') λ s p. (
          p,
          record {
            run_id = f.run_id;
            status = f.status;
            checks = f.checks;
            repairs = f.repairs;
            review_repairs = f.review_repairs;
          },
        ))
        (λ _. Triple-raise validation_error "RunRecord" weaken)

  -- `updated_record` changes nothing that the invariant reads.
  pub Triple-updated_record :
      ((s : Store) → P s → E s) → Triple P (updated_record h r) (λ r' s. P s × Refreshes r r') E
  unfolding updated_record
  Triple-updated_record weaken = Triple-bind (now h) _ (Triple-now h) λ t.
      let (same, same') = timed_same h t r.started_at r.metrics in
      Triple-model_validate _ weaken (record {
        run_id = refl;
        status = refl;
        checks = refl;
        repairs = same;
        review_repairs = same';
      })

-- The cursor of every run after a commit.
module _ (t : WorkflowSnapshot) (a : Save) (s : Store) {t' : WorkflowSnapshot} {s' : Store} where
  committed-at :
      Commits t a s t' s'
      → Invariant s
      → Cursor
          (approved a.run.run_id s.checkpoints || decides a.node a.phase a.result)
          a.run
          a.next_node
      → (run_id : String) (row : RunRow) → find_run run_id (committed t a s).runs ≡ some row
      → (c : WorkflowCheckpoint) → c ≡ checkpoint_of a (max_sequence a.run.run_id s.checkpoints + 1)
      → Cursor (approved run_id s.checkpoints || approves run_id c) row.run row.next_node
  unfolding checkpoint_of
  committed-at c inv new run_id row found cp e = elim (Bool-cases (str_eq a.run.run_id run_id)) [
    | inl same ↦
        let p = (eq_iff a.run.run_id run_id).0 same in
        let here =
          find_run-update_self (committed_row t a) t.version s.runs c.row c.found c.current in
        let q : row ≡ committed_row t a = ground (arith, here, p) in rw (e, q, same, ← p) new
    | inr other ↦ Cursor-or _ _ row.next_node (
        inv.at run_id row (
          ground (
            arith,
            found,
            eq_iff a.run.run_id run_id,
            find_run-update_ne (committed_row t a) t.version s.runs run_id,
          )))
  ]

  committed-Live :
      Commits t a s t' s'
      → Live t s
      → Cursor
          (approved a.run.run_id s.checkpoints || decides a.node a.phase a.result)
          a.run
          a.next_node
      → Moved t a.next_node t' s'
  unfolding row_of snapshot_from_row
  committed-Live c l new =
      rw (c.snapshot, c.store)
        (
          record {
            invariant = record {
              at = λ run_id row found.
                  rw approved-append (committed-at c l.invariant new run_id row found _ refl);
            };
            current =
                find_run-update_self (committed_row t a) t.version s.runs c.row c.found c.current;
          },
          c.same_run,
          refl,
        )

module _ (h : Host) (t : WorkflowSnapshot) where
  abbrev Placed : Save → Assertion
  Placed a s =
      Live t s
      × Cursor (approved a.run.run_id s.checkpoints || decides a.node a.phase a.result) a.run
          a.next_node

  Triple-save :
      {P : Assertion} (a : Save)
      → ((s : Store) → P s → Placed a s)
      → Triple P (save_checkpoint h t a) (Moved t a.next_node) (Live t)
  unfolding save_checkpoint
  Triple-save {P} a new =
      Triple-on_store (Checkpoints.save_checkpoint h.json_size t a)
        (record { at = λ s p. go s (new s p) (Checkpoints.save_checkpoint h.json_size t a s) refl })
    where
      go :
          (s : Store)
          → Placed a s
          → (r : Result WorkflowSnapshot × Store)
          → Checkpoints.save_checkpoint h.json_size t a s ≡ r
          → Meets (Moved t a.next_node) (Live t) r.0 r.1
      go s (l, k) (ok t', s') e = committed-Live t a s (save_inversion h.json_size t a s e) l k
      go s (l, k) (err x, s') e = rw (save_error h.json_size t a s e) l

  -- A record that is well placed under its new cursor is saved.
  abbrev Ready :
      WorkflowNode
      → CheckpointPhase
      → CheckpointResult
      → RunRecord
      → Option WorkflowNode
      → Assertion
  Ready node phase result r next s =
      Live t s
      × Cursor (approved t.run.run_id s.checkpoints || decides node phase result) r next
      × (r.run_id ≡ t.run.run_id)

  pub Triple-save_for_node :
      {P : Assertion} (node : WorkflowNode) (attempt : ℕ) (phase : CheckpointPhase)
      (result : CheckpointResult) (r : RunRecord) (next : Option WorkflowNode)
      → ((s : Store) → P s → Ready node phase result r next s)
      → Triple P (save_for_node h t node attempt phase result r next) (Moved t next) (Live t)
  unfolding save_for_node
  Triple-save_for_node node attempt phase result r next new =
      Triple-bind (now h) _ (Triple-now h) λ created. Triple-save _ λ s p.
        let (l, k, same) = new s p in
        (
          l,
          subst (λ id. Cursor (approved id s.checkpoints || decides node phase result) r next)
              (sym same) k,
        )

  -- An update and its save.
  pub Triple-update_save :
      {P : Assertion} (node : WorkflowNode) (attempt : ℕ) (phase : CheckpointPhase)
      (result : CheckpointResult) (r : RunRecord) (next : Option WorkflowNode)
      → ((s : Store) → P s → Ready node phase result r next s)
      → Triple P
          (updated_record h r >>= λ u. save_for_node h t node attempt phase result u next)
          (Advanced t)
          (Live t)
  Triple-update_save node attempt phase result r next new =
      Triple-weaken_post _ (λ t' s (l, same, _). (l, same))
        (Triple-bind (updated_record h r) _ (Triple-updated_record h r λ s p. (new s p).0) λ u.
          Triple-save_for_node node attempt phase result u next
            λ s (p, f). let (l, k, same) = new s p in (l, Cursor-refresh f k, f.run_id ∙ same))
