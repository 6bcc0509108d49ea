-- ===== src/Engine/Deciding.antt =====
-- The approval gate, the pause, the cancellation and the start of a node in
-- src/repo_agent/workflow.py keep the invariant.
use agent_projects.Prelude.{
  ℕ, String, ◌≡◌, refl, Bool, true, false, Option, none, some, arith, str_eq,
}
use agent_projects.RunModels.{WorkflowNode, approval, implement}
use agent_projects.Outcomes.{
  CheckpointPhase, started, paused, completed, WorkflowCheckpoint, WorkflowSnapshot,
}
use agent_projects.Engine.World.{Host}
use agent_projects.Engine.Records.{
  count_node, record_for_started_node, status_when_started, started_at_or_now,
}
use agent_projects.Engine.Approval.{
  pause, complete_approval, start_node, pause_or_approve, cancel_snapshot, fail_without_node,
  node_or,
}
use agent_projects.Engine.Triple.{
  Assertion, Triple, Triple-pure, Triple-if, Triple-bind, Triple-now, Triple-weaken_post,
}
use agent_projects.Engine.Cursor.{
  Live, Live-Cursor, Live-Cursor_at, Cursor-or, Cursor-refresh, Refreshes,
}
use agent_projects.Engine.Committing.{
  Advanced, Triple-update_save, Triple-save_for_node, Triple-updated_record,
}

module _ (h : Host) (t : WorkflowSnapshot) where
  pub Triple-approval :
      (yes_or_no : Bool) (why : Option String) (automatic : Bool)
      → t.next_node ≡ some approval
      → Triple (Live t) (complete_approval h t yes_or_no why automatic) (Advanced t) (Live t)
  unfolding complete_approval count_node
  Triple-approval true why automatic here =
      Triple-update_save h t approval 0 completed _ _ (some implement)
        λ s l. let k = Live-Cursor_at here l in (l, ground arith, refl)
  Triple-approval false why automatic here = Triple-bind _ _ (Triple-now h) λ finished.
      Triple-update_save h t approval 0 completed _ _ none
        λ s l. let k = Live-Cursor_at here l in (l, ground arith, refl)

  -- The end of a run from wherever it stands.
  pub Triple-cancel :
      (why : Option String) → Triple (Live t) (cancel_snapshot h t why) (Advanced t) (Live t)
  unfolding cancel_snapshot
  Triple-cancel why = Triple-bind _ _ (Triple-now h) λ finished.
      Triple-update_save h t (node_or t.next_node t.run.current_node) _ CheckpointPhase.cancelled _
        _ none
        λ s l.
          let k = Live-Cursor l in
          (
            l,
            record {
              no_review_repair = k.no_review_repair;
              one_repair = k.one_repair;
              two_checks = k.two_checks;
              ended = refl;
              placed = refl;
              earned = refl;
            },
            refl,
          )

  pub Triple-fail_without_node :
      (message : String) → Triple (Live t) (fail_without_node h t message) (Advanced t) (Live t)
  unfolding fail_without_node
  Triple-fail_without_node message = Triple-bind _ _ (Triple-now h) λ finished.
      Triple-update_save h t (node_or none t.run.current_node) _ CheckpointPhase.failed _ _ none
        λ s l.
          let k = Live-Cursor l in
          (
            l,
            record {
              no_review_repair = k.no_review_repair;
              one_repair = k.one_repair;
              two_checks = k.two_checks;
              ended = refl;
              placed = refl;
              earned = refl;
            },
            refl,
          )

  Triple-started_at :
      {P E : Assertion} (o : Option String) → Triple P (started_at_or_now h o) (λ _. P) E
  unfolding started_at_or_now
  Triple-started_at none = Triple-now h
  Triple-started_at (some s) =
      Triple-if (str_eq s "") _ _ (λ _. Triple-now h) (λ _. Triple-pure _ λ s p. p)

  Triple-started :
      (node : WorkflowNode)
      → Triple
          (Live t)
          (record_for_started_node h t.run node)
          (λ r s. Live t s × Refreshes (record t.run { status = status_when_started h node }) r)
          (Live t)
  unfolding record_for_started_node
  Triple-started node = Triple-bind _ _ (Triple-started_at t.run.started_at) λ begun.
      Triple-weaken_post _
        (λ r s (l, f). (
          l,
          record {
            run_id = f.run_id;
            status = f.status;
            checks = f.checks;
            repairs = f.repairs;
            review_repairs = f.review_repairs;
          },
        ))
        (Triple-updated_record h _ λ s l. l)

  -- The started node keeps the run where it is.
  abbrev pub Starts : WorkflowNode → WorkflowSnapshot → Assertion
  Starts node t' s = Live t' s × (t'.run.run_id ≡ t.run.run_id) × (t'.next_node ≡ some node)

  pub Triple-start_node :
      (node : WorkflowNode) (attempt : ℕ) (c : Option WorkflowCheckpoint)
      → t.next_node ≡ some node
      → Triple (Live t) (start_node h t node attempt c) (Starts node) (Live t)
  unfolding start_node record_for_started_node
  Triple-start_node node attempt (some c) here = Triple-pure _ λ s l. (l, refl, here)
  Triple-start_node node attempt none here = Triple-bind _ _ (Triple-started node) λ u.
      Triple-save_for_node h t node attempt started _ u (some node) λ s (l, f).
        let k = Live-Cursor_at here l in
        (
          l,
          Cursor-or _ _ (some node) (
              Cursor-refresh f (record {
                no_review_repair = k.no_review_repair;
                one_repair = k.one_repair;
                two_checks = k.two_checks;
                ended = unfold status_when_started in ground arith;
                placed = k.placed;
                earned = unfold status_when_started in ground arith;
              })),
          f.run_id,
        )

  Triple-pause : t.next_node ≡ some approval → Triple (Live t) (pause h t) (Advanced t) (Live t)
  unfolding pause
  Triple-pause here =
      Triple-update_save h t approval 0 paused _ _ (some approval)
        λ s l. let k = Live-Cursor_at here l in (l, ground arith, refl)

  pub Triple-pause_or_approve :
      t.next_node ≡ some approval → Triple (Live t) (pause_or_approve h t) (Advanced t) (Live t)
  unfolding pause_or_approve
  Triple-pause_or_approve here =
      Triple-if t.run.auto_approve _ _ (λ _. Triple-approval true _ true here)
        (λ _. Triple-pause here)
