-- ===== src/Engine/Preserving.antt =====
-- Every public method of the engine of src/repo_agent/workflow.py keeps the invariant, provided
-- that the operations do.
use agent_projects.Prelude.{
  ℕ, zero, suc, String, ◌≡◌, ap, ◌∙◌, Bool, false, not, ◌&&◌, ◌||◌, Option, none, some, ◌∷◌,
  if◌then◌else◌, is_some, Bool-cases, inl, inr, arith,
}
use agent_projects.Errors.{pure, ◌>>=◌}
use agent_projects.RunModels.{WorkflowNode, approval, RunRecord, is_terminal}
use agent_projects.Outcomes.{WorkflowSnapshot}
use agent_projects.Engine.World.{Host, Operations, load_run}
use agent_projects.Engine.Approval.{pause_or_auto_approve}
use agent_projects.Engine.Graph.{
  execute_node, route, graph_dispatch, graph_execute_node, is_waiting, is_at, is_approval, advance,
  recursion_limit, run_graph, resume, approve, cancel,
}
use agent_projects.Engine.Triple.{
  Triple, Triple-gets, Triple-pure, Triple-raise, Triple-if, Triple-bind, Triple-weaken,
  Triple-weaken_post,
}
use agent_projects.Engine.Cursor.{Invariant, Live}
use agent_projects.Engine.Saving.{Triple-load}
use agent_projects.Engine.Deciding.{Triple-approval, Triple-cancel, Triple-fail_without_node}
use agent_projects.Engine.Executing.{
  AreCareful, is_at-eq, is_approval-eq, to_Invariant, returned, Triple-execute_node,
  Triple-pause_or_auto_approve,
}

module _ (h : Host) (ops : Operations) (careful : AreCareful ops) where
  Triple-route :
      (t : WorkflowSnapshot) (next : Option WorkflowNode)
      → Triple (Live t) (route h ops t next) (λ _. Invariant) Invariant
  unfolding route
  Triple-route t none = returned _ _ (to_Invariant _ (Triple-fail_without_node h t _))
  Triple-route t (some node) = Triple-pure _ λ s l. l.invariant

  Triple-dispatch :
      (run_id : String) → Triple Invariant (graph_dispatch h ops run_id) (λ _. Invariant) Invariant
  unfolding graph_dispatch
  Triple-dispatch run_id = Triple-bind _ _ (Triple-load h run_id) λ t. record {
    at = λ w (l, _).
        (Triple-if (is_terminal t.run.status || is_waiting t.run.status) _ _
            (λ _. Triple-pure _ λ s l. l.invariant)
            (λ _.
              Triple-if t.run.cancel_requested _ _
                (λ _. returned _ _ (to_Invariant _ (Triple-cancel h t none)))
                (λ _. Triple-route t t.next_node))).at
          w l;
  }

  Triple-advance :
      (t : WorkflowSnapshot) (node : WorkflowNode)
      → t.next_node ≡ some node
      → Triple
          (Live t)
          (if is_approval node then pause_or_auto_approve h t else execute_node h ops t node)
          (λ _. Invariant)
          Invariant
  Triple-advance t node here = elim (Bool-cases (is_approval node)) [
    | inl yes_case ↦ rw yes_case (
        (Triple-pause_or_auto_approve h ops careful) t
          (here ∙ ap some (is_approval-eq node yes_case)))
    | inr no_case ↦ rw no_case ((Triple-execute_node h ops careful) t node here)
  ]

  Triple-graph_execute_node :
      (run_id : String) (node : WorkflowNode)
      → Triple Invariant (graph_execute_node h ops run_id node) (λ _. Invariant) Invariant
  unfolding graph_execute_node
  Triple-graph_execute_node run_id node = Triple-bind _ _ (Triple-load h run_id) λ t.
      Triple-weaken {P = Live t} _ (λ s p. p.0)
        (Triple-if (is_terminal t.run.status || not (is_at node t.next_node)) _ _
          (λ _. Triple-pure _ λ s l. l.invariant)
          (λ e. returned _ _ (Triple-advance t node (is_at-eq node t.next_node (ground arith)))))

  Triple-run_graph :
      (fuel : ℕ) (run_id : String)
      → Triple Invariant (run_graph h ops fuel run_id) (λ _. Invariant) Invariant
  unfolding run_graph
  Triple-run_graph zero run_id = Triple-raise _ _ λ s inv. inv
  Triple-run_graph (suc zero) run_id = Triple-bind _ _ (Triple-dispatch run_id) λ (run, next).
      Triple-if (is_some next) _ _ (λ _. Triple-raise _ _ λ s inv. inv)
        (λ _. Triple-pure _ λ s inv. inv)
  Triple-run_graph (suc (suc fuel)) run_id =
      Triple-bind _ _ (Triple-dispatch run_id)
        λ (run, next). go run next (Triple-run_graph fuel run_id)
    where
      go :
          (run : RunRecord) (next : Option WorkflowNode)
          → Triple Invariant (run_graph h ops fuel run_id) (λ _. Invariant) Invariant
          → Triple Invariant
              (elim next [
                | none ↦ pure run
                | some node ↦
                    graph_execute_node h ops run_id node >>= λ _. run_graph h ops fuel run_id
              ])
              (λ _. Invariant)
              Invariant
      go run none rest = Triple-pure _ λ s inv. inv
      go run (some node) rest = Triple-bind _ _ (Triple-graph_execute_node run_id node) λ _. rest

  Triple-advance_run :
      (run_id : String) → Triple Invariant (advance h ops run_id) (λ _. Invariant) Invariant
  unfolding advance
  Triple-advance_run run_id = record {
    at = λ w inv.
        (Triple-bind (load_run h run_id) _
            (Triple-weaken_post _ (λ t s p. p.0.invariant) (Triple-load h run_id))
            λ t. Triple-run_graph recursion_limit run_id).at
          (record w { active_runs = run_id ∷ w.active_runs }) inv;
  }

  pub Triple-resume :
      (run_id : String) → Triple Invariant (resume h ops run_id) (λ _. Invariant) Invariant
  unfolding resume
  Triple-resume run_id = Triple-bind _ _ (Triple-gets _ λ s b inv. inv) λ busy.
      Triple-if busy _ _ (λ _. Triple-raise _ _ λ s inv. inv) (λ _. Triple-advance_run run_id)

  pub Triple-approve :
      (run_id : String) (yes_or_no : Bool) (why : Option String) (then_resume : Bool)
      → Triple Invariant (approve h ops run_id yes_or_no why then_resume) (λ _. Invariant) Invariant
  unfolding approve
  Triple-approve run_id yes_or_no why then_resume = Triple-bind _ _ (Triple-load h run_id) λ t.
      Triple-weaken {P = Live t} _ (λ s p. p.0)
        (Triple-if (not (is_waiting t.run.status && is_at approval t.next_node)) _ _
          (λ _. Triple-raise _ _ λ s l. l.invariant)
          (λ e.
            Triple-bind _ _
              (to_Invariant _ (
                Triple-approval h t yes_or_no why false
                  (is_at-eq approval t.next_node (ground arith))))
              λ t'.
                Triple-if (yes_or_no && then_resume) _ _ (λ _. Triple-resume run_id)
                  (λ _. Triple-pure _ λ s inv. inv)))

  pub Triple-cancel_run :
      (run_id : String) (why : Option String)
      → Triple Invariant (cancel h ops run_id why) (λ _. Invariant) Invariant
  unfolding cancel
  Triple-cancel_run run_id why = Triple-bind _ _ (Triple-load h run_id) λ t.
      Triple-weaken {P = Live t} _ (λ s p. p.0)
        (Triple-if (is_terminal t.run.status) _ _ (λ _. Triple-pure _ λ s l. l.invariant)
          (λ _. returned _ _ (to_Invariant _ (Triple-cancel h t why))))
