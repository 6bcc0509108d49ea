-- ===== src/Engine/Executing.antt =====
-- The execution of one node by the engine of src/repo_agent/workflow.py keeps the invariant, provided
-- that the operations do.
use agent_projects.Prelude.{
  ℕ, ◌≡◌, refl, ap, ◌∙◌, subst, true, Option, none, some, List, is_some, arith,
}
use agent_projects.Errors.{Exec, ok, err, pure, Result, ◌>>=◌}
use agent_projects.RunModels.{
  WorkflowNode, prepare, baseline_check, inspect_and_plan, approval, implement, verify, repair,
  review, review_repair, finalize, node_eq_iff,
}
use agent_projects.Outcomes.{
  started, completed, RawResult, outcome, verification, plan, WorkflowCheckpoint, WorkflowSnapshot,
  OperationContext,
}
use agent_projects.Checkpoints.{Store, find_run}
use agent_projects.Engine.World.{Host, Operations, Engine, on_store, load_run}
use agent_projects.Engine.Complete.{complete_node}
use agent_projects.Engine.Approval.{pause_or_auto_approve}
use agent_projects.Engine.Graph.{map_raw, invoke, run_operation, execute_node, is_at, is_approval}
use agent_projects.Engine.Triple.{
  Assertion, Meets, Triple, Triple-pure, Triple-raise, Triple-if, Triple-on_store, Triple-bind,
  Triple-try, Triple-weaken_post,
}
use agent_projects.Engine.Cursor.{Invariant, Live}
use agent_projects.Engine.Saving.{Triple-load-Live, Triple-get_checkpoint, Triple-list_checkpoints}
use agent_projects.Engine.Committing.{Advanced}
use agent_projects.Engine.Completing.{Triple-complete_node, Triple-fail_node}
use agent_projects.Engine.Checking.{Fits}
use agent_projects.Engine.Deciding.{Triple-start_node, Triple-pause_or_approve}

-- What an operation may do to the store: it keeps the invariant, and leaves the row of the run
-- that it works for (it has the run's lease) as it was.
pub record IsCareful {A : Type 0} (m : OperationContext → Exec Store A) : Type 0 where
  pub at :
      (c : OperationContext) (s : Store)
      → Invariant s
      → Invariant (m c s).1 × (find_run c.run.run_id (m c s).1.runs ≡ find_run c.run.run_id s.runs)

pub record AreCareful (ops : Operations) : Type 0 where
  pub prepares : IsCareful ops.prepare
  pub checks : IsCareful ops.baseline_check
  pub plans : IsCareful ops.inspect_and_plan
  pub implements : IsCareful ops.implement
  pub verifies : IsCareful ops.verify
  pub repairs : IsCareful ops.repair
  pub reviews : IsCareful ops.review
  pub review_repairs : IsCareful ops.review_repair
  pub finalizes : IsCareful ops.finalize

module _ (t : WorkflowSnapshot) where
  Triple-careful :
      {A : Type 0} (m : OperationContext → Exec Store A) (c : OperationContext) (f : A → RawResult)
      (node : WorkflowNode)
      → IsCareful m
      → c.run ≡ t.run
      → ((a : A) → Fits node (f a))
      → Triple (Live t) (map_raw f (on_store (m c))) (λ raw s. Live t s × Fits node raw) (Live t)
  unfolding map_raw
  Triple-careful {A} m c f node careful same fit =
      Triple-bind _ _
        (Triple-on_store {Q = λ _. Live t} {E = Live t} (m c)
          (record { at = λ s l. either (m c s).0 (m c s).1 (kept s l) }))
        λ a. Triple-pure (f a) λ s l. (l, fit a)
    where
      kept : (s : Store) → Live t s → Live t (m c s).1
      kept s l =
          let (inv, row) = careful.at c s l.invariant in
          record {
            invariant = inv;
            current =
                subst (λ r. find_run r.run_id (m c s).1.runs ≡ find_run r.run_id s.runs) same row
                ∙ l.current;
          }

      either : (r : Result A) (s : Store) → Live t s → Meets (λ (_ : A). Live t) (Live t) r s
      either (ok a) s l = l
      either (err e) s l = l

pub is_at-eq :
    (node : WorkflowNode) (next : Option WorkflowNode) → is_at node next ≡ true → next ≡ some node
is_at-eq node none e = cc
is_at-eq node (some n) e = ap some ((node_eq_iff n node).0 e)

pub is_approval-eq : (node : WorkflowNode) → is_approval node ≡ true → node ≡ approval
is_approval-eq node e = ground arith

weaken_error :
    {A : Type 0} {P E F : Assertion} {Q : A → Assertion} (m : Engine A)
    → ((s : Store) → E s → F s)
    → Triple P m Q E
    → Triple P m Q F
weaken_error {A} {E = E} {F = F} {Q = Q} m f t = record {
  at = λ w p. go (m w).0 (m w).1.store (t.at w p);
}
  where
    go : (r : Result A) (s : Store) → Meets Q E r s → Meets Q F r s
    go (ok a) s q = q
    go (err e) s q = f s q

-- An action that advances a snapshot keeps the invariant, also where it raises.
pub to_Invariant :
    {t : WorkflowSnapshot} {P : Assertion} (m : Engine WorkflowSnapshot)
    → Triple P m (Advanced t) (Live t)
    → Triple P m (λ _. Invariant) Invariant
to_Invariant m u =
    weaken_error m (λ s l. l.invariant) (Triple-weaken_post m (λ t' s p. p.0.invariant) u)

pub returned :
    {A : Type 0} {P : Assertion} (m : Engine WorkflowSnapshot) (f : WorkflowSnapshot → A)
    → Triple P m (λ _. Invariant) Invariant
    → Triple P (m >>= λ t. pure (f t)) (λ _. Invariant) Invariant
returned m f u = Triple-bind _ _ u λ t. Triple-pure _ λ s inv. inv

module _ (h : Host) (ops : Operations) (careful : AreCareful ops) where
  Triple-invoke :
      (t : WorkflowSnapshot) (node : WorkflowNode) (c : OperationContext)
      → c.run ≡ t.run
      → Triple (Live t) (invoke ops node c) (λ raw s. Live t s × Fits node raw) (Live t)
  unfolding invoke
  Triple-invoke t prepare c e =
      Triple-careful t ops.prepare c outcome prepare careful.prepares e λ a. refl
  Triple-invoke t baseline_check c e =
      Triple-careful t ops.baseline_check c outcome baseline_check careful.checks e λ a. refl
  Triple-invoke t inspect_and_plan c e =
      Triple-careful t ops.inspect_and_plan c plan inspect_and_plan careful.plans e λ a. refl
  Triple-invoke t implement c e =
      Triple-careful t ops.implement c outcome implement careful.implements e λ a. refl
  Triple-invoke t verify c e =
      Triple-careful t ops.verify c verification verify careful.verifies e λ a. refl
  Triple-invoke t repair c e =
      Triple-careful t ops.repair c outcome repair careful.repairs e λ a. refl
  Triple-invoke t review c e =
      Triple-careful t ops.review c outcome review careful.reviews e λ a. refl
  Triple-invoke t review_repair c e =
      Triple-careful t ops.review_repair c outcome review_repair careful.review_repairs e λ a. refl
  Triple-invoke t finalize c e =
      Triple-careful t ops.finalize c outcome finalize careful.finalizes e λ a. refl
  Triple-invoke t approval c e = Triple-raise _ _ λ s l. l

  Triple-run_operation :
      (t : WorkflowSnapshot) (node : WorkflowNode) (attempt : ℕ) (cs : List WorkflowCheckpoint)
      → t.next_node ≡ some node
      → Triple (Live t) (run_operation h ops t node attempt cs) (Advanced t) (Live t)
  unfolding run_operation
  Triple-run_operation t node attempt cs here = record {
    at = λ w l.
        (Triple-try _ _
            (Triple-bind _ _ (Triple-invoke t node _ refl)
              λ raw. completes raw (h.operation_ms w.ticks))
            (λ e. Triple-fail_node h t node attempt e (h.operation_ms w.ticks) here)).at
          w l;
  }
    where
      completes :
          (raw : RawResult) (duration : ℕ)
          → Triple
              (λ s. Live t s × Fits node raw)
              (complete_node h t node attempt raw duration)
              (Advanced t)
              (Live t)
      completes raw duration = record {
        at = λ w (l, fit). (Triple-complete_node h t node attempt raw duration fit here).at w l;
      }

  -- Where a node was completed before, the run is loaded again.
  reload :
      (t : WorkflowSnapshot) → Triple (Live t) (load_run h t.run.run_id) (λ _. Invariant) Invariant
  reload t =
      weaken_error _ (λ s l. l.invariant)
        (Triple-weaken_post _ (λ t' s p. p.0.invariant) (Triple-load-Live h t))

  pub Triple-execute_node :
      (t : WorkflowSnapshot) (node : WorkflowNode)
      → t.next_node ≡ some node
      → Triple (Live t) (execute_node h ops t node) (λ _. Invariant) Invariant
  unfolding execute_node
  Triple-execute_node t node here =
      Triple-bind _ _ (Triple-get_checkpoint _ node _ completed λ s l. l.invariant) λ done.
        Triple-if (is_some done) _ _ (λ _. reload t)
          (λ _. Triple-bind _ _ (Triple-get_checkpoint _ node _ started λ s l. l.invariant) λ begun.
            Triple-bind _ _
              (weaken_error _ (λ s l. l.invariant) (Triple-start_node h t node _ begun here))
              λ t'. record {
                at = λ w (l, same, at_node).
                    (Triple-bind _ _ (Triple-list_checkpoints t'.run.run_id λ s l. l.invariant)
                        λ cs. to_Invariant _ (Triple-run_operation t' node _ cs at_node)).at
                      w l;
              })

  pub Triple-pause_or_auto_approve :
      (t : WorkflowSnapshot)
      → t.next_node ≡ some approval
      → Triple (Live t) (pause_or_auto_approve h t) (λ _. Invariant) Invariant
  unfolding pause_or_auto_approve
  Triple-pause_or_auto_approve t here =
      Triple-bind _ _ (Triple-get_checkpoint _ approval 0 completed λ s l. l.invariant) λ done.
        Triple-if (is_some done) _ _ (λ _. reload t)
          (λ _.
            Triple-bind _ _ (Triple-get_checkpoint _ approval 0 started λ s l. l.invariant) λ begun.
              Triple-bind _ _
                (weaken_error _ (λ s l. l.invariant) (Triple-start_node h t approval _ begun here))
                λ t'. record {
                  at = λ w (l, same, at_node).
                      (to_Invariant _ (Triple-pause_or_approve h t' at_node)).at w l;
                })
