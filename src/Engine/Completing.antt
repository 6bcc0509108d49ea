-- ===== src/Engine/Completing.antt =====
-- The ends of a node in src/repo_agent/workflow.py keep the invariant.
use agent_projects.Prelude.{
  str_len, ap, ◌∙◌, ℕ, ◌≤◌, String, ◌≡◌, refl, sym, subst, Bool, true, false, not, ◌&&◌, Option,
  none, some, arith, ltb, ltb→lt, ◌==◌, length,
}
use agent_projects.Errors.{Exc}
use agent_projects.RunModels.{
  WorkflowNode, prepare, implement, repair, review, RunMetrics, RunRecord, is_terminal,
}
use agent_projects.Outcomes.{
  detail_get, Value, text, NodeOutcome, RawResult, outcome, verification, plan, CheckpointPhase,
  WorkflowSnapshot,
}
use agent_projects.Checkpoints.{Store}
use agent_projects.Engine.World.{Host, Engine}
use agent_projects.Engine.Records.{
  max_review_repairs, max_repair_attempts, count_node, successor, count_repair,
}
use agent_projects.Engine.Complete.{
  is_hex, base_commit_of, is_recoverable, save_failed_outcome, complete_plan, complete_verification,
  succeed, complete_rejected, complete_outcome, complete_raw, complete_node, fail_node,
  failure_status_of,
}
use agent_projects.Engine.Triple.{
  Assertion, Meets, Triple, Triple-pure, Triple-raise, Triple-if, Triple-bind, Triple-now,
}
use agent_projects.Engine.Cursor.{has_patch, approved, Cursor, Cursor-or, Live, Live-Cursor_at}
use agent_projects.Engine.Committing.{Advanced, Triple-update_save}
use agent_projects.Engine.Checking.{
  Triple-accumulate, Triple-latest, Triple-completed, Triple-plan, Triple-verification, has_outcome,
  Fits, SameBudget,
}

module _ (h : Host) (t : WorkflowSnapshot) where
  -- The repair counters after a node.
  spent :
      (node : WorkflowNode) (m : RunMetrics) {b : Bool}
      → Cursor b t.run (some node)
      → SameBudget (count_node t.run.metrics) m
      → ((count_repair node t.run.metrics m).repair_attempts ≤ 1)
        × ((count_repair node t.run.metrics m).review_repairs ≡ 0)
  unfolding count_repair count_node
  spent node m k b = ground arith

  -- A run that ends with its counters in bounds.
  ended-Cursor :
      {b : Bool} (r : RunRecord)
      → is_terminal r.status ≡ true
      → (r.metrics.repair_attempts ≤ 1) × (r.metrics.review_repairs ≡ 0)
      → length r.checks ≤ 2
      → has_patch r.status ≡ false
      → Cursor b r none
  ended-Cursor r e (repairs, reviews) checks bare = record {
    no_review_repair = reviews;
    one_repair = repairs;
    two_checks = checks;
    ended = e;
    placed = refl;
    earned = rw bare;
  }

  Triple-failed_outcome :
      {P : Assertion} (node : WorkflowNode) (attempt : ℕ) (o : NodeOutcome) (duration : ℕ)
      (m : RunMetrics)
      → t.next_node ≡ some node
      → ((s : Store) → P s → Live t s × SameBudget (count_node t.run.metrics) m)
      → Triple P (save_failed_outcome h t node attempt o duration m) (Advanced t) (Live t)
  unfolding save_failed_outcome
  Triple-failed_outcome node attempt o duration m here weaken =
      Triple-bind _ _ (Triple-now h) λ finished.
        Triple-update_save h t node attempt CheckpointPhase.failed _ _ none λ s p.
          let (l, b) = weaken s p in
          let k = Live-Cursor_at here l in
          (
            l,
            ended-Cursor _ (unfold failure_status_of in ground arith) (spent node m k b)
                k.two_checks (unfold failure_status_of in ground arith),
            refl,
          )

  -- After a read that returned the snapshot at hand.
  Triple-same :
      {Q : WorkflowSnapshot → Assertion} {E : Assertion}
      (f : WorkflowSnapshot → Engine WorkflowSnapshot)
      → Triple (Live t) (f t) Q E
      → (t' : WorkflowSnapshot) → Triple (λ s. Live t s × (t' ≡ t)) (f t') Q E
  Triple-same {Q} {E} f u t' = record {
    at = λ w (l, e). subst (λ x. Meets Q E (f x w).0 (f x w).1.store) (sym e) (u.at w l);
  }

  pub Triple-fail_node :
      (node : WorkflowNode) (attempt : ℕ) (e : Exc) (duration : ℕ)
      → t.next_node ≡ some node
      → Triple (Live t) (fail_node h t node attempt e duration) (Advanced t) (Live t)
  unfolding fail_node
  Triple-fail_node node attempt e duration here = Triple-bind _ _ (Triple-latest h t) (
      Triple-same _ (
        Triple-bind _ _ (Triple-now h) λ finished.
          Triple-update_save h t node attempt CheckpointPhase.failed _ _ none λ s l.
            let k = Live-Cursor_at here l in
            (
              l,
              ended-Cursor _ refl
                  (spent node _ k (record { repairs = refl; review_repairs = refl })) k.two_checks
                  refl,
              refl,
            )))

  Triple-rejected :
      {P : Assertion} (node : WorkflowNode) (attempt : ℕ) (o : NodeOutcome) (duration : ℕ)
      (m : RunMetrics)
      → t.next_node ≡ some node
      → ((s : Store) → P s → Live t s × SameBudget (count_node t.run.metrics) m)
      → Triple P (complete_rejected h t node attempt o duration m) (Advanced t) (Live t)
  unfolding complete_rejected count_node count_repair
  Triple-rejected review attempt o duration m here weaken =
      Triple-if (ltb t.run.metrics.review_repairs max_review_repairs) _ _
        (λ e. absurd (omega (arith, ltb→lt _ _ e)))
        (λ _. (Triple-completed h t) review attempt _ _ none λ s p.
          let (l, b) = weaken s p in
          let k = Live-Cursor_at here l in
          (l, ended-Cursor _ refl (spent review m k b) k.two_checks refl, refl))
  Triple-rejected implement attempt o duration m here weaken =
      Triple-if (is_recoverable o.error && ltb t.run.metrics.repair_attempts max_repair_attempts) _
        _
        (λ _. (Triple-completed h t) implement attempt _ _ (some repair) λ s p.
          let (l, b) = weaken s p in let k = Live-Cursor_at here l in (l, ground arith, refl))
        (λ _. Triple-failed_outcome implement attempt o duration m here weaken)
  Triple-rejected node attempt o duration m here weaken =
      Triple-failed_outcome node attempt o duration m here weaken

  Triple-base_commit :
      {P E : Assertion} (v : Option Value) (old : Option String)
      → ((s : Store) → P s → E s)
      → Triple P (base_commit_of v old) (λ _. P) E
  unfolding base_commit_of
  Triple-base_commit none old weaken = Triple-pure _ λ s p. p
  Triple-base_commit (some Value.null) old weaken = Triple-pure _ λ s p. p
  Triple-base_commit (some (text c)) old weaken =
      Triple-if (str_len c == 40 && is_hex c) _ _ (λ _. Triple-pure _ λ s p. p)
        (λ _. Triple-raise _ _ weaken)
  Triple-base_commit (some _) old weaken = Triple-raise _ _ weaken

  -- The successful outcomes.
  Triple-succeed :
      {P : Assertion} (node : WorkflowNode) (o : NodeOutcome) (m : RunMetrics)
      → has_outcome node ≡ true
      → t.next_node ≡ some node
      → ((s : Store) → P s → Live t s × SameBudget (count_node t.run.metrics) m)
      → Triple P
          (succeed h t node o m)
          (λ r s.
            Live t s
            × Cursor (approved t.run.run_id s.checkpoints) r (successor node)
            × (r.run_id ≡ t.run.run_id))
          (Live t)
  unfolding succeed count_node count_repair successor
  Triple-succeed prepare o m fit here weaken =
      Triple-bind _ _
        (Triple-base_commit (detail_get o.detail "base_commit") t.run.base_commit
          λ s p. (weaken s p).0)
        λ base.
          Triple-pure _ λ s p.
            let (l, b) = weaken s p in let k = Live-Cursor_at here l in (l, ground arith, refl)
  Triple-succeed node o m fit here weaken = Triple-pure _ λ s p.
      let (l, b) = weaken s p in let k = Live-Cursor_at here l in (l, ground arith, ground arith)

  Triple-outcome :
      (node : WorkflowNode) (attempt : ℕ) (o : NodeOutcome) (duration : ℕ)
      → has_outcome node ≡ true
      → t.next_node ≡ some node
      → Triple (Live t) (complete_outcome h t node attempt o duration) (Advanced t) (Live t)
  unfolding complete_outcome
  Triple-outcome node attempt o duration fit here =
      Triple-bind _ _ (Triple-accumulate _ o.detail λ s l. l) λ m.
        Triple-if (not o.ok) _ _ (λ _. Triple-rejected node attempt o duration m here λ s p. p)
          (λ _. Triple-bind _ _ (Triple-succeed node o m fit here λ s p. p) λ r.
            (Triple-completed h t) node attempt _ r (successor node)
              λ s (l, k, same). (l, Cursor-or _ _ (successor node) k, same))

  Triple-raw :
      (node : WorkflowNode) (attempt : ℕ) (raw : RawResult) (duration : ℕ)
      → Fits node raw
      → t.next_node ≡ some node
      → Triple (Live t) (complete_raw h t node attempt raw duration) (Advanced t) (Live t)
  unfolding complete_raw
  Triple-raw node attempt (plan p) duration fit here =
      subst (λ n. Triple (Live t) (complete_plan h t n attempt p duration) (Advanced t) (Live t))
        (sym fit) ((Triple-plan h t) attempt p duration (here ∙ ap some fit))
  Triple-raw node attempt (verification v) duration fit here =
      subst
        (λ n.
          Triple (Live t) (complete_verification h t n attempt v duration) (Advanced t) (Live t))
        (sym fit) ((Triple-verification h t) attempt v duration (here ∙ ap some fit))
  Triple-raw node attempt (outcome o) duration fit here =
      Triple-outcome node attempt o duration fit here

  pub Triple-complete_node :
      (node : WorkflowNode) (attempt : ℕ) (raw : RawResult) (duration : ℕ)
      → Fits node raw
      → t.next_node ≡ some node
      → Triple (Live t) (complete_node h t node attempt raw duration) (Advanced t) (Live t)
  unfolding complete_node
  Triple-complete_node node attempt raw duration fit here = Triple-bind _ _ (Triple-latest h t) (
      Triple-same (λ t'. complete_raw h t' node attempt raw duration)
        (Triple-raw node attempt raw duration fit here))
