-- ===== src/Engine/Checking.antt =====
-- The plan and the verification of a run in `_complete_node` of src/repo_agent/workflow.py keep the
-- invariant.
use agent_projects.Prelude.{
  ℕ, String, ◌≡◌, refl, Bool, true, false, not, ◌&&◌, ◌||◌, Option, none, some, [], ◌∷◌, ◌++◌,
  arith, ltb, ◌==◌, length-append, ◌⊎◌, is_some, inl, inr,
}
use agent_projects.RunModels.{
  WorkflowNode, inspect_and_plan, approval, verify, repair, review, ChangePlan, RunMetrics,
  RunRecord, is_terminal, max_declared_repairs, max_declared_review_repairs, max_declared_attempt,
}
use agent_projects.Outcomes.{
  as_check_summary, Detail, VerificationOutcome, RawResult, outcome, verification, plan, completed,
  CheckpointResult, WorkflowSnapshot,
}
use agent_projects.Checkpoints.{Store}
use agent_projects.Engine.World.{Host}
use agent_projects.Engine.Records.{
  max_repair_attempts, usage_or_raise, accumulate_usage, count_node,
}
use agent_projects.Engine.Complete.{
  latest_compatible_snapshot, save_completed, complete_plan, complete_verification,
}
use agent_projects.Engine.Triple.{
  Assertion, Triple, Triple-pure, Triple-raise, Triple-if, Triple-bind, Triple-now_if,
}
use agent_projects.Engine.Cursor.{decides, approved, Cursor, Live, Live-Cursor_at}
use agent_projects.Engine.Saving.{Triple-load-Live}
use agent_projects.Engine.Committing.{Advanced, Triple-update_save}

-- The counters that the invariant reads stay.
pub record SameBudget (m m' : RunMetrics) : Type 0 where
  pub repairs : m'.repair_attempts ≡ m.repair_attempts
  pub review_repairs : m'.review_repairs ≡ m.review_repairs

Triple-usage :
    {P E : Assertion} (field : String) (o : Option ℕ)
    → ((s : Store) → P s → E s)
    → Triple P (usage_or_raise field o) (λ _. P) E
unfolding usage_or_raise
Triple-usage field none weaken = Triple-raise _ _ weaken
Triple-usage field (some n) weaken = Triple-pure _ λ s p. p

pub Triple-accumulate :
    {P E : Assertion} (m : RunMetrics) (d : Detail)
    → ((s : Store) → P s → E s)
    → Triple P (accumulate_usage m d) (λ m' s. P s × SameBudget m m') E
unfolding accumulate_usage
Triple-accumulate m d weaken = Triple-bind _ _ (Triple-usage "tool_calls" _ weaken) λ calls.
    Triple-bind _ _ (Triple-usage "tokens" _ weaken) λ tokens.
      Triple-if
        (ltb max_declared_repairs m.repair_attempts
          || ltb max_declared_review_repairs m.review_repairs)
        _ _ (λ _. Triple-raise _ _ weaken)
        (λ _. Triple-pure _ λ s p. (p, record { repairs = refl; review_repairs = refl }))

-- The nodes whose operation returns a `NodeOutcome`.
abbrev pub has_outcome : WorkflowNode → Bool
has_outcome inspect_and_plan = false
has_outcome approval = false
has_outcome verify = false
has_outcome _ = true

-- The kind of result that a node's operation returns.
abbrev pub Fits : WorkflowNode → RawResult → Type 0
Fits node (plan p) = node ≡ inspect_and_plan
Fits node (verification v) = node ≡ verify
Fits node (outcome o) = has_outcome node ≡ true

module _ (h : Host) (t : WorkflowSnapshot) where
  pub Triple-latest :
      Triple (Live t) (latest_compatible_snapshot h t) (λ t' s. Live t s × (t' ≡ t)) (Live t)
  unfolding latest_compatible_snapshot
  Triple-latest = Triple-bind _ _ (Triple-load-Live h t) λ latest.
      Triple-if (latest.version == t.version) _ _ (λ _. Triple-pure _ λ s (l, e). (l, refl))
        (λ _.
          Triple-if (latest.run.cancel_requested && not t.run.cancel_requested) _ _
            (λ _. Triple-pure _ λ s p. p) (λ _. Triple-raise _ _ λ s p. p.0))

  -- The end of `_complete_node`.
  pub Triple-completed :
      {P : Assertion} (node : WorkflowNode) (attempt : ℕ) (result : CheckpointResult)
      (r : RunRecord) (next : Option WorkflowNode)
      → ((s : Store)
          → P s
          → Live t s
            × Cursor (approved t.run.run_id s.checkpoints || decides node completed result) r next
            × (r.run_id ≡ t.run.run_id))
      → Triple P (save_completed h t node attempt result r next) (Advanced t) (Live t)
  unfolding save_completed
  Triple-completed node attempt result r next new =
      Triple-bind _ _ (Triple-now_if h (is_terminal r.status)) λ finished.
        Triple-update_save h t node attempt completed result _ next λ s p.
          let (l, k, same) = new s p in
          (
            l,
            record {
              no_review_repair = k.no_review_repair;
              one_repair = k.one_repair;
              two_checks = k.two_checks;
              ended = k.ended;
              placed = k.placed;
              earned = k.earned;
            },
            same,
          )

  pub Triple-plan :
      (attempt : ℕ) (p : ChangePlan) (duration : ℕ)
      → t.next_node ≡ some inspect_and_plan
      → Triple
          (Live t)
          (complete_plan h t inspect_and_plan attempt p duration)
          (Advanced t)
          (Live t)
  unfolding complete_plan count_node
  Triple-plan attempt p duration here =
      Triple-completed inspect_and_plan attempt _ _ (some approval)
        λ s l. let k = Live-Cursor_at here l in (l, ground arith, refl)

  -- A verification that adds a check keeps the cursor well placed.
  abbrev Checked : VerificationOutcome → ℕ → RunMetrics → Assertion
  Checked v attempt m s = Live t s × SameBudget (count_node t.run.metrics) m

  checked-Cursor :
      (v : VerificationOutcome) (attempt : ℕ) (r : RunRecord) (next : Option WorkflowNode)
      (s : Store)
      → t.next_node ≡ some verify
      → Live t s
      → SameBudget (count_node t.run.metrics) r.metrics
      → r.checks ≡ t.run.checks ++ as_check_summary v attempt ∷ []
      → is_terminal r.status ≡ not (is_some next)
      → ((next ≡ some review) ⊎ (next ≡ none))
        ⊎ ((next ≡ some repair) × (t.run.metrics.repair_attempts ≡ 0))
      → Cursor (approved t.run.run_id s.checkpoints || false) r next
  unfolding count_node
  checked-Cursor v attempt r next s here l b checks ended cases =
      let k = Live-Cursor_at here l in
      let n = length-append t.run.checks (as_check_summary v attempt ∷ []) in
      record {
        no_review_repair = ground (arith, k.no_review_repair, b.review_repairs);
        one_repair = ground (arith, k.one_repair, b.repairs);
        two_checks = rw (checks, n) (ground (arith, k.one_repair, k.placed));
        ended = ended;
        placed = rw (checks, n, b.repairs) (ground (arith, k.placed));
        earned = ground (arith, k.placed);
      }

  pub Triple-verification :
      (attempt : ℕ) (v : VerificationOutcome) (duration : ℕ)
      → t.next_node ≡ some verify
      → Triple (Live t) (complete_verification h t verify attempt v duration) (Advanced t) (Live t)
  unfolding complete_verification count_node
  Triple-verification attempt v duration here =
      Triple-bind _ _ (Triple-accumulate _ v.detail λ s l. l) λ m.
        Triple-if (ltb max_declared_attempt attempt) _ _ (λ _. Triple-raise _ _ λ s p. p.0)
          (λ _.
            Triple-if v.ok _ _
              (λ _. Triple-completed verify attempt _ _ (some review) λ s (l, b). (
                l,
                checked-Cursor v attempt _ (some review) s here l b refl refl (inl (inl refl)),
                refl,
              ))
              (λ _.
                Triple-if (ltb t.run.metrics.repair_attempts max_repair_attempts) _ _
                  (λ e. Triple-completed verify attempt _ _ (some repair) λ s (l, b). (
                    l,
                    checked-Cursor v attempt _ (some repair) s here l b refl refl
                        (inr (refl, ground arith)),
                    refl,
                  ))
                  (λ e. Triple-completed verify attempt _ _ none λ s (l, b). (
                    l,
                    checked-Cursor v attempt _ none s here l b refl refl (inl (inr refl)),
                    refl,
                  ))))
