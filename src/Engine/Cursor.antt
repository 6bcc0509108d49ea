-- ===== src/Engine/Cursor.antt =====
-- The invariant of the workflow of src/repo_agent/workflow.py: where a run's cursor may stand,
-- what has been approved by then, and how much of the repair budget is spent.
use agent_projects.Prelude.{
  ℕ, suc, ◌≤◌, String, ◌≡◌, subst, Bool, true, false, not, ◌&&◌, ◌||◌, Option, none, some, List, [],
  ◌∷◌, ◌++◌, arith, leb, ◌==◌, length, is_some, str_eq, Bool-cases, inl, inr,
}
use agent_projects.RunModels.{
  PublicRunStatus, succeeded, unverified, WorkflowNode, prepare, baseline_check, inspect_and_plan,
  approval, implement, verify, repair, review, review_repair, finalize, RunRecord, is_terminal,
}
use agent_projects.Outcomes.{
  CheckpointPhase, completed, CheckpointResult, decision, WorkflowCheckpoint, WorkflowSnapshot,
}
use agent_projects.Checkpoints.{Store, RunRow, find_run}

-- A completed approval checkpoint that says yes.
abbrev pub decides : WorkflowNode → CheckpointPhase → CheckpointResult → Bool
decides approval completed (decision yes_or_no _ _) = yes_or_no
decides _ _ _ = false

abbrev pub approves : String → WorkflowCheckpoint → Bool
approves run_id c = str_eq c.run_id run_id && decides c.node c.phase c.result

-- Whether a run has been approved, by a human or by its configuration.
unfoldable pub approved : String → List WorkflowCheckpoint → Bool
approved run_id [] = false
approved run_id (c ∷ rest) = approves run_id c || approved run_id rest

-- Where the cursor stands: approved or not, repairs done, checks done.
abbrev pub position : Bool → ℕ → ℕ → Option WorkflowNode → Bool
position ok repairs checks none = true
position ok repairs checks (some prepare) = repairs == 0 && checks == 0
position ok repairs checks (some baseline_check) = repairs == 0 && checks == 0
position ok repairs checks (some inspect_and_plan) = repairs == 0 && checks == 0
position ok repairs checks (some approval) = repairs == 0 && checks == 0
position ok repairs checks (some implement) = ok && repairs == 0 && checks == 0
position ok repairs checks (some verify) = ok && leb checks repairs
position ok repairs checks (some repair) = ok && repairs == 0 && leb checks 1
position ok repairs checks (some review) = ok && leb checks (suc repairs)
position ok repairs checks (some review_repair) = false
position ok repairs checks (some finalize) = ok && leb checks (suc repairs)

-- The statuses of a run that has a patch to show.
abbrev pub has_patch : PublicRunStatus → Bool
has_patch succeeded = true
has_patch unverified = true
has_patch _ = false

pub record Cursor (ok : Bool) (r : RunRecord) (next : Option WorkflowNode) : Type 0 where
  pub no_review_repair : r.metrics.review_repairs ≡ 0
  pub one_repair : r.metrics.repair_attempts ≤ 1
  pub two_checks : length r.checks ≤ 2
  pub ended : is_terminal r.status ≡ not (is_some next)
  pub placed : position ok r.metrics.repair_attempts (length r.checks) next ≡ true
  pub earned : (has_patch r.status && not ok) ≡ false

-- Every run of the store is well placed.
pub record Invariant (s : Store) : Type 0 where
  pub at :
      (run_id : String) (row : RunRow)
      → find_run run_id s.runs ≡ some row
      → Cursor (approved run_id s.checkpoints) row.run row.next_node

unfoldable pub row_of : WorkflowSnapshot → RunRow
row_of t = record { run = t.run; next_node = t.next_node; version = t.version }

-- The store is well placed and the snapshot is that of its run.
pub record Live (t : WorkflowSnapshot) (s : Store) : Type 0 where
  pub invariant : Invariant s
  pub current : find_run t.run.run_id s.runs ≡ some (row_of t)

pub Live-Cursor :
    {t : WorkflowSnapshot} {s : Store}
    → Live t s
    → Cursor (approved t.run.run_id s.checkpoints) t.run t.next_node
unfolding row_of
Live-Cursor {t} l = l.invariant.at t.run.run_id (row_of t) l.current

-- The same, where it is known which node comes next.
pub Live-Cursor_at :
    {t : WorkflowSnapshot} {s : Store} {next : Option WorkflowNode}
    → t.next_node ≡ next
    → Live t s
    → Cursor (approved t.run.run_id s.checkpoints) t.run next
Live-Cursor_at {t} {s} e l =
    subst (λ n. Cursor (approved t.run.run_id s.checkpoints) t.run n) e (Live-Cursor l)

pub Cursor-or :
    (b c : Bool) {r : RunRecord} (next : Option WorkflowNode)
    → Cursor b r next
    → Cursor (b || c) r next
Cursor-or true c next k = k
Cursor-or false true next k = record {
  no_review_repair = k.no_review_repair;
  one_repair = k.one_repair;
  two_checks = k.two_checks;
  ended = k.ended;
  placed = ground arith;
  earned = ground arith;
}
Cursor-or false false next k = k

-- A record that differs from `r` in nothing that the invariant reads.
pub record Refreshes (r r' : RunRecord) : Type 0 where
  pub run_id : r'.run_id ≡ r.run_id
  pub status : r'.status ≡ r.status
  pub checks : r'.checks ≡ r.checks
  pub repairs : r'.metrics.repair_attempts ≡ r.metrics.repair_attempts
  pub review_repairs : r'.metrics.review_repairs ≡ r.metrics.review_repairs

pub Cursor-refresh :
    {b : Bool} {r r' : RunRecord} {next : Option WorkflowNode}
    → Refreshes r r'
    → Cursor b r next
    → Cursor b r' next
Cursor-refresh {b} {next = next} f k = record {
  no_review_repair = rw f.review_repairs k.no_review_repair;
  one_repair = rw f.repairs k.one_repair;
  two_checks = rw f.checks k.two_checks;
  ended = rw f.status k.ended;
  placed = rw (f.repairs, f.checks) k.placed;
  earned = rw f.status k.earned;
}

pub approved-append :
    (run_id : String) (cs : List WorkflowCheckpoint) (c : WorkflowCheckpoint)
    → approved run_id (cs ++ c ∷ []) ≡ (approved run_id cs || approves run_id c)
unfolding approved
approved-append run_id [] c = ground arith
approved-append run_id (d ∷ cs) c = elim (Bool-cases (approves run_id d)) [
  | inl yes_case ↦ rw yes_case
  | inr no_case ↦ rw no_case (approved-append run_id cs c)
]
