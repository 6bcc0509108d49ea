-- ===== src/Engine/Sessions.antt =====
-- Whole sessions of the engine of src/repo_agent/workflow.py: any calls of its methods, in any
-- order, over a store that starts empty.
use agent_projects.Prelude.{
  ◌≤◌, String, ◌≡◌, ◌≢◌, refl, Bool, true, false, not, ◌||◌, Option, some, List, [], ◌∷◌, is_some,
  Bool-cases, ◌⊎◌, inl, inr, arith, length, str_eq,
}
use agent_projects.Errors.{Result, ok, err, ◌>>=◌}
use agent_projects.RunModels.{
  WorkflowNode, prepare, implement, verify, repair, review, review_repair, finalize, RunRecord,
  is_terminal, max_declared_attempt,
}
use agent_projects.Checkpoints.{Store, RunRow, find_run, create_run, insert_run}
use agent_projects.Engine.World.{Host, Operations, World, Engine, on_store}
use agent_projects.Engine.Records.{max_repair_attempts, max_review_repairs, node_attempt}
use agent_projects.Engine.Graph.{is_new_run, new_run, start, resume, approve, cancel}
use agent_projects.Engine.Triple.{Meets, Triple, Triple-raise, Triple-if, Triple-bind, Triple-now}
use agent_projects.Engine.Cursor.{has_patch, approved, Cursor, Cursor-or, Invariant}
use agent_projects.Engine.Executing.{AreCareful}
use agent_projects.Engine.Preserving.{Triple-resume, Triple-approve, Triple-cancel_run}

-- A call of a public method.
pub data Call : Type 0 where
  starting : String → String → String → Option String → Bool → Bool → Call
  resuming : String → Call
  approving : String → Bool → Option String → Bool → Call
  cancelling : String → Option String → Call

unfoldable pub call : Host → Operations → Call → Engine RunRecord
call h ops (starting run_id repo task base auto remote) =
    start h ops run_id repo task base auto remote
call h ops (resuming run_id) = resume h ops run_id
call h ops (approving run_id yes_or_no why then_resume) =
    approve h ops run_id yes_or_no why then_resume
call h ops (cancelling run_id why) = cancel h ops run_id why

-- A session: an exception ends only its own call.
unfoldable pub session : Host → Operations → List Call → World → World
session h ops [] w = w
session h ops (c ∷ rest) w = session h ops rest (call h ops c w).1

abbrev pub empty_world : World
empty_world = record {
  store = record { closed = false; runs = []; checkpoints = [] };
  active_runs = [];
  ticks = 0;
}

-- A created run is well placed.
inserted-Invariant :
    (r : RunRecord) (s : Store)
    → Cursor false r (some prepare)
    → Invariant s
    → Invariant
        (record s { runs = record { run = r; next_node = some prepare; version = 0 } ∷ s.runs })
unfolding find_run
inserted-Invariant r s k inv = record {
  at = λ run_id row found. elim (Bool-cases (str_eq r.run_id run_id)) [
    | inl same ↦
        let e : row ≡ record { run = r; next_node = some prepare; version = 0 } = ground arith in
        rw e (Cursor-or false (approved run_id s.checkpoints) (some prepare) k)
    | inr other ↦ inv.at run_id row (ground arith)
  ];
}

create_store :
    (r : RunRecord) (s : Store)
    → ((create_run r prepare s).1 ≡ s)
      ⊎ ((create_run r prepare s).1
          ≡ record s { runs = record { run = r; next_node = some prepare; version = 0 } ∷ s.runs })
unfolding create_run ◌>>=◌ insert_run
create_store r s = elim (Bool-cases s.closed) [
  | inl shut ↦ inl (ground arith)
  | inr opened ↦ elim (Bool-cases (is_some (find_run r.run_id s.runs))) [
    | inl old ↦ inl (ground arith)
    | inr new ↦ inr (ground arith)
  ]
]

Meets-Invariant :
    {A : Type 0} (r : Result A) (s : Store) → Invariant s → Meets (λ _. Invariant) Invariant r s
Meets-Invariant (ok a) s inv = inv
Meets-Invariant (err e) s inv = inv

Triple-create :
    (r : RunRecord)
    → Cursor false r (some prepare)
    → Triple Invariant (on_store (create_run r prepare)) (λ _. Invariant) Invariant
unfolding on_store
Triple-create r k = record {
  at = λ w inv.
      Meets-Invariant (create_run r prepare w.store).0 (create_run r prepare w.store).1
        (elim (create_store r w.store) [
          | inl e ↦ rw e inv
          | inr e ↦ rw e (inserted-Invariant r w.store k inv)
        ]);
}

-- The nodes that work on an approved candidate.
abbrev pub changes_candidate : Option WorkflowNode → Bool
changes_candidate (some implement) = true
changes_candidate (some verify) = true
changes_candidate (some repair) = true
changes_candidate (some review) = true
changes_candidate (some finalize) = true
changes_candidate _ = false

module _ (h : Host) (ops : Operations) (careful : AreCareful ops) where
  Triple-start :
      (run_id repo task : String) (base : Option String) (auto remote : Bool)
      → Triple Invariant (start h ops run_id repo task base auto remote) (λ _. Invariant) Invariant
  unfolding start
  Triple-start run_id repo task base auto remote = Triple-bind _ _ (Triple-now h) λ created.
      Triple-if (not (is_new_run (new_run h run_id repo task base auto remote created))) _ _
        (λ _. Triple-raise _ _ λ s inv. inv)
        (λ _.
          Triple-bind _ _
            (Triple-create _ (record {
              no_review_repair = refl;
              one_repair = omega arith;
              two_checks = omega arith;
              ended = refl;
              placed = refl;
              earned = refl;
            }))
            λ t. Triple-resume h ops careful _)

  Triple-call : (c : Call) → Triple Invariant (call h ops c) (λ _. Invariant) Invariant
  unfolding call
  Triple-call (starting run_id repo task base auto remote) =
      Triple-start run_id repo task base auto remote
  Triple-call (resuming run_id) = Triple-resume h ops careful run_id
  Triple-call (approving run_id yes_or_no why then_resume) =
      Triple-approve h ops careful run_id yes_or_no why then_resume
  Triple-call (cancelling run_id why) = Triple-cancel_run h ops careful run_id why

  settled : (r : Result RunRecord) (s : Store) → Meets (λ _. Invariant) Invariant r s → Invariant s
  settled (ok r) s inv = inv
  settled (err e) s inv = inv

  session-Invariant_from :
      (cs : List Call) (w : World) → Invariant w.store → Invariant (session h ops cs w).store
  unfolding session
  session-Invariant_from [] w inv = inv
  session-Invariant_from (c ∷ rest) w inv =
      session-Invariant_from rest (call h ops c w).1
        (settled (call h ops c w).0 (call h ops c w).1.store ((Triple-call c).at w inv))

  -- After any calls, every run of the store is well placed.
  pub session-Invariant : (cs : List Call) → Invariant (session h ops cs empty_world).store
  unfolding find_run
  session-Invariant cs =
      session-Invariant_from cs empty_world
        (record { at = λ run_id row found. absurd (ground arith) })

  -- The approval gate: with operations that leave their own run's row as they find it and keep the
  -- store's invariant, after any calls of the engine's methods on an initially empty store, a run
  -- whose cursor stands at implement, verify, repair, review or finalize, and a run that ended as
  -- succeeded or unverified, has a completed approval checkpoint that says yes.
  pub approval_gate :
      (cs : List Call) (run_id : String) (row : RunRow)
      → find_run run_id (session h ops cs empty_world).store.runs ≡ some row
      → (changes_candidate row.next_node || has_patch row.run.status) ≡ true
      → approved run_id (session h ops cs empty_world).store.checkpoints ≡ true
  approval_gate cs run_id row found at_work =
      let k = (session-Invariant cs).at run_id row found in ground arith

  -- The repair budget: with operations that leave their own run's row as they find it and keep the
  -- store's invariant, after any calls on an initially empty store, every run has spent at most one repair and no review
  -- repair, has at most two verification results, and its next verification attempt is a number
  -- that `CheckSummary` accepts.
  pub repair_budget :
      (cs : List Call) (run_id : String) (row : RunRow)
      → find_run run_id (session h ops cs empty_world).store.runs ≡ some row
      → (row.run.metrics.repair_attempts ≤ max_repair_attempts)
        × (row.run.metrics.review_repairs ≤ max_review_repairs)
        × (length row.run.checks ≤ 2)
        × (node_attempt row.run verify ≤ max_declared_attempt)
        × (row.next_node ≢ some review_repair)
  unfolding node_attempt
  repair_budget cs run_id row found =
      let k = (session-Invariant cs).at run_id row found in
      (ground arith, ground arith, ground arith, ground arith, λ e. ground (arith, e))

  -- A run has ended exactly when it has no next node: with operations that leave their own run's row
  -- as they find it and keep the store's invariant, after any calls on an initially empty store, the
  -- status is terminal if and only if the cursor is empty.
  pub ended_iff_no_node :
      (cs : List Call) (run_id : String) (row : RunRow)
      → find_run run_id (session h ops cs empty_world).store.runs ≡ some row
      → is_terminal row.run.status ≡ not (is_some row.next_node)
  ended_iff_no_node cs run_id row found = ((session-Invariant cs).at run_id row found).ended
