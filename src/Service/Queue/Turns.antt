-- ===== src/Service/Queue/Turns.antt =====
-- The order in which the worker of src/repo_agent/service.py takes the waiting runs.
use agent_projects.Prelude.{
  ℕ, zero, suc, ◌+◌, ◌≤◌, String, ◌≡◌, refl, subst, false, Option, none, some, List, [], ◌∷◌, arith,
  eq_iff, Bool-cases, inl, inr,
}
use agent_projects.Errors.{Result, ok, err, pure}
use agent_projects.Service.Queue.{
  Job, Scheduler, is_for, pop, finish, position_from, queue_position,
}
use agent_projects.Service.Queue.Sound.{IsSound}
use agent_projects.Service.Queue.Popping.{popped, pop-head, popped-IsSound}

-- The scheduler after the worker has done the job that it was given.
abbrev after_job : Result (Option Job) → Scheduler → Scheduler
after_job (ok (some j)) s = (finish j.run_id s).1
after_job _ s = s

abbrev job_given : Result (Option Job) → Option Job
job_given (ok o) = o
job_given (err e) = none

-- The job of the turn after n others.
pub nth_job : ℕ → Scheduler → Option Job
nth_job zero s = job_given (pop s).0
nth_job (suc n) s = nth_job n (after_job (pop s).0 (pop s).1)

position_from-above :
    (k : ℕ) (run_id : String) (jobs : List Job) (n : ℕ)
    → position_from k run_id jobs ≡ some n
    → k ≤ n
unfolding position_from
position_from-above k run_id [] n found = absurd (ground arith)
position_from-above k run_id (j ∷ jobs) n found = elim (Bool-cases (is_for run_id j)) [
  | inl here ↦ let e : some k ≡ some n = rw here at found in ground (arith, e)
  | inr later ↦ omega (arith, position_from-above (k + 1) run_id jobs n (rw later at found))
]

position_from-shift :
    (k : ℕ) (run_id : String) (jobs : List Job) (n : ℕ)
    → position_from (suc k) run_id jobs ≡ some (suc n)
    → position_from k run_id jobs ≡ some n
unfolding position_from
position_from-shift k run_id [] n found = absurd (ground arith)
position_from-shift k run_id (j ∷ jobs) n found = elim (Bool-cases (is_for run_id j)) [
  | inl here ↦ rw here (let e : some (suc k) ≡ some (suc n) = rw here at found in ground (arith, e))
  | inr later ↦ rw later (
      position_from-shift (k + 1) run_id jobs n (
        let same : suc k + 1 ≡ suc (k + 1) = omega arith in
        subst (λ i. position_from i run_id jobs ≡ some (suc n)) same (rw later at found)))
]

finished-IsSound : (run_id : String) (s : Scheduler) → IsSound 0 s → IsSound 0 (finish run_id s).1
unfolding finish pure
finished-IsSound run_id s v = record {
  lockstep = v.lockstep;
  distinct = v.distinct;
  counted = v.counted;
}

turn_lem :
    (run_id : String) (n : ℕ) (s : Scheduler) (jobs : List Job)
    → IsSound 0 s
    → s.stopping ≡ false
    → s.queue ≡ jobs
    → position_from 1 run_id jobs ≡ some (suc n)
    → (j : Job) × (nth_job n s ≡ some j) × (j.run_id ≡ run_id)
unfolding nth_job position_from finish pure
turn_lem run_id n s [] v going head found = absurd (ground arith)
turn_lem run_id zero s (j ∷ rest) v going head found = elim (Bool-cases (is_for run_id j)) [
  | inl here ↦ (j, rw (pop-head j rest s v going head) refl, (eq_iff j.run_id run_id).0 here)
  | inr later ↦ absurd (omega (arith, position_from-above 2 run_id rest 1 (rw later at found)))
]
turn_lem run_id (suc n) s (j ∷ rest) v going head found = elim (Bool-cases (is_for run_id j)) [
  | inl here ↦ absurd (let e : some 1 ≡ some (suc (suc n)) = rw here at found in ground (arith, e))
  | inr later ↦
      let left = finished-IsSound j.run_id (popped j rest s) (popped-IsSound j rest s v head) in
      rw (pop-head j rest s v going head) (
        turn_lem run_id n _ rest left going refl
          (position_from-shift 1 run_id rest (suc n) (rw later at found)))
]

-- Every waiting run has its turn: while the scheduler is sound and not stopping, and while no
-- command comes in between, the run at position n + 1 is the one that the worker takes after n
-- others.
pub queue_position-turn :
    (run_id : String) (n : ℕ) (s : Scheduler)
    → IsSound 0 s
    → s.stopping ≡ false
    → queue_position run_id s ≡ some (suc n)
    → (j : Job) × (nth_job n s ≡ some j) × (j.run_id ≡ run_id)
unfolding queue_position
queue_position-turn run_id n s v going found =
    turn_lem run_id n s s.queue v going refl
      (subst (λ jobs. position_from 1 run_id jobs ≡ some (suc n)) v.lockstep found)
