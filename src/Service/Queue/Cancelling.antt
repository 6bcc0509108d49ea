-- ===== src/Service/Queue/Cancelling.antt =====
-- A job that is taken back by `cancel` in src/repo_agent/service.py, and the scheduler after it.
use agent_projects.Prelude.{
  suc, String, ◌≡◌, refl, sym, ap, ◌∙◌, subst, Bool, true, false, Option, none, some, List, [], ◌∷◌,
  any, arith, ltb, length, eq_iff, Bool-cases, inl, inr,
}
use agent_projects.Errors.{pure, raise, throw, gets, ◌>>=◌}
use agent_projects.Hoare.{Ends, Hoare}
use agent_projects.Service.Queue.{
  Job, Scheduler, job_eq, is_for, release, find_job, drop_job, remove_job, signal, take_back,
  cancel_job,
}
use agent_projects.Service.Queue.Sound.{IsSound, AreDistinct, Never}
use agent_projects.Service.Queue.Popping.{job_eq_self, is_for_self}

find_job-is_for :
    (run_id : String) (jobs : List Job) (j : Job)
    → find_job run_id jobs ≡ some j
    → j.run_id ≡ run_id
unfolding find_job
find_job-is_for run_id [] j found = absurd (ground arith)
find_job-is_for run_id (k ∷ jobs) j found =
    ground (arith, eq_iff k.run_id run_id, find_job-is_for run_id jobs j)

some_inj : (a b : Job) → some a ≡ some b → a ≡ b
some_inj a b e = cc

-- A job that is found, and what is left without it.
found_lem :
    (run_id : String) (jobs : List Job) (j : Job)
    → find_job run_id jobs ≡ some j
    → (any (λ k. job_eq k j) jobs ≡ true)
      × (remove_job j jobs ≡ drop_job j.run_id jobs)
      × (suc (length (drop_job j.run_id jobs)) ≡ length jobs)
unfolding find_job drop_job remove_job
found_lem run_id [] j found = absurd (ground arith)
found_lem run_id (k ∷ jobs) j found = elim (Bool-cases (is_for run_id k)) [
  | inl here ↦
      let same : k ≡ j = some_inj k j (rw here at found) in
      subst
        (λ i.
          (any (λ k. job_eq k i) (k ∷ jobs) ≡ true)
          × (remove_job i (k ∷ jobs) ≡ drop_job i.run_id (k ∷ jobs))
          × (suc (length (drop_job i.run_id (k ∷ jobs))) ≡ length (k ∷ jobs)))
        same
        (rw (job_eq_self k) refl, rw (job_eq_self k, is_for_self k) refl, rw (is_for_self k) refl)
  | inr later ↦
      let deeper = rw later at found in
      let (present, removed, left) = found_lem run_id jobs j deeper in
      let its = find_job-is_for run_id jobs j deeper in
      let other : is_for j.run_id k ≡ false = subst (λ i. is_for i k ≡ false) (sym its) later in
      let different : job_eq k j ≡ false = rw (other, job_eq) refl in
      (
        rw different present,
        rw (different, other) (ap (λ l. k ∷ l) removed),
        rw other (ap suc left),
      )
]

any-drop_job :
    (run_id other : String) (jobs : List Job)
    → any (is_for other) jobs ≡ false
    → any (is_for other) (drop_job run_id jobs) ≡ false
unfolding drop_job
any-drop_job run_id other [] none_there = refl
any-drop_job run_id other (k ∷ jobs) none_there = ground (arith, any-drop_job run_id other jobs)

AreDistinct-drop_job :
    (run_id : String) (jobs : List Job) → AreDistinct jobs → AreDistinct (drop_job run_id jobs)
unfolding drop_job
AreDistinct-drop_job run_id [] v = tt
AreDistinct-drop_job run_id (k ∷ jobs) v = elim (Bool-cases (is_for run_id k)) [
  | inl here ↦ rw here v.1
  | inr later ↦
      rw later (any-drop_job run_id k.run_id jobs v.0, AreDistinct-drop_job run_id jobs v.1)
]

-- The invariant does not speak of the cancel events.
with_events-IsSound :
    (s : Scheduler) (events : List (String × Bool))
    → IsSound 0 s
    → IsSound 0 (record s { cancel_events = events })
with_events-IsSound s events v = record {
  lockstep = v.lockstep;
  distinct = v.distinct;
  counted = v.counted;
}

-- Taking a waiting job back.
take_back_lem :
    (run_id : String) (s : Scheduler) (o : Option Job)
    → IsSound 0 s
    → find_job run_id s.scheduled ≡ o
    → Ends (λ _. IsSound 0) Never (take_back o s).0 (take_back o s).1
unfolding take_back pure gets raise throw release ◌>>=◌
take_back_lem run_id s none v found = v
take_back_lem run_id s (some j) v found =
    let queued = subst (λ jobs. find_job run_id jobs ≡ some j) v.lockstep found in
    let (present, removed, left) = found_lem run_id s.queue j queued in
    let room : ltb s.slots s.max_queue ≡ true = ground (arith, v.counted, left) in
    rw present (
      rw room (record {
        lockstep = ap (drop_job j.run_id) v.lockstep ∙ sym removed;
        distinct =
            subst AreDistinct (sym removed) (AreDistinct-drop_job j.run_id s.queue v.distinct);
        counted = omega (arith, v.counted, left, ap length removed);
      }))

-- `cancel` of a run keeps the invariant; its dictionary entry is never missing from the queue.
pub cancel_job-IsSound :
    (run_id : String) (waiting : Bool)
    → Hoare (IsSound 0) (cancel_job run_id waiting) (λ _. IsSound 0) Never
unfolding cancel_job signal pure gets ◌>>=◌
cancel_job-IsSound run_id true = record {
  at = λ s v. take_back_lem run_id _ _ (with_events-IsSound s _ v) refl;
}
cancel_job-IsSound run_id false = record { at = λ s v. with_events-IsSound s _ v }
