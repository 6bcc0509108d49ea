-- ===== src/Service/Queue/Popping.antt =====
-- The worker takes a job, in src/repo_agent/service.py: what `pop` does to a sound scheduler.
use agent_projects.Prelude.{
  ◌+◌, ◌≡◌, refl, ap, ◌∙◌, subst, Bool, true, false, ◌&&◌, none, some, List, [], ◌∷◌, arith, ltb,
  if◌then◌else◌, length, str_eq, eq_iff,
}
use agent_projects.Errors.{ok, pure, raise, throw, gets, ◌>>=◌}
use agent_projects.Hoare.{Ends, Hoare}
use agent_projects.Service.Queue.{
  Job, Scheduler, same_flag, job_eq, is_for, release, find_job, drop_job, add_event, is_that,
  take_head, pop,
}
use agent_projects.Service.Queue.Sound.{IsSound, AreDistinct, Never}

pub job_eq_self : (j : Job) → job_eq j j ≡ true
unfolding job_eq same_flag
job_eq_self j = go j.resumes
  where
    go : (b : Bool) → (str_eq j.run_id j.run_id && same_flag b b) ≡ true
    go true = ground (arith, eq_iff j.run_id j.run_id)
    go false = ground (arith, eq_iff j.run_id j.run_id)

pub is_for_self : (j : Job) → is_for j.run_id j ≡ true
is_for_self j = (eq_iff j.run_id j.run_id).1 refl

-- The scheduler after the worker has taken the first job.
abbrev pub popped : Job → List Job → Scheduler → Scheduler
popped j rest s = record s {
  queue = rest;
  scheduled = rest;
  slots = s.slots + 1;
  cancel_events = add_event j.run_id s.cancel_events;
}

take_head_lem :
    (j : Job) (rest : List Job) (s : Scheduler)
    → IsSound 0 s
    → s.queue ≡ j ∷ rest
    → take_head (j ∷ rest) s ≡ (ok (some j), popped j rest s)
unfolding take_head find_job drop_job is_that release pure gets raise throw ◌>>=◌
take_head_lem j rest s v head =
    let both : s.scheduled ≡ j ∷ rest = ground (arith, v.lockstep, head) in
    let room : ltb s.slots s.max_queue ≡ true = ground (arith, v.counted, ap length head) in
    rw both (rw (is_for_self j, job_eq_self j) (rw room refl))

-- The worker takes the first job that waits, and frees its slot: while the scheduler is sound and
-- not stopping, `pop` of a queue that is not empty returns its head, leaves the rest in the queue
-- and in the dictionary, and registers a cancel event. The two never diverge, and the semaphore is
-- never released too often.
pub pop-head :
    (j : Job) (rest : List Job) (s : Scheduler)
    → IsSound 0 s
    → s.stopping ≡ false
    → s.queue ≡ j ∷ rest
    → pop s ≡ (ok (some j), popped j rest s)
unfolding pop
pop-head j rest s v going head =
    ap (λ b. (if b then pure none else take_head s.queue) s) going
    ∙ ap (λ q. take_head q s) head
    ∙ take_head_lem j rest s v head

pub pop_stopping : (s : Scheduler) → s.stopping ≡ true → pop s ≡ (ok none, s)
unfolding pop pure
pop_stopping s stops = ap (λ b. (if b then pure none else take_head s.queue) s) stops

pub pop_empty : (s : Scheduler) → s.stopping ≡ false → s.queue ≡ [] → pop s ≡ (ok none, s)
unfolding pop take_head pure
pop_empty s going empty =
    ap (λ b. (if b then pure none else take_head s.queue) s) going ∙ ap (λ q. take_head q s) empty

pub popped-IsSound :
    (j : Job) (rest : List Job) (s : Scheduler)
    → IsSound 0 s
    → s.queue ≡ j ∷ rest
    → IsSound 0 (popped j rest s)
popped-IsSound j rest s v head = record {
  lockstep = refl;
  distinct = (subst AreDistinct head v.distinct).1;
  counted = omega (arith, v.counted, ap length head);
}

-- Waking the worker keeps the invariant and never raises.
pub pop-IsSound : Hoare (IsSound 0) pop (λ _. IsSound 0) Never
unfolding pop pure take_head
pop-IsSound = record { at = λ s v. go s v s.stopping s.queue refl }
  where
    go :
        (s : Scheduler)
        → IsSound 0 s
        → (b : Bool) (q : List Job) → s.queue ≡ q
        → Ends
            (λ _. IsSound 0)
            Never
            ((if b then pure none else take_head q) s).0
            ((if b then pure none else take_head q) s).1
    go s v true q e = v
    go s v false [] e = v
    go s v false (j ∷ rest) e = rw (take_head_lem j rest s v e) (popped-IsSound j rest s v e)
