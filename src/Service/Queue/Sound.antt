-- ===== src/Service/Queue/Sound.antt =====
-- The invariant of the scheduler of src/repo_agent/service.py: the queue and the dictionary are in
-- lockstep, no run waits twice, and each slot is free, taken by a waiting run, or about to be.
use agent_projects.Prelude.{
  ℕ, ◌+◌, ◌≡◌, refl, ap, subst, Bool, true, false, not, ◌||◌, List, [], ◌∷◌, ◌++◌, any, arith,
  if◌then◌else◌, length, length-append, eq_iff, Bool-cases, inl, inr,
}
use agent_projects.Errors.{pure, raise, throw}
use agent_projects.Hoare.{Hoare, Hoare-pure, Hoare-throw, Hoare-bind, Hoare-try, Hoare-before}
use agent_projects.Service.Queue.{
  Job, Scheduler, is_for, require_open, acquire, release, refuse_full, insert_job,
  schedule_acquired, schedule,
}

abbrev pub AreDistinct : List Job → Type 0
AreDistinct [] = Unit {0}
AreDistinct (j ∷ jobs) = (any (is_for j.run_id) jobs ≡ false) × AreDistinct jobs

-- With `taken` slots that a command has acquired and not yet given to a job.
pub record IsSound (taken : ℕ) (s : Scheduler) : Type 0 where
  pub lockstep : s.scheduled ≡ s.queue
  pub distinct : AreDistinct s.queue
  pub counted : s.slots + taken + length s.queue ≡ s.max_queue

abbrev pub Never : Scheduler → Type 0
Never s = ⊥

module _ {E : Scheduler → Type 0} where
  pub acquire-IsSound : Hoare (IsSound 0) acquire (λ b. IsSound (if b then 1 else 0)) E
  unfolding acquire pure
  acquire-IsSound = record { at = λ s v. ground arith }

  -- Giving back a slot that was taken never raises.
  pub release-IsSound : Hoare (IsSound 1) release (λ _. IsSound 0) E
  unfolding release pure
  release-IsSound = record { at = λ s v. ground arith }

any-append :
    (p : Job → Bool) (jobs : List Job) (j : Job) → any p (jobs ++ j ∷ []) ≡ (any p jobs || p j)
any-append p [] j = ground arith
any-append p (k ∷ jobs) j = ground (arith, any-append p jobs j)

AreDistinct-append :
    (jobs : List Job) (j : Job)
    → AreDistinct jobs
    → any (is_for j.run_id) jobs ≡ false
    → AreDistinct (jobs ++ j ∷ [])
AreDistinct-append [] j v fresh = (refl, tt)
AreDistinct-append (k ∷ jobs) j v fresh =
    let other : is_for k.run_id j ≡ false =
      ground (arith, fresh, eq_iff j.run_id k.run_id, eq_iff k.run_id j.run_id) in
    (
      ground (arith, any-append (is_for k.run_id) jobs j, v.0, other),
      AreDistinct-append jobs j v.1 (ground (arith, fresh)),
    )

insert_job-IsSound : (j : Job) → Hoare (IsSound 1) (insert_job j) (λ _. IsSound 0) (IsSound 1)
unfolding insert_job pure raise throw
insert_job-IsSound j = record {
  at = λ s v. elim (Bool-cases (any (is_for j.run_id) s.scheduled)) [
    | inl dup ↦ rw dup v
    | inr fresh ↦ rw fresh (record {
      lockstep = ap (λ jobs. jobs ++ j ∷ []) v.lockstep;
      distinct =
          AreDistinct-append s.queue j v.distinct
            (subst (λ jobs. any (is_for j.run_id) jobs ≡ false) v.lockstep fresh);
      counted = omega (arith, v.counted, length-append s.queue (j ∷ []));
    })
  ];
}

-- The slots that a call of `schedule` finds taken for it.
abbrev pub reserved : Bool → ℕ
reserved true = 1
reserved false = 0

pub require_open-IsSound : (k : ℕ) → Hoare (IsSound k) require_open (λ _. IsSound k) (IsSound k)
unfolding require_open pure raise throw
require_open-IsSound k = record {
  at = λ s v. elim (Bool-cases (s.stopping || not s.lease_held)) [
    | inl shut ↦ rw shut v
    | inr open_now ↦ rw open_now v
  ];
}

schedule_acquired-IsSound :
    (j : Job) (b : Bool)
    → Hoare (IsSound 1) (schedule_acquired j b) (λ _. IsSound 0) (IsSound (reserved b))
unfolding schedule_acquired
schedule_acquired-IsSound j true =
    Hoare-try (insert_job j) _ (insert_job-IsSound j)
      λ e. Hoare-bind (pure tt) _ (Hoare-pure tt λ s v. v) λ _. Hoare-throw e λ s v. v
schedule_acquired-IsSound j false =
    Hoare-try (insert_job j) _ (insert_job-IsSound j)
      λ e. Hoare-bind release _ release-IsSound λ _. Hoare-throw e λ s v. v

pub refuse_full-IsSound :
    {A : Type 0} (k : ℕ) → Hoare (IsSound k) (refuse_full {A = A}) (λ _. IsSound k) (IsSound k)
unfolding refuse_full raise throw
refuse_full-IsSound k = record { at = λ s v. v }

-- `schedule` gives the job a slot, or leaves the slots as it found them.
pub schedule-IsSound :
    (j : Job) (b : Bool)
    → Hoare (IsSound (reserved b)) (schedule j b) (λ _. IsSound 0) (IsSound (reserved b))
unfolding schedule
schedule-IsSound j true = Hoare-bind require_open _ (require_open-IsSound 1) λ _.
    Hoare-bind {Q = λ a s. (a ≡ true) × IsSound 1 s} (pure true) _
      (Hoare-pure true λ s v. (refl, v)) granted
  where
    granted :
        (a : Bool)
        → Hoare
            (λ s. (a ≡ true) × IsSound 1 s)
            (if a then schedule_acquired j true else refuse_full)
            (λ _. IsSound 0)
            (IsSound 1)
    granted true = Hoare-before _ (λ s v. v.1) (schedule_acquired-IsSound j true)
    granted false = record { at = λ s v. absurd (ground (arith, v.0)) }
schedule-IsSound j false =
    Hoare-bind require_open _ (require_open-IsSound 0)
      λ _. Hoare-bind {Q = λ a. IsSound (if a then 1 else 0)} acquire _ acquire-IsSound granted
  where
    granted :
        (a : Bool)
        → Hoare
            (IsSound (if a then 1 else 0))
            (if a then schedule_acquired j false else refuse_full)
            (λ _. IsSound 0)
            (IsSound 0)
    granted true = schedule_acquired-IsSound j false
    granted false = refuse_full-IsSound 0
