-- ===== src/Service/System/Reachable.antt =====
-- What holds of the scheduler of src/repo_agent/service.py in every state that the service reaches.
use agent_projects.Prelude.{
  ℕ, ◌+◌, String, ◌≡◌, refl, sym, subst, Bool, true, false, Option, none, some, List, [], ◌∷◌,
  arith, length, ◌⊎◌, inl, inr, Bool-cases,
}
use agent_projects.Errors.{Result, Exec, ok, err, pure}
use agent_projects.Hoare.{Ends, Keeps}
use agent_projects.RunModels.{RunRecord}
use agent_projects.Database.{Database}
use agent_projects.Service.Queue.{Job, Scheduler, pop, finish, signal, cancel_job}
use agent_projects.Service.Queue.Sound.{IsSound, AreDistinct, Never}
use agent_projects.Service.Queue.Popping.{
  popped, pop-head, pop_stopping, pop_empty, popped-IsSound, pop-IsSound,
}
use agent_projects.Service.Queue.Cancelling.{cancel_job-IsSound}
use agent_projects.Service.Queue.Holders.{holders, AreHeld-signal, add_event_nil, drop_event_self}
use agent_projects.Service.State.{Service, Host, on_scheduler}
use agent_projects.Service.Worker.{begin_job, end_job}
use agent_projects.Service.Keeping.{
  OnScheduler, OnScheduler-on_scheduler, OnScheduler-begin_job, OnScheduler-checkpoint,
  OnScheduler-publish_event, OnScheduler-end_job,
}
use agent_projects.Service.Scheduling.{
  Ready, create_run-Ready, decide-Ready, resume-Ready, cancel-Ready, begin_close-Ready,
  finish_close-Ready,
}
use agent_projects.Service.System.{
  Phase, idle, gone, holding, executing, leaving, dying, held_by, System, after_pop, after_begin,
  after_end, does, Step, creates, decides, resumes, cancels, closes, wakes, begins, skips,
  checkpoints, publishes, ends, leaves, dies, starts, finishes, new_system, Reach, start, next,
}

-- The scheduler is sound, and the worker's run is the only one with a cancel event.
abbrev IsReady : {A : Type 0} → ℕ → System A → Type 0
IsReady max s = Ready max (held_by s.worker) 0 s.service.scheduler

module _ {A B : Type 0} {max : ℕ} {runs : List String} where
  -- An action that keeps the scheduler ready leaves it so, whether it returns or raises.
  ready_after :
      (m : Exec (Service A) B)
      → Keeps (OnScheduler (Ready max runs 0)) m
      → (s : System A) → Ready max runs 0 s.service.scheduler
      → Ready max runs 0 (does m s).service.scheduler
  ready_after m k s r = go (m s.service).0 (m s.service).1 (k.at s.service (record { on = r }))
    where
      go :
          (x : Result B) (t : Service A)
          → Ends (λ _. OnScheduler (Ready max runs 0)) (OnScheduler (Ready max runs 0)) x t
          → Ready max runs 0 t.scheduler
      go (ok b) t p = p.on
      go (err e) t p = p.on

Ready-signal :
    (max : ℕ) (runs : List String) (run_id : String) → Keeps (Ready max runs 0) (signal run_id)
unfolding signal pure
Ready-signal max runs run_id = record {
  at = λ s r. record {
    sound = record {
      lockstep = r.sound.lockstep;
      distinct = r.sound.distinct;
      counted = r.sound.counted;
    };
    held = (AreHeld-signal run_id).at s r.held;
  };
}

none_held : (b : Bool) → held_by (after_pop b (ok none)) ≡ []
none_held true = refl
none_held false = refl

-- The worker takes a job, or none.
Ready-pop :
    (max : ℕ) (s : Scheduler)
    → Ready max [] 0 s
    → Ready max (held_by (after_pop s.stopping (pop s).0)) 0 (pop s).1
Ready-pop max s r = go (Bool-cases s.stopping) s.queue refl
  where
    given :
        (o : Result (Option Job) × Scheduler)
        → pop s ≡ o
        → Ready max (held_by (after_pop s.stopping o.0)) 0 o.1
        → Ready max (held_by (after_pop s.stopping (pop s).0)) 0 (pop s).1
    given o e p = subst (λ o. Ready max (held_by (after_pop s.stopping o.0)) 0 o.1) (sym e) p

    nothing : Ready max (held_by (after_pop s.stopping (ok none))) 0 s
    nothing = subst (λ runs. Ready max runs 0 s) (sym (none_held s.stopping)) r

    go :
        (s.stopping ≡ true) ⊎ (s.stopping ≡ false)
        → (q : List Job) → s.queue ≡ q
        → Ready max (held_by (after_pop s.stopping (pop s).0)) 0 (pop s).1
    go (inl stops) q e = given (ok none, s) (pop_stopping s stops) nothing
    go (inr going) [] e = given (ok none, s) (pop_empty s going e) nothing
    go (inr going) (j ∷ rest) e =
        given (ok (some j), popped j rest s) (pop-head j rest s r.sound going e)
          (record {
            sound = popped-IsSound j rest s r.sound e;
            held = record {
              held = add_event_nil j.run_id s.cancel_events r.held.held;
              bound = r.held.bound;
            };
          })

Ready-finish :
    (max : ℕ) (run_id : String) (s : Scheduler)
    → Ready max (run_id ∷ []) 0 s
    → Ready max [] 0 (finish run_id s).1
unfolding finish pure
Ready-finish max run_id s r = record {
  sound = record {
    lockstep = r.sound.lockstep;
    distinct = r.sound.distinct;
    counted = r.sound.counted;
  };
  held = record { held = drop_event_self run_id s.cancel_events r.held.held; bound = r.held.bound };
}

-- The runs held at a phase that is known.
at_phase :
    {A : Type 0} (max : ℕ) (p : Phase) (s : System A)
    → s.worker ≡ p
    → IsReady max s
    → Ready max (held_by p) 0 s.service.scheduler
at_phase max p s e r = subst (λ w. Ready max (held_by w) 0 s.service.scheduler) e r

begin_held :
    (run_id : String) (o : Result (Option RunRecord)) → held_by (after_begin run_id o) ≡ run_id ∷ []
begin_held run_id (ok none) = refl
begin_held run_id (ok (some run)) = refl
begin_held run_id (err e) = refl

end_held : (run_id : String) (o : Result (Unit {0})) → held_by (after_end run_id o) ≡ run_id ∷ []
end_held run_id (ok x) = refl
end_held run_id (err e) = refl

-- An action that never raises.
returned :
    {B : Type 0} (r : Result B) (s : Scheduler)
    → Ends (λ _. IsSound 0) Never r s
    → (b : B) × (r ≡ ok b)
returned (ok b) s q = (b, refl)
returned (err e) s q = absurd q

unit_ok : (x : Unit {0}) (r : Result (Unit {0})) → r ≡ ok x → r ≡ ok tt
unit_ok x r e = e

module _ {A : Type 0} (h : Host A) (max : ℕ) where
  Step-IsReady : {s t : System A} → Step h s t → IsReady max s → IsReady max t
  unfolding on_scheduler
  Step-IsReady {s} (creates p k b a m e) r =
      subst (IsReady max) (sym e) (ready_after _ (create_run-Ready max _ h p k b a m) s r)
  Step-IsReady {s} (decides i a b e) r =
      subst (IsReady max) (sym e) (ready_after _ (decide-Ready max _ h i a b) s r)
  Step-IsReady {s} (resumes i e) r =
      subst (IsReady max) (sym e) (ready_after _ (resume-Ready max _ h i) s r)
  Step-IsReady {s} (cancels i e) r =
      subst (IsReady max) (sym e) (ready_after _ (cancel-Ready max _ h i) s r)
  Step-IsReady {s} (closes e) r =
      subst (IsReady max) (sym e) (ready_after _ (begin_close-Ready max _ h) s r)
  Step-IsReady {s} (wakes w e) r =
      subst (IsReady max) (sym e) (Ready-pop max s.service.scheduler (at_phase max idle s w r))
  Step-IsReady {s} (begins j w e) r = subst (IsReady max) (sym e) (
      subst (λ runs. Ready max runs 0 (does (begin_job h j) s).service.scheduler)
        (sym (begin_held j.run_id _))
        (ready_after _ (OnScheduler-begin_job h j) s (at_phase max (holding j) s w r)))
  Step-IsReady {s} (skips j w stops e) r = subst (IsReady max) (sym e) (
      ready_after _ (OnScheduler-on_scheduler _ (Ready-signal max _ j.run_id)) s
        (at_phase max (holding j) s w r))
  Step-IsReady {s} (checkpoints i w run event at detail o e) r =
      subst (IsReady max) (sym e)
        (ready_after _ (OnScheduler-checkpoint h i run event at detail) s r)
  Step-IsReady {s} (publishes i w event e) r =
      subst (IsReady max) (sym e) (ready_after _ (OnScheduler-publish_event h i event) s r)
  Step-IsReady {s} (ends i w outcome e) r = subst (IsReady max) (sym e) (
      subst (λ runs. Ready max runs 0 (does (end_job h i outcome) s).service.scheduler)
        (sym (end_held i _))
        (ready_after _ (OnScheduler-end_job h i outcome) s (at_phase max (executing i) s w r)))
  Step-IsReady {s} (leaves i w e) r =
      subst (IsReady max) (sym e)
        (Ready-finish max i s.service.scheduler (at_phase max (leaving i) s w r))
  Step-IsReady {s} (dies i w e) r =
      subst (IsReady max) (sym e)
        (Ready-finish max i s.service.scheduler (at_phase max (dying i) s w r))
  Step-IsReady {s} (starts w going held e) r = subst (IsReady max) (sym e) (at_phase max gone s w r)
  Step-IsReady {s} (finishes w stopped held e) r =
      subst (IsReady max) (sym e) (ready_after _ (finish_close-Ready max _ h) s r)

  new_system-IsReady :
      (database : Database) (artifacts : A) (ticks : ℕ)
      → IsReady max (new_system max database artifacts ticks)
  new_system-IsReady database artifacts ticks = record {
    sound = record { lockstep = refl; distinct = tt; counted = omega arith };
    held = record { held = refl; bound = refl };
  }

  Reach-IsReady : {s t : System A} → IsReady max s → Reach h s t → IsReady max t
  Reach-IsReady r start = r
  Reach-IsReady r (next before step) = Step-IsReady step (Reach-IsReady r before)

  -- The scheduler is sound: in every state that a service reaches from any database and artifacts,
  -- whatever its commands, its worker and the workflow do in between and whichever of their calls
  -- raise, the queue and the dictionary of scheduled runs hold the same jobs in the same order, no
  -- run waits twice, the free slots and the waiting jobs add up to `max_queue`, and the worker's run
  -- is the only one with a cancel event.
  pub scheduler_lem :
      (database : Database) (artifacts : A) (ticks : ℕ) (s : System A)
      → Reach h (new_system max database artifacts ticks) s
      → (s.service.scheduler.scheduled ≡ s.service.scheduler.queue)
        × AreDistinct s.service.scheduler.queue
        × (s.service.scheduler.slots + length s.service.scheduler.queue ≡ max)
        × (holders s.service.scheduler ≡ held_by s.worker)
  scheduler_lem database artifacts ticks s reached =
      let r = Reach-IsReady (new_system-IsReady database artifacts ticks) reached in
      (
        r.sound.lockstep,
        r.sound.distinct,
        omega (arith, r.sound.counted, r.held.bound),
        r.held.held,
      )

  -- The invariant guards are dead: in every reachable state, waking the worker raises nothing, and
  -- neither does the part of `cancel` that takes a job back, for any run.
  pub guards_dead :
      (database : Database) (artifacts : A) (ticks : ℕ) (s : System A)
      → Reach h (new_system max database artifacts ticks) s
      → ((o : Option Job) × ((pop s.service.scheduler).0 ≡ ok o))
        × ((run_id : String) (waiting : Bool)
            → (cancel_job run_id waiting s.service.scheduler).0 ≡ ok tt)
  guards_dead database artifacts ticks s reached =
      let r = Reach-IsReady (new_system-IsReady database artifacts ticks) reached in
      (
        returned (pop s.service.scheduler).0 (pop s.service.scheduler).1
            (pop-IsSound.at s.service.scheduler r.sound),
        λ run_id waiting.
            let (x, e) =
              returned (cancel_job run_id waiting s.service.scheduler).0
                (cancel_job run_id waiting s.service.scheduler).1
                ((cancel_job-IsSound run_id waiting).at s.service.scheduler r.sound) in
            unit_ok x _ e,
      )
