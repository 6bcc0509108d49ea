-- ===== src/Service/Queue/Holders.antt =====
-- The runs that have a cancel event in the scheduler of src/repo_agent/service.py.
use agent_projects.Prelude.{
  ℕ, String, ◌≡◌, refl, ap, ◌∙◌, Bool, true, false, not, ◌||◌, Option, none, some, List, [], ◌∷◌,
  map, any, arith, eq_iff, Bool-cases, inl, inr,
}
use agent_projects.Errors.{pure, raise, throw}
use agent_projects.Hoare.{Keeps, keeps_rules}
use agent_projects.Service.Queue.{
  Job, Scheduler, is_for, require_open, acquire, release, refuse_full, insert_job,
  schedule_acquired, schedule, set_event, has_event, add_event, drop_event, take_back, signal,
  cancel_job, stop, release_lease,
}

abbrev pub holders : Scheduler → List String
holders s = map (λ e. e.0) s.cancel_events

-- Who has a cancel event, in a scheduler with this bound.
pub record AreHeld (max_queue : ℕ) (runs : List String) (s : Scheduler) : Type 0 where
  pub held : holders s ≡ runs
  pub bound : s.max_queue ≡ max_queue

map-set_event :
    (run_id : String) (events : List (String × Bool))
    → map (λ e. e.0) (set_event run_id events) ≡ map (λ e. e.0) events
unfolding set_event
map-set_event run_id [] = refl
map-set_event run_id ((k, b) ∷ events) = ap (λ l. k ∷ l) (map-set_event run_id events)

map-stop :
    (events : List (String × Bool))
    → map (λ (e : String × Bool). e.0) (map (λ e. (e.0, true)) events) ≡ map (λ e. e.0) events
map-stop [] = refl
map-stop ((k, b) ∷ events) = ap (λ l. k ∷ l) (map-stop events)

module _ {max : ℕ} {runs : List String} where
  pub AreHeld-require_open : Keeps (AreHeld max runs) require_open
  unfolding require_open pure raise throw
  AreHeld-require_open = record {
    at = λ s p. elim (Bool-cases (s.stopping || not s.lease_held)) [
      | inl shut ↦ rw shut p
      | inr open_now ↦ rw open_now p
    ];
  }

  pub AreHeld-acquire : Keeps (AreHeld max runs) acquire
  unfolding acquire pure
  AreHeld-acquire = record { at = λ s p. ground arith }

  pub AreHeld-release : Keeps (AreHeld max runs) release
  unfolding release pure raise throw
  AreHeld-release = record { at = λ s p. ground arith }

  pub AreHeld-refuse_full : {B : Type 0} → Keeps (AreHeld max runs) (refuse_full {A = B})
  unfolding refuse_full raise throw
  AreHeld-refuse_full = record { at = λ s p. p }

  AreHeld-insert_job : (j : Job) → Keeps (AreHeld max runs) (insert_job j)
  unfolding insert_job pure raise throw
  AreHeld-insert_job j = record {
    at = λ s p. elim (Bool-cases (any (is_for j.run_id) s.scheduled)) [
      | inl dup ↦ rw dup p
      | inr fresh ↦ rw fresh (record { held = p.held; bound = p.bound })
    ];
  }

  AreHeld-schedule_acquired :
      (j : Job) (b : Bool) → Keeps (AreHeld max runs) (schedule_acquired j b)
  unfolding schedule_acquired
  AreHeld-schedule_acquired j true = search (keeps_rules, AreHeld-insert_job)
  AreHeld-schedule_acquired j false = search (keeps_rules, AreHeld-insert_job, AreHeld-release)

  pub AreHeld-schedule : (j : Job) (b : Bool) → Keeps (AreHeld max runs) (schedule j b)
  unfolding schedule
  AreHeld-schedule j b = search (
    keeps_rules, AreHeld-require_open, AreHeld-acquire, AreHeld-schedule_acquired,
    AreHeld-refuse_full,
  )

  pub AreHeld-signal : (run_id : String) → Keeps (AreHeld max runs) (signal run_id)
  unfolding signal pure
  AreHeld-signal run_id = record {
    at = λ s p. record { held = map-set_event run_id s.cancel_events ∙ p.held; bound = p.bound };
  }

  -- A change of the state that leaves the events.
  AreHeld-step :
      {B : Type 0} (b : B) (f : Scheduler → Scheduler)
      → ((s : Scheduler) → (f s).cancel_events ≡ s.cancel_events)
      → ((s : Scheduler) → (f s).max_queue ≡ s.max_queue)
      → Keeps (AreHeld max runs) (λ s. pure b (f s))
  unfolding pure
  AreHeld-step b f same still = record {
    at = λ s p. record { held = ap (map (λ e. e.0)) (same s) ∙ p.held; bound = still s ∙ p.bound };
  }

  AreHeld-take_back : (o : Option Job) → Keeps (AreHeld max runs) (take_back o)
  unfolding take_back
  AreHeld-take_back none = search keeps_rules
  AreHeld-take_back (some j) = search (keeps_rules, AreHeld-release, AreHeld-step)

  pub AreHeld-cancel_job :
      (run_id : String) (waiting : Bool) → Keeps (AreHeld max runs) (cancel_job run_id waiting)
  unfolding cancel_job
  AreHeld-cancel_job run_id waiting = search (keeps_rules, AreHeld-signal, AreHeld-take_back)

  pub AreHeld-stop : Keeps (AreHeld max runs) stop
  unfolding stop pure
  AreHeld-stop = record {
    at = λ s p. elim (Bool-cases s.lease_held) [
      | inl held ↦ rw held (record { held = map-stop s.cancel_events ∙ p.held; bound = p.bound })
      | inr released ↦ rw released (record { held = p.held; bound = p.bound })
    ];
  }

  pub AreHeld-release_lease : Keeps (AreHeld max runs) release_lease
  unfolding release_lease pure
  AreHeld-release_lease = record { at = λ s p. record { held = p.held; bound = p.bound } }

-- Who holds an event after the worker has taken a job, and after it has done it.
pub add_event_nil :
    (run_id : String) (events : List (String × Bool))
    → map (λ e. e.0) events ≡ []
    → map (λ e. e.0) (add_event run_id events) ≡ run_id ∷ []
unfolding add_event has_event
add_event_nil run_id [] e = refl
add_event_nil run_id (x ∷ events) e = absurd (ground arith)

pub drop_event_self :
    (run_id : String) (events : List (String × Bool))
    → map (λ e. e.0) events ≡ run_id ∷ []
    → map (λ e. e.0) (drop_event run_id events) ≡ []
unfolding drop_event
drop_event_self run_id [] e = absurd (ground arith)
drop_event_self run_id ((k, b) ∷ []) e = ground (arith, eq_iff k run_id)
drop_event_self run_id ((k, b) ∷ x ∷ events) e = absurd (ground arith)
