-- ===== src/Service/System/Final.antt =====
-- What src/repo_agent/service.py leaves of a run that has ended, in every state that it reaches.
use agent_projects.Prelude.{
  ℕ, String, ◌≡◌, ◌≢◌, refl, sym, subst, Bool, true, false, Option, none, some, arith,
}
use agent_projects.Errors.{Result, Exec, ok, err}
use agent_projects.Hoare.{Ends, Keeps}
use agent_projects.RunModels.{
  RunRecord, PublicRunStatus, is_terminal, status_eq, inflight_lem, queued, planning,
  awaiting_approval, running, interrupted, succeeded, unverified, failed, cancelled, policy_denied,
  rejected,
}
use agent_projects.Database.{Database}
use agent_projects.Database.Holding.{Holds, Holds-both}
use agent_projects.Database.Storing.{Anything}
use agent_projects.Service.State.{Service, Host, on_scheduler}
use agent_projects.Service.Commands.{finish_close}
use agent_projects.Service.Keeping.{OnDatabase}
use agent_projects.Service.Stored.{Stored}
use agent_projects.Service.Stored.Beginning.{Active, Begun, begin_job-Begun}
use agent_projects.Service.Stored.Commands.{
  is_settled, create_run-Stored, decide-Stored, resume-Stored, cancel-Stored, begin_close-Stored,
}
use agent_projects.Service.Stored.Worker.{
  persisted_status, begin_job-Stored, checkpoint-Stored, publish_event-Stored, end_job-Stored,
  finish_close-Stored,
}
use agent_projects.Service.System.{
  Phase, idle, gone, holding, executing, leaving, dying, System, after_pop, after_begin, after_end,
  does, is_outside, Step, creates, decides, resumes, cancels, closes, wakes, begins, skips,
  checkpoints, publishes, ends, leaves, dies, starts, finishes, new_system, Reach, start, next,
}

-- A run that a workflow runs on is stored as active.
abbrev AtWork : Phase → Database → Type 0
AtWork (executing run_id) db = Holds run_id Active db
AtWork idle db = Unit
AtWork gone db = Unit
AtWork (holding j) db = Unit
AtWork (leaving run_id) db = Unit
AtWork (dying run_id) db = Unit

abbrev IsAtWork : {A : Type 0} → System A → Type 0
IsAtWork s = AtWork s.worker s.service.database

-- The run is stored, with this status.
abbrev pub HasStatus : {A : Type 0} → String → PublicRunStatus → System A → Type 0
HasStatus run_id st s = Holds run_id (λ x. x ≡ st) s.service.database

module _ {A B : Type 0} (run_id : String) (C : PublicRunStatus → Type 0) where
  Stored-after :
      (m : Exec (Service A) B)
      → Keeps (Stored run_id C) m
      → (s : System A) → Holds run_id C s.service.database
      → Holds run_id C (does m s).service.database
  Stored-after m k s v = go (m s.service).0 (m s.service).1 (k.at s.service (record { on = v }))
    where
      go :
          (x : Result B) (t : Service A)
          → Ends (λ _. Stored run_id C) (Stored run_id C) x t
          → Holds run_id C t.database
      go (ok b) t p = p.on
      go (err e) t p = p.on

module _ {A B : Type 0} where
  -- A command, whoever is at work.
  AtWork-after :
      (m : Exec (Service A) B)
      → ((run_id : String) → Keeps (Stored run_id Active) m)
      → (s : System A) (p : Phase) → AtWork p s.service.database
      → AtWork p (does m s).service.database
  AtWork-after m k s (executing run_id) v = Stored-after run_id Active m (k run_id) s v
  AtWork-after m k s idle v = tt
  AtWork-after m k s gone v = tt
  AtWork-after m k s (holding j) v = tt
  AtWork-after m k s (leaving run_id) v = tt
  AtWork-after m k s (dying run_id) v = tt

popped-AtWork : (b : Bool) (o : Result (Option _)) (db : Database) → AtWork (after_pop b o) db
popped-AtWork b (ok (some j)) db = tt
popped-AtWork true (ok none) db = tt
popped-AtWork false (ok none) db = tt
popped-AtWork b (err e) db = tt

Begun-AtWork :
    {A : Type 0} (run_id : String) (o : Result (Option RunRecord)) (s : Service A)
    → Ends (Begun run_id) (OnDatabase Anything) o s
    → AtWork (after_begin run_id o) s.database
Begun-AtWork run_id (ok (some run)) s p = p.on
Begun-AtWork run_id (ok none) s p = tt
Begun-AtWork run_id (err e) s p = tt

ended-AtWork :
    (run_id : String) (o : Result (Unit {0})) (db : Database) → AtWork (after_end run_id o) db
ended-AtWork run_id (ok x) db = tt
ended-AtWork run_id (err e) db = tt

persisted-Active : (st : PublicRunStatus) → is_outside st ≡ false → Active (persisted_status st)
unfolding status_eq
persisted-Active queued e = ground (arith, e)
persisted-Active planning e = refl
persisted-Active awaiting_approval e = refl
persisted-Active running e = refl
persisted-Active interrupted e = ground (arith, e)
persisted-Active succeeded e = refl
persisted-Active unverified e = refl
persisted-Active failed e = refl
persisted-Active cancelled e = refl
persisted-Active policy_denied e = refl
persisted-Active rejected e = refl

ended-Active : (st : PublicRunStatus) → is_terminal st ≡ true → Active st → ⊥
ended-Active st e a =
    let going = inflight_lem st (ground (arith, a)) in absurd (ground (arith, e, going))

at_gone : (p : Phase) (db : Database) → p ≡ gone → AtWork p db
at_gone p db e = subst (λ q. AtWork q db) (sym e) tt

Active-settled : (st : PublicRunStatus) → Active st → is_settled st ≡ true
Active-settled st h = ground (arith, h)

module _ {A : Type 0} (h : Host A) where
  Step-IsAtWork : {s t : System A} → Step h s t → IsAtWork s → IsAtWork t
  Step-IsAtWork {s} (creates p k b a m e) v =
      subst IsAtWork (sym e)
        (AtWork-after _ (λ i. create_run-Stored i Active Active-settled h p k b a m) s s.worker v)
  Step-IsAtWork {s} (decides i a b e) v =
      subst IsAtWork (sym e)
        (AtWork-after _ (λ j. decide-Stored j Active Active-settled h i a b) s s.worker v)
  Step-IsAtWork {s} (resumes i e) v =
      subst IsAtWork (sym e)
        (AtWork-after _ (λ j. resume-Stored j Active Active-settled h i) s s.worker v)
  Step-IsAtWork {s} (cancels i e) v =
      subst IsAtWork (sym e)
        (AtWork-after _ (λ j. cancel-Stored j Active Active-settled h i) s s.worker v)
  Step-IsAtWork {s} (closes e) v =
      subst IsAtWork (sym e)
        (AtWork-after _ (λ j. begin_close-Stored j Active Active-settled h) s s.worker v)
  Step-IsAtWork {s} (wakes w e) v =
      subst IsAtWork (sym e) (popped-AtWork s.service.scheduler.stopping _ _)
  Step-IsAtWork {s} (begins j w e) v =
      subst IsAtWork (sym e)
        (Begun-AtWork j.run_id _ _ ((begin_job-Begun h j).at s.service (record { on = tt })))
  Step-IsAtWork {s} (skips j w stops e) v = subst IsAtWork (sym e) tt
  Step-IsAtWork {s} (checkpoints i w run event at detail o e) v = subst IsAtWork (sym e) (
      AtWork-after _
        (λ j. checkpoint-Stored j Active h i run event at detail λ _. persisted-Active run.status o)
        s s.worker v)
  Step-IsAtWork {s} (publishes i w event e) v =
      subst IsAtWork (sym e)
        (AtWork-after _ (λ j. publish_event-Stored j Active h i event) s s.worker v)
  Step-IsAtWork {s} (ends i w outcome e) v = subst IsAtWork (sym e) (ended-AtWork i _ _)
  Step-IsAtWork {s} (leaves i w e) v = subst IsAtWork (sym e) tt
  Step-IsAtWork {s} (dies i w e) v = subst IsAtWork (sym e) tt
  Step-IsAtWork {s} (starts w going held e) v = subst IsAtWork (sym e) tt
  Step-IsAtWork {s} (finishes w stopped held e) v =
      subst IsAtWork (sym e) (at_gone s.worker (does (finish_close h) s).service.database w)

  not_at_work :
      (run_id own : String) (st : PublicRunStatus) (s : System A)
      → is_terminal st ≡ true
      → HasStatus run_id st s
      → s.worker ≡ executing own
      → IsAtWork s
      → own ≢ run_id
  not_at_work run_id own st s ended v w at same =
      let active = subst (λ p. AtWork p s.service.database) w at in
      let (x, works, is) =
        Holds-both run_id Active (λ x. x ≡ st) s.service.database
          (subst (λ i. Holds i Active s.service.database) same active) v in
      ended-Active x (subst (λ y. is_terminal y ≡ true) (sym is) ended) works

  Step-HasStatus :
      (run_id : String) (st : PublicRunStatus) {s t : System A}
      → is_terminal st ≡ true
      → Step h s t
      → IsAtWork s
      → HasStatus run_id st s
      → HasStatus run_id st t
  unfolding on_scheduler
  Step-HasStatus run_id st {s} {t} ended step at v = go step
    where
      terminal : (x : PublicRunStatus) → x ≡ st → is_terminal x ≡ true
      terminal x e = subst (λ y. is_terminal y ≡ true) (sym e) ended

      settled : (x : PublicRunStatus) → x ≡ st → is_settled x ≡ true
      settled x e = ground (arith, terminal x e)

      same :
          {B : Type 0} (m : Exec (Service A) B) (u : System A)
          → Keeps (Stored run_id (λ x. x ≡ st)) m
          → u ≡ does m s
          → HasStatus run_id st u
      same m u k e = subst (HasStatus run_id st) (sym e) (Stored-after run_id (λ x. x ≡ st) m k s v)

      go : Step h s t → HasStatus run_id st t
      go (creates p k b a m e) = same _ _ (create_run-Stored run_id _ settled h p k b a m) e
      go (decides i a b e) = same _ _ (decide-Stored run_id _ settled h i a b) e
      go (resumes i e) = same _ _ (resume-Stored run_id _ settled h i) e
      go (cancels i e) = same _ _ (cancel-Stored run_id _ settled h i) e
      go (closes e) = same _ _ (begin_close-Stored run_id _ settled h) e
      go (wakes w e) = subst (HasStatus run_id st) (sym e) v
      go (begins j w e) =
          subst (HasStatus run_id st) (sym e)
            (Stored-after run_id _ _ (begin_job-Stored run_id _ h j terminal) s v)
      go (skips j w stops e) = subst (HasStatus run_id st) (sym e) v
      go (checkpoints i w run event node detail o e) =
          same _ _
            (checkpoint-Stored run_id _ h i run event node detail
              λ own. absurd (not_at_work run_id i st s ended v w at own))
            e
      go (publishes i w event e) = same _ _ (publish_event-Stored run_id _ h i event) e
      go (ends i w outcome e) = subst (HasStatus run_id st) (sym e) (
          Stored-after run_id _ _
            (end_job-Stored run_id _ h i outcome (not_at_work run_id i st s ended v w at)) s v)
      go (leaves i w e) = subst (HasStatus run_id st) (sym e) v
      go (dies i w e) = subst (HasStatus run_id st) (sym e) v
      go (starts w going held e) = subst (HasStatus run_id st) (sym e) v
      go (finishes w stopped held e) = same _ _ (finish_close-Stored run_id _ h terminal) e

  Reach-IsAtWork : {s t : System A} → IsAtWork s → Reach h s t → IsAtWork t
  Reach-IsAtWork v start = v
  Reach-IsAtWork v (next before step) = Step-IsAtWork step (Reach-IsAtWork v before)

  Reach-HasStatus :
      (run_id : String) (st : PublicRunStatus) {s t : System A}
      → is_terminal st ≡ true
      → IsAtWork s
      → HasStatus run_id st s
      → Reach h s t
      → HasStatus run_id st t
  Reach-HasStatus run_id st ended at v start = v
  Reach-HasStatus run_id st ended at v (next before step) =
      Step-HasStatus run_id st ended step (Reach-IsAtWork at before)
        (Reach-HasStatus run_id st ended at v before)

  -- A run that has ended stays as it ended: if the status stored for it in a state that a service
  -- reaches is terminal, then it is the one stored in every later state, whatever the commands, the
  -- worker and the workflows do in between and whichever of their calls raise.
  pub ended_lem :
      (max : ℕ) (database : Database) (artifacts : A) (ticks : ℕ) (s t : System A) (run_id : String)
      (st : PublicRunStatus)
      → Reach h (new_system max database artifacts ticks) s
      → is_terminal st ≡ true
      → HasStatus run_id st s
      → Reach h s t
      → HasStatus run_id st t
  ended_lem max database artifacts ticks s t run_id st reached ended v later =
      Reach-HasStatus run_id st ended (Reach-IsAtWork tt reached) v later
