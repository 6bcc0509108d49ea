-- ===== src/Service/Stored.antt =====
-- What the methods of src/repo_agent/service.py keep of the stored status of one run: rules for the
-- parts of the state, and for reading and publishing a run.
pub mod Beginning
pub mod Commands
pub mod Publishing
pub mod Worker
use agent_projects.Prelude.{
  ℕ, String, ◌≡◌, ◌≢◌, refl, sym, ap, subst, Bool-cases, inl, inr, Bool, true, false, not, ◌&&◌,
  Option, none, some, List, [], ◌∷◌, if◌then◌else◌, arith, ◌||◌, str_len, str_eq, ◌==◌,
}
use agent_projects.Errors.{Result, Exec, Exc, ok, err, pure, raise, throw, proceed, ◌>>=◌, ◌>>◌}
use agent_projects.Hoare.{
  Ends, Hoare, Hoare-bind, Hoare-pure, Hoare-raise, Hoare-before, Hoare-after, Hoare-if, Keeps,
  Keeps-pure, Keeps-if, keeps_rules,
}
use agent_projects.RunModels.{RunRecord, PublicRunStatus, is_terminal}
use agent_projects.Outcomes.{Leaf, Detail}
use agent_projects.Database.{Database, get, put}
use agent_projects.Database.Holding.{Fits, Holds, Holds-put, Holds-append_event, Holds-get}
use agent_projects.Service.Queue.{Scheduler}
use agent_projects.Service.State.{
  Service, Host, on_database, on_artifacts, on_scheduler, lift, utc_now, fresh_id, validated_copy,
  validated_run_id, get_run, allowed_or_refuse, is_short,
}
use agent_projects.Service.Publishing.{
  append_event, trace, write_report, publish_stopped, finish_cancelled,
}
use agent_projects.Service.Keeping.{OnDatabase, Keeps-lift}

module _ {A B : Type 0} {R E : Database → Type 0} {Q : B → Database → Type 0} where
  pub OnDatabase-on_database :
      (m : Exec Database B)
      → Hoare R m Q E
      → Hoare (OnDatabase {A = A} R) (on_database m) (λ b. OnDatabase (Q b)) (OnDatabase E)
  unfolding on_database
  OnDatabase-on_database m k = record {
    at = λ s p. go (m s.database).0 (m s.database).1 s (k.at s.database p.on);
  }
    where
      go :
          (r : Result B) (d : Database) (s : Service A)
          → Ends Q E r d
          → Ends (λ b. OnDatabase (Q b)) (OnDatabase E) r (record s { database = d })
      go (ok b) d s p = record { on = p }
      go (err e) d s p = record { on = p }

module _ {A B : Type 0} {R : Database → Type 0} where
  pub OnDatabase-on_artifacts : (m : Exec A B) → Keeps (OnDatabase {A = A} R) (on_artifacts m)
  unfolding on_artifacts
  OnDatabase-on_artifacts m = record { at = λ s p. go (m s.artifacts).0 (m s.artifacts).1 s p }
    where
      go :
          (r : Result B) (a : A) (s : Service A)
          → OnDatabase R s
          → Ends (λ _. OnDatabase R) (OnDatabase R) r (record s { artifacts = a })
      go (ok b) a s p = record { on = p.on }
      go (err e) a s p = record { on = p.on }

  pub OnDatabase-on_scheduler :
      (m : Exec Scheduler B) → Keeps (OnDatabase {A = A} R) (on_scheduler m)
  unfolding on_scheduler
  OnDatabase-on_scheduler m = record { at = λ s p. go (m s.scheduler).0 (m s.scheduler).1 s p }
    where
      go :
          (r : Result B) (q : Scheduler) (s : Service A)
          → OnDatabase R s
          → Ends (λ _. OnDatabase R) (OnDatabase R) r (record s { scheduler = q })
      go (ok b) q s p = record { on = p.on }
      go (err e) q s p = record { on = p.on }

module _ {A : Type 0} {R : Database → Type 0} (h : Host A) where
  pub OnDatabase-utc_now : Keeps (OnDatabase R) (utc_now h)
  unfolding utc_now
  OnDatabase-utc_now = record { at = λ s p. record { on = p.on } }

  pub OnDatabase-fresh_id : Keeps (OnDatabase R) (fresh_id h)
  unfolding fresh_id
  OnDatabase-fresh_id = record { at = λ s p. record { on = p.on } }

pub ruleset database_rules = (
  keeps_rules, Keeps-lift, OnDatabase-on_database, OnDatabase-on_artifacts, OnDatabase-on_scheduler,
  OnDatabase-utc_now, OnDatabase-fresh_id, Holds-append_event,
)

-- A copy is the record that it was given, and so is a run id.
pub copied : (run copy : RunRecord) → validated_copy run ≡ ok copy → copy ≡ run
unfolding validated_copy
copied run copy valid =
    elim (Bool-cases
      (is_short 4000 run.error && is_short 4000 run.summary && is_short 2000 run.approval_reason)) [
        | inl fine ↦ let e : ok run ≡ ok copy = rw fine at valid in cc
        | inr long ↦ let e : err _ ≡ ok copy = rw long at valid in absurd (cc)
      ]

module _ {A B C : Type 0} {P : Service A → Type 0} {Q : B → Service A → Type 0} where
  -- Going on with a value that did not raise.
  pub with_lift :
      (r : Result C) (f : C → Exec (Service A) B)
      → ((c : C) → r ≡ ok c → Hoare P (f c) Q P)
      → Hoare P (lift r >>= f) Q P
  unfolding lift ◌>>=◌
  with_lift r f k = record { at = λ s p. go r refl s p }
    where
      go :
          (x : Result C)
          → r ≡ x
          → (s : Service A) → P s
          → Ends Q P (proceed x f s).0 (proceed x f s).1
      go (ok c) e s p = (k c e).at s p
      go (err e) _ s p = p

module _ {A B : Type 0} {P : Service A → Type 0} {Q : B → Service A → Type 0} where
  pub with_copy :
      (run : RunRecord) (f : RunRecord → Exec (Service A) B)
      → Hoare P (f run) Q P
      → Hoare P (lift (validated_copy run) >>= f) Q P
  with_copy run f k =
      with_lift (validated_copy run) f
        λ copy valid. subst (λ r. Hoare P (f r) Q P) (sym (copied run copy valid)) k

abbrev pub Stored : {A : Type 0} → String → (PublicRunStatus → Type 0) → Service A → Type 0
Stored run_id C = OnDatabase (Holds run_id C)

valid_id :
    {A : Type 0} (h : Host A) (other valid : String)
    → validated_run_id h other ≡ ok valid
    → valid ≡ other
unfolding validated_run_id
valid_id h other valid e =
    elim (Bool-cases (
      not (str_len other == 32)
      || not (h.is_hexadecimal other)
      || not (str_eq other (h.lower other)))) [
        | inl bad ↦ let refused : err _ ≡ ok valid = rw bad at e in absurd (cc)
        | inr fine ↦ let same : ok other ≡ ok valid = rw fine at e in cc
      ]

allowed_lem :
    {A : Type 0} (P : Service A → Type 0) (F : RunRecord → Type 0) (h : Host A) (run : RunRecord)
    → Hoare (λ s. P s × F run) (allowed_or_refuse h run) (λ r s. P s × F r) P
unfolding allowed_or_refuse
allowed_lem P F h run =
    Hoare-if (h.record_is_allowed run) _ _ (λ _. Hoare-pure run λ s p. p)
      (λ _. Hoare-raise _ _ λ s p. p.0)

-- What reading the database gives, `get_run` gives.
pub get_run-gives :
    {A : Type 0} (P : Service A → Type 0) (F : RunRecord → Type 0) (h : Host A) (other : String)
    → Hoare P (on_database (get other)) (λ run s. P s × F run) P
    → Hoare P (get_run h other) (λ run s. P s × F run) P
unfolding get_run
get_run-gives P F h other k = with_lift (validated_run_id h other) _ λ valid checked.
    subst (λ i. Hoare P (on_database (get i) >>= allowed_or_refuse h) (λ run s. P s × F run) P)
      (sym (valid_id h other valid checked))
      (Hoare-bind {Q = λ run s. P s × F run} _ _ k (allowed_lem P F h))

module _ {A : Type 0} (run_id : String) (C : PublicRunStatus → Type 0) (h : Host A) where
  pub get_run-Fits :
      (other : String)
      → Hoare
          (Stored run_id C)
          (get_run h other)
          (λ run s. Stored run_id C s × (Fits run_id C run × (run.run_id ≡ other)))
          (Stored run_id C)
  get_run-Fits other =
      get_run-gives (Stored run_id C) (λ run. Fits run_id C run × (run.run_id ≡ other)) h other
        (Hoare-after _ (λ run s p. (record { on = p.on.0 }, (p.on.1, p.on.2))) (λ s p. p)
          (OnDatabase-on_database (get other) (Holds-get other)))

  pub Stored-get_run : (other : String) → Keeps (Stored run_id C) (get_run h other)
  Stored-get_run other = Hoare-after _ (λ run s p. p.0) (λ s p. p) (get_run-Fits other)

  -- Going on with a run that was read.
  pub with_run :
      {B : Type 0} {Q : B → Service A → Type 0} (other : String)
      (f : RunRecord → Exec (Service A) B)
      → ((run : RunRecord)
          → Fits run_id C run
          → run.run_id ≡ other
          → Hoare (Stored run_id C) (f run) Q (Stored run_id C))
      → Hoare (Stored run_id C) (get_run h other >>= f) Q (Stored run_id C)
  with_run other f k =
      Hoare-bind _ _ (get_run-Fits other) λ run. record { at = λ s p. (k run p.1.0 p.1.1).at s p.0 }

  -- Publishing a run that fits.
  pub Stored-trace :
      (run : RunRecord) (event : String) (detail : List (String × Leaf))
      → Keeps (Stored run_id C) (trace h run event detail)
  unfolding trace append_event
  Stored-trace run event detail = search database_rules depth 10

  pub Stored-put :
      (run : RunRecord)
      → Fits run_id C run
      → Keeps (Stored {A = A} run_id C) (on_database (put run))
  Stored-put run fits = OnDatabase-on_database (put run) (Holds-put run fits)

  pub Stored-publish_stopped :
      (run : RunRecord) (event : String) (detail : List (String × Leaf))
      → Fits run_id C run
      → Keeps (Stored run_id C) (publish_stopped h run event detail)
  unfolding publish_stopped write_report
  Stored-publish_stopped run event detail fits = Hoare-bind _ _ (OnDatabase-on_artifacts _) λ _.
      Hoare-bind _ _
        (Keeps-if (is_terminal run.status) _ _ (λ _. OnDatabase-on_artifacts _) λ _. Keeps-pure tt)
        λ _. Hoare-bind _ _ (Stored-trace run event detail) λ _. Stored-put run fits

  pub Stored-finish_cancelled :
      (run : RunRecord) → run.run_id ≢ run_id → Keeps (Stored run_id C) (finish_cancelled h run)
  unfolding finish_cancelled
  Stored-finish_cancelled run other = Hoare-bind _ _ (OnDatabase-utc_now h) λ now.
      with_copy _ _ (
        Hoare-bind _ _ (Stored-publish_stopped _ _ _ λ same. absurd (other same)) λ _. Keeps-pure _)
