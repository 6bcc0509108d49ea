-- ===== src/Service/State.antt =====
-- The state of RunService in src/repo_agent/service.py and what it is given, with the checks of
-- its arguments.
use agent_projects.Prelude.{
  ℕ, suc, String, Bool, true, not, ◌&&◌, ◌||◌, Option, none, some, [], ◌∷◌, ltb, ◌==◌,
  if◌then◌else◌, str_eq, str_len, any_char, starts_with, strip, fmt,
}
use agent_projects.Errors.{
  Result, Exec, Exc, ok, err, pure, raise, ◌>>=◌, value_error, validation_error,
  repository_not_allowed, type_name,
}
use agent_projects.RunModels.{RunRecord}
use agent_projects.Outcomes.{Detail}
use agent_projects.Database.{Database, get}
use agent_projects.Service.Queue.{Scheduler}

-- What comes from outside: `A` is the state of the artifact store.
pub record Host (A : Type 0) : Type 0 where
  -- `utc_now()` at the n-th use of the clock, and `uuid.uuid4().hex`
  pub now : ℕ → String
  pub new_id : ℕ → String
  -- Python's `int(value, 16)` accepts the text, and `str.lower`
  pub is_hexadecimal : String → Bool
  pub lower : String → String
  -- `_validated_repo_path` and `_record_is_allowed`, which ask the file system
  pub validated_repo_path : String → Result String
  pub record_is_allowed : RunRecord → Bool
  -- the artifact store, any method of which may raise
  pub initialize : String → Exec A String
  pub write_record : RunRecord → Exec A (Unit {0})
  pub append_trace : String → Detail → Exec A (Unit {0})
  pub write_report : String → String → Exec A (Unit {0})

pub record Service (A : Type 0) : Type 0 where
  pub database : Database
  pub artifacts : A
  pub scheduler : Scheduler
  pub ticks : ℕ

module _ {A : Type 0} {B : Type 0} where
  unfoldable pub on_database : Exec Database B → Exec (Service A) B
  on_database m s = let (r, d) = m s.database in (r, record s { database = d })

  unfoldable pub on_artifacts : Exec A B → Exec (Service A) B
  on_artifacts m s = let (r, a) = m s.artifacts in (r, record s { artifacts = a })

  unfoldable pub on_scheduler : Exec Scheduler B → Exec (Service A) B
  on_scheduler m s = let (r, q) = m s.scheduler in (r, record s { scheduler = q })

  -- A function that may raise and reads no state.
  unfoldable pub lift : Result B → Exec (Service A) B
  lift r s = (r, s)

module _ {A : Type 0} (h : Host A) where
  unfoldable pub utc_now : Exec (Service A) String
  utc_now s = (ok (h.now s.ticks), record s { ticks = suc s.ticks })

  unfoldable pub fresh_id : Exec (Service A) String
  fresh_id s = (ok (h.new_id s.ticks), record s { ticks = suc s.ticks })

invalid : {B : Type 0} → String → Result B
invalid message = err (record { kind = value_error; message = message })

-- `_validated_task`, `_validated_base_ref` and `_validated_reason` of texts.
unfoldable pub validated_task : String → Result String
unfolding invalid
validated_task value =
    if str_len (strip value) == 0 || any_char (λ c. c == 0) value
    then invalid "task must contain non-whitespace text"
    else if ltb 4000 (str_len (strip value))
    then invalid "task must be at most 4000 characters"
    else ok (strip value)

unfoldable pub validated_base_ref : Option String → Result (Option String)
unfolding invalid
validated_base_ref none = ok none
validated_base_ref (some value) =
    if str_len (strip value) == 0
    then invalid "base_ref must contain non-whitespace text"
    else if ltb 255 (str_len (strip value))
        || starts_with (strip value) "-"
        || any_char (λ c. ltb c 32) (strip value)
    then invalid "base_ref is invalid"
    else ok (some (strip value))

unfoldable pub validated_reason : Option String → Result (Option String)
unfolding invalid
validated_reason none = ok none
validated_reason (some value) =
    if any_char (λ c. c == 0) value
    then invalid "reason must be text"
    else if ltb 2000 (str_len (strip value))
    then invalid "reason must be at most 2000 characters"
    else ok (if str_len (strip value) == 0 then none else some (strip value))

abbrev pub is_short : ℕ → Option String → Bool
is_short n none = true
is_short n (some s) = not (ltb n (str_len s))

-- `_validated_copy`: pydantic's check of the fields that an update can make too long.
unfoldable pub validated_copy : RunRecord → Result RunRecord
validated_copy run =
    if is_short 4000 run.error && is_short 4000 run.summary && is_short 2000 run.approval_reason
    then ok run
    else err (record { kind = validation_error; message = "RunRecord" })

-- `_exception_detail`
unfoldable pub exception_detail : Exc → String
unfolding type_name
exception_detail e =
    let detail = strip e.message in
    if str_len detail == 0 then type_name e.kind else fmt (type_name e.kind ∷ ": " ∷ detail ∷ [])

module _ {A : Type 0} (h : Host A) where
  unfoldable pub validated_run_id : String → Result String
  unfolding invalid
  validated_run_id value =
      if not (str_len value == 32)
        || not (h.is_hexadecimal value)
        || not (str_eq value (h.lower value))
      then invalid "invalid run id"
      else ok value

  unfoldable pub allowed_or_refuse : RunRecord → Exec (Service A) RunRecord
  allowed_or_refuse run =
      if h.record_is_allowed run
      then pure run
      else raise repository_not_allowed "run repository is outside the configured allowed roots"

  unfoldable pub get_run : String → Exec (Service A) RunRecord
  get_run run_id = do
    valid ← lift (validated_run_id run_id)
    run ← on_database (get valid)
    allowed_or_refuse run
