-- ===== src/Examples/Paths.antt =====
-- A path and two plan files, and the properties of the path policy and of plans on them.
use agent_projects.Prelude.{◌≢◌, String, ◌≡◌, refl, false, some, fmt, List, [], ◌∷◌, ◌++◌}
use agent_projects.Errors.{ok}
use agent_projects.Prelude.{
  any_char, starts_with, ends_with, has_infix, split, onto_first, first_piece, last_piece,
  lstrip_char, is_one_of,
}
use agent_projects.Policy.{
  read, discover, write, is_sensitive_name, validate, first_refusal, accept_unless, text_refusal,
  parts_refusal, part_refusal, name_refusal, is_sensitive_folded, is_windows_absolute, is_control,
  is_unsafe_on_windows,
}
use agent_projects.RunModels.Plans.{
  StaysInside, validate_files, values_unless, files_refusal, file_refusal, validate_files_lem,
}
use agent_projects.Policy.Accepts.{validate_lem, write_reads, validate-below}
use agent_projects.Examples.{unfolded}

abbrev app_name : String
app_name = "app.py"

abbrev app_path : String
app_path = "src/app.py"

accepted_path : validate unfolded (some app_path) write ≡ ok app_path
unfolding validate first_refusal accept_unless text_refusal parts_refusal part_refusal name_refusal
    is_sensitive_name is_sensitive_folded is_windows_absolute is_control is_unsafe_on_windows
    any_char starts_with ends_with has_infix split onto_first first_piece last_piece lstrip_char
    is_one_of fmt
accepted_path = refl

validate_lem_example :
    (app_path ≡ app_path)
    × (app_name ≢ "")
    × (app_name ≢ ".")
    × (app_name ≢ "..")
    × (app_name ≢ ".git")
    × (is_sensitive_name unfolded app_name ≡ false)
unfolding is_one_of split onto_first
validate_lem_example = validate_lem unfolded app_path app_path write app_name accepted_path refl

write_reads_example :
    (validate unfolded (some app_path) read ≡ ok app_path)
    × (validate unfolded (some app_path) discover ≡ ok app_path)
write_reads_example = write_reads unfolded (some app_path) app_path accepted_path

validate-below_example :
    (validate unfolded (some "src") read ≡ ok "src")
    × (validate unfolded (some "src") discover ≡ ok "src")
validate-below_example = validate-below unfolded "src" app_name app_path write accepted_path

abbrev plan_files : List String
plan_files = app_path ∷ "tests/test_app.py" ∷ []

accepted_files : validate_files unfolded plan_files ≡ ok plan_files
unfolding validate_files values_unless files_refusal file_refusal first_refusal any_char starts_with
    split onto_first is_one_of
accepted_files = refl

validate_files_lem_example :
    (plan_files ≡ plan_files)
    × ((front back : List String) (a : String) → plan_files ≡ front ++ (a ∷ back) → StaysInside a)
    × ((front middle back : List String) (a b : String)
        → plan_files ≡ front ++ (a ∷ (middle ++ (b ∷ back)))
        → unfolded a ≢ unfolded b)
validate_files_lem_example = validate_files_lem unfolded plan_files plan_files accepted_files
