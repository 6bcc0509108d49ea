-- ===== src/Patches/Validation/Limits.antt =====
-- What a patch that `validate_patch` of src/repo_agent/patches.py accepts is.
use agent_projects.Prelude.{
  ℕ, suc, ◌≤◌, String, ◌≡◌, refl, sym, ap, subst, Bool, true, false, not, ◌&&◌, Option, none, some,
  List, [], ◌∷◌, if◌then◌else◌, ◌==◌, ltb, length, arith, is_one_of, str_len, strip, any_char,
}
use agent_projects.Errors.{Result, ok, err, and_then}
use agent_projects.Policy.{write, validate}
use agent_projects.Policy.Accepts.{accepted_lem}
use agent_projects.Patches.{refuse}
use agent_projects.Patches.Validation.{
  max_patch_bytes, max_patch_lines, utf8_len, is_surrogate, PatchFile, ValidatedPatch,
  max_patch_files, max_changed_lines, changed_lines, diff_header, at_old_marker, safe_write_path,
  parse_markers, parse_paths, parse_file_section, parse_sections, sections_of, checked_patch,
  starts_patch, validate_patch, splitlines, replace_crlf,
}

-- No path occurs twice, nor among those seen before.
abbrev pub are_distinct : List String → List PatchFile → Bool
are_distinct seen [] = true
are_distinct seen (f ∷ files) = not (is_one_of f.path seen) && are_distinct (f.path ∷ seen) files

-- The policy accepts each path for writing.
pub data AllWritable (casefold : String → String) : List PatchFile → Type 0 where
  no_file : AllWritable casefold []
  one_more :
      {f : PatchFile} {files : List PatchFile}
      → validate casefold (some f.path) write ≡ ok f.path
      → AllWritable casefold files
      → AllWritable casefold (f ∷ files)

pub and_then_ok :
    {A B : Type 0} (r : Result A) (f : A → Result B) (b : B)
    → and_then r f ≡ ok b
    → (a : A) × (r ≡ ok a) × (f a ≡ ok b)
unfolding and_then
and_then_ok (ok a) f b done = (a, refl, done)
and_then_ok (err e) f b done = ground arith

pub guard_ok :
    {A : Type 0} (b : Bool) (message : List String) (r : Result A) (a : A)
    → (if b then refuse message else r) ≡ ok a
    → (b ≡ false) × (r ≡ ok a)
unfolding refuse
guard_ok true message r a done = ground arith
guard_ok false message r a done = (refl, done)

written :
    (r : Result String) (path : String)
    → (elim r as (λ _. Result String) [ ok p ↦ ok p | err e ↦ refuse (e.message ∷ []) ]) ≡ ok path
    → r ≡ ok path
unfolding refuse
written (ok p) path safe = safe
written (err e) path safe = ground arith

pub fresh_lem :
    {A : Type 0} (b : Bool) (message : List String) (r : Result A) (a : A)
    → (elim b as (λ _. Result A) [ true ↦ refuse message | false ↦ r ]) ≡ ok a
    → (b ≡ false) × (r ≡ ok a)
unfolding refuse
fresh_lem true message r a done = ground arith
fresh_lem false message r a done = (refl, done)

pub ok_inj : {A : Type 0} (a b : A) → ok a ≡ ok b → a ≡ b
ok_inj {A} a b e = ap (λ r. elim r as (λ _. A) [ ok x ↦ x | err e ↦ a ]) e

module _ (casefold : String → String) (digit_value : ℕ → Option ℕ) (repr : String → String) where
  pub writable_lem :
      (header path : String)
      → safe_write_path casefold digit_value repr header ≡ ok path
      → validate casefold (some path) write ≡ ok path
  unfolding safe_write_path
  writable_lem header path safe =
      let valid = written (validate casefold (some header) write) path safe in
      let (same, _) = accepted_lem casefold header path write valid in
      subst (λ x. validate casefold (some x) write ≡ ok path) (sym same) valid

  markers_lem :
      (path : String) (before : List String) (old_marker : String) (after : List String)
      (f : PatchFile)
      → parse_markers casefold digit_value repr path before old_marker after ≡ ok f
      → f.path ≡ path
  unfolding parse_markers refuse
  markers_lem path before old_marker [] f parsed = ground arith
  markers_lem path before old_marker (new_marker ∷ body) f parsed =
      let (_, checked) = guard_ok _ _ _ f parsed in
      let (_, _, rest) = and_then_ok _ _ f checked in
      let (operation, _, counted) = and_then_ok _ _ f rest in
      let ((added_lines, removed_lines), _, made) = and_then_ok _ _ f counted in
      sym (ap (λ x. x.path) (ok_inj _ f made))

  marker_lem :
      (path : String) (o : Option (List String × String × List String)) (f : PatchFile)
      → (elim o as (λ _. Result PatchFile) [
        | none ↦ refuse ("patch for " ∷ path ∷ " lacks ---/+++ headers" ∷ [])
        | some (before, marker, after) ↦
            parse_markers casefold digit_value repr path before marker after
      ])
        ≡ ok f
      → f.path ≡ path
  unfolding refuse
  marker_lem path none f parsed = ground arith
  marker_lem path (some (before, marker, after)) f parsed =
      markers_lem path before marker after f parsed

  paths_lem :
      (old_path new_path : String) (lines : List String) (f : PatchFile)
      → parse_paths casefold digit_value repr old_path new_path lines ≡ ok f
      → f.path ≡ old_path
  unfolding parse_paths
  paths_lem old_path new_path lines f parsed =
      let (_, marked) = guard_ok _ _ _ f parsed in
      marker_lem old_path (at_old_marker lines) f marked

  header_lem :
      (lines : List String) (o : Option (String × String)) (f : PatchFile)
      → (elim o as (λ _. Result PatchFile) [
        | none ↦ refuse ("diff paths must be unquoted, whitespace-free repository paths" ∷ [])
        | some (old_header, new_header) ↦
            and_then (safe_write_path casefold digit_value repr old_header) λ old_path.
              and_then
                (safe_write_path casefold digit_value repr new_header)
                λ new_path. parse_paths casefold digit_value repr old_path new_path lines
      ])
        ≡ ok f
      → validate casefold (some f.path) write ≡ ok f.path
  unfolding refuse
  header_lem lines none f parsed = ground arith
  header_lem lines (some (old_header, new_header)) f parsed =
      let (old_path, safe, rest) =
        and_then_ok (safe_write_path casefold digit_value repr old_header) _ f parsed in
      let (new_path, _, whole) =
        and_then_ok (safe_write_path casefold digit_value repr new_header) _ f rest in
      let same = paths_lem old_path new_path lines f whole in
      subst (λ x. validate casefold (some x) write ≡ ok x) (sym same)
        (writable_lem old_header old_path safe)

  file_lem :
      (section : List String) (f : PatchFile)
      → parse_file_section casefold digit_value repr section ≡ ok f
      → validate casefold (some f.path) write ≡ ok f.path
  unfolding parse_file_section refuse
  file_lem [] f parsed = ground arith
  file_lem (header ∷ lines) f parsed = header_lem lines (diff_header header) f parsed

  sections_lem :
      (seen : List String) (sections : List (List String)) (files : List PatchFile)
      → parse_sections casefold digit_value repr seen sections ≡ ok files
      → (length files ≡ length sections)
        × (are_distinct seen files ≡ true)
        × AllWritable casefold files
  unfolding parse_sections
  sections_lem seen [] files parsed =
      subst (λ x. (length x ≡ 0) × (are_distinct seen x ≡ true) × AllWritable casefold x)
        (ok_inj [] files parsed) (refl, refl, no_file)
  sections_lem seen (section ∷ sections) files parsed =
      let (f, one, rest) = and_then_ok _ _ files parsed in
      let (fresh, more) = fresh_lem (is_one_of f.path seen) _ _ files rest in
      let (others, several, made) = and_then_ok _ _ files more in
      let (count, distinct, writable) = sections_lem (f.path ∷ seen) sections others several in
      subst
        (λ x.
          (length x ≡ suc (length sections))
          × (are_distinct seen x ≡ true)
          × AllWritable casefold x)
        (ok_inj (f ∷ others) files made)
        (omega (arith, count), rw fresh distinct, one_more (file_lem section f one) writable)

-- The promise of an accepted patch.
pub record IsWithinLimits (casefold : String → String) (files : List PatchFile) : Type 0 where
  pub some_file : 1 ≤ length files
  pub few_files : length files ≤ max_patch_files
  pub some_line : 1 ≤ changed_lines files
  pub few_lines : changed_lines files ≤ max_changed_lines
  pub distinct : are_distinct [] files ≡ true
  pub writable : AllWritable casefold files

positive : (n : ℕ) → (n == 0) ≡ false → 1 ≤ n
positive n nonzero = ground arith

at_most : (m n : ℕ) → ltb m n ≡ false → n ≤ m
at_most m n above = ground arith

checked_lem :
    (normalized : String) (files : List PatchFile) (p : ValidatedPatch)
    → checked_patch normalized files ≡ ok p
    → (files ≡ p.files)
      × (1 ≤ length files)
      × (1 ≤ changed_lines files)
      × (changed_lines files ≤ max_changed_lines)
unfolding checked_patch
checked_lem normalized files p checked =
    let (some_file, c1) = guard_ok (length files == 0) _ _ p checked in
    let (few_lines, c2) = guard_ok (ltb max_changed_lines (changed_lines files)) _ _ p c1 in
    let (some_line, made) = guard_ok (changed_lines files == 0) _ _ p c2 in
    (
      ap (λ x. x.files) (ok_inj _ p made),
      positive (length files) some_file,
      positive (changed_lines files) some_line,
      at_most max_changed_lines (changed_lines files) few_lines,
    )

sections_limits :
    (casefold : String → String) (digit_value : ℕ → Option ℕ) (repr : String → String)
    (sections : List (List String)) (normalized : String) (p : ValidatedPatch)
    → length sections ≤ max_patch_files
    → and_then
        (parse_sections casefold digit_value repr [] sections)
        (λ files. checked_patch normalized files)
      ≡ ok p
    → IsWithinLimits casefold p.files
sections_limits casefold digit_value repr sections normalized p few accepted =
    let (files, parsed, checked) =
      and_then_ok (parse_sections casefold digit_value repr [] sections) _ p accepted in
    let (count, distinct, writable) =
      sections_lem casefold digit_value repr [] sections files parsed in
    let (same, some_file, some_line, few_lines) = checked_lem normalized files p checked in
    subst (IsWithinLimits casefold) same (record {
      some_file = some_file;
      few_files = omega (arith, count, few);
      some_line = some_line;
      few_lines = few_lines;
      distinct = distinct;
      writable = writable;
    })

-- Accepted patches are within the limits: where `validate_patch` accepts a value, the patch has 1
-- to 12 files and 1 to 1200 changed lines, no path occurs in it twice, and the path policy accepts
-- each of its paths for writing.
pub validate_patch_lem :
    (casefold : String → String) (digit_value : ℕ → Option ℕ) (repr : String → String)
    (value : Option String) (p : ValidatedPatch)
    → validate_patch casefold digit_value repr value ≡ ok p
    → IsWithinLimits casefold p.files
unfolding validate_patch refuse
validate_patch_lem casefold digit_value repr none p valid = ground arith
validate_patch_lem casefold digit_value repr (some value) p valid =
    let normalized = replace_crlf value in
    let lines = splitlines normalized in
    let sections = (sections_of lines).1 in
    let (_, c1) = guard_ok (str_len (strip value) == 0) _ _ p valid in
    let (_, c2) = guard_ok (any_char (λ c. c == 0) value) _ _ p c1 in
    let (_, c3) = guard_ok (any_char (λ c. c == 13) normalized) _ _ p c2 in
    let (_, c4) = guard_ok (any_char is_surrogate normalized) _ _ p c3 in
    let (_, c5) = guard_ok (ltb max_patch_bytes (utf8_len normalized)) _ _ p c4 in
    let (_, c6) = guard_ok (ltb max_patch_lines (length lines)) _ _ p c5 in
    let (_, c7) = guard_ok (not (starts_patch lines)) _ _ p c6 in
    let (few, c8) = guard_ok (ltb max_patch_files (length sections)) _ _ p c7 in
    sections_limits casefold digit_value repr sections normalized p
      (at_most max_patch_files (length sections) few) c8
