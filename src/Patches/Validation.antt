-- ===== src/Patches/Validation.antt =====
-- `validate_patch` of src/repo_agent/patches.py: the limits of a patch and the parsing of its
-- sections. Case folding and the values of decimal digits are parameters.
use Prim.Native.Char.{Char, code}
use Prim.Native.String.{◌++◌ as str_append}
use agent_projects.Prelude.{
  ℕ, zero, suc, ◌+◌, String, Bool, true, false, not, ◌&&◌, ◌||◌, Option, none, some, List, [], ◌∷◌,
  if◌then◌else◌, ◌==◌, ltb, leb, any, length, str_len, str_eq, decimal, fmt, starts_with, ends_with,
  strip, is_space, any_char, onto_first, is_one_of,
}
use agent_projects.Errors.{Result, ok, err, and_then}
use agent_projects.Policy.{write, validate}
use agent_projects.Patches.{refuse}
use agent_projects.Patches.Headers.{after_prefix}
use agent_projects.Patches.Sections.{count_section}
pub mod Limits

pub data Operation : Type 0 where
  add delete modify : Operation

-- `PatchFile`
pub record PatchFile : Type 0 where
  pub path : String
  pub operation : Operation
  pub added_lines : ℕ
  pub removed_lines : ℕ

-- `ValidatedPatch`
pub record ValidatedPatch : Type 0 where
  pub text : String
  pub files : List PatchFile

abbrev pub max_patch_bytes : ℕ
max_patch_bytes = 65536

abbrev pub max_patch_files : ℕ
max_patch_files = 12

abbrev pub max_changed_lines : ℕ
max_changed_lines = 1200

abbrev pub max_patch_lines : ℕ
max_patch_lines = 4000

-- `ValidatedPatch.changed_lines`
unfoldable pub changed_lines : List PatchFile → ℕ
changed_lines [] = 0
changed_lines (f ∷ files) = (f.added_lines + f.removed_lines) + changed_lines files

-- `value.replace("\r\n", "\n")`
unfoldable pub replace_crlf : String → String
replace_crlf String.[] = String.[]
replace_crlf (String.◌∷◌ c s) =
    let rest = replace_crlf s in
    if code c == 13 && starts_with s "\n" then rest else String.◌∷◌ c rest

-- The line breaks of `str.splitlines`, on a text without carriage returns.
unfoldable pub is_break : ℕ → Bool
is_break c = (leb 10 c && leb c 13) || (leb 28 c && leb c 30) || c == 133 || c == 8232 || c == 8233

unfoldable pub splitlines : String → List String
unfolding is_break onto_first
splitlines String.[] = []
splitlines (String.◌∷◌ c s) =
    let lines = splitlines s in if is_break (code c) then String.[] ∷ lines else onto_first c lines

-- A surrogate, which UTF-8 does not encode, and the bytes of another character.
unfoldable pub is_surrogate : ℕ → Bool
is_surrogate c = leb 55296 c && leb c 57343

unfoldable pub utf8_width : ℕ → ℕ
utf8_width c = if ltb c 128 then 1 else if ltb c 2048 then 2 else if ltb c 65536 then 3 else 4

unfoldable pub utf8_len : String → ℕ
utf8_len String.[] = 0
utf8_len (String.◌∷◌ c s) = utf8_width (code c) + utf8_len s

-- The characters of a text before its first space, and the rest from there.
unfoldable pub until_space : String → String × String
until_space String.[] = (String.[], String.[])
until_space (String.◌∷◌ c s) =
    let (word, rest) = until_space s in
    if is_space (code c) then (String.[], String.◌∷◌ c s) else (String.◌∷◌ c word, rest)

-- The groups of `_DIFF_HEADER`.
unfoldable pub diff_header : String → Option (String × String)
unfolding until_space after_prefix
diff_header line = elim (after_prefix "diff --git a/" line) [
  | none ↦ none
  | some s ↦
      let (old, rest) = until_space s in
      elim (after_prefix " b/" rest) [
        | none ↦ none
        | some s' ↦
            let (new, end) = until_space s' in
            if str_len old == 0 || str_len new == 0 || not (str_len end == 0)
            then none
            else some (old, new)
      ]
]

unfoldable pub is_hex_digit : ℕ → Bool
is_hex_digit c = (leb 48 c && leb c 57) || (leb 97 c && leb c 102) || (leb 65 c && leb c 70)

unfoldable pub hex_run : String → ℕ × String
unfolding is_hex_digit
hex_run String.[] = (0, String.[])
hex_run (String.◌∷◌ c s) =
    let (n, rest) = hex_run s in
    if is_hex_digit (code c) then (suc n, rest) else (0, String.◌∷◌ c s)

abbrev pub is_hash_length : ℕ → Bool
is_hash_length n = leb 4 n && leb n 64

-- `_INDEX_LINE`
unfoldable pub is_index_line : String → Bool
unfolding hex_run after_prefix
is_index_line line = elim (after_prefix "index " line) [
  | none ↦ false
  | some s ↦
      let (n, rest) = hex_run s in
      elim (after_prefix ".." rest) [
        | none ↦ false
        | some s' ↦
            let (n', end) = hex_run s' in
            is_hash_length n
            && is_hash_length n'
            && (str_eq end "" || str_eq end " 100644" || str_eq end " 100755")
      ]
]

abbrev pub forbidden_prefixes : List String
forbidden_prefixes =
    "Binary files " ∷ "GIT binary patch" ∷ "Submodule " ∷ "copy from " ∷ "copy to "
    ∷ "deleted file mode " ∷ "new file mode " ∷ "new mode " ∷ "old mode " ∷ "rename from "
    ∷ "rename to " ∷ "similarity index " ∷ []

-- `_validate_metadata`, which returns nothing, and `repr` of a line in its message.
unfoldable pub validate_metadata : (String → String) → List String → Result ℕ
unfolding is_index_line
validate_metadata repr [] = ok 0
validate_metadata repr (line ∷ lines) =
    let rest = validate_metadata repr lines in
    if is_index_line line
      || str_eq line "new file mode 100644"
      || str_eq line "deleted file mode 100644"
    then rest
    else if any (starts_with line) forbidden_prefixes
    then refuse ("binary, link, mode, rename, and copy patches are not supported" ∷ [])
    else refuse ("unsupported patch metadata: " ∷ repr line ∷ [])

-- The lines before the first that starts with `--- `, that line, and the lines after it.
unfoldable pub at_old_marker : List String → Option (List String × String × List String)
at_old_marker [] = none
at_old_marker (line ∷ lines) =
    let later = at_old_marker lines in
    if starts_with line "--- " then some ([], line, lines) else elim later [
      | none ↦ none
      | some (before, marker, after) ↦ some (line ∷ before, marker, after)
    ]

-- The operation that the paths of the two markers stand for.
unfoldable pub operation_of : String → String → String → Result Operation
operation_of path old_marker new_marker =
    if str_eq old_marker "--- /dev/null" && str_eq new_marker (fmt ("+++ b/" ∷ path ∷ []))
    then ok add
    else if str_eq old_marker (fmt ("--- a/" ∷ path ∷ [])) && str_eq new_marker "+++ /dev/null"
    then ok delete
    else if str_eq old_marker (fmt ("--- a/" ∷ path ∷ []))
        && str_eq new_marker (fmt ("+++ b/" ∷ path ∷ []))
    then ok modify
    else refuse ("inconsistent patch paths for " ∷ path ∷ [])

module _ (casefold : String → String) (digit_value : ℕ → Option ℕ) (repr : String → String) where
  -- `_safe_write_path`
  unfoldable pub safe_write_path : String → Result String
  safe_write_path path = elim (validate casefold (some path) write) [
    | ok p ↦ ok p
    | err e ↦ refuse (e.message ∷ [])
  ]

  -- The end of `_parse_file_section`, from the marker lines on.
  unfoldable pub parse_markers : String → List String → String → List String → Result PatchFile
  unfolding validate_metadata operation_of
  parse_markers path before old_marker [] =
      refuse ("patch for " ∷ path ∷ " lacks ---/+++ headers" ∷ [])
  parse_markers path before old_marker (new_marker ∷ body) =
      if not (starts_with new_marker "+++ ")
      then refuse ("patch for " ∷ path ∷ " lacks a +++ header" ∷ [])
      else and_then (validate_metadata repr before) λ _.
        and_then (operation_of path old_marker new_marker) λ operation.
          and_then (count_section digit_value path body) λ (added_lines, removed_lines).
            ok (record {
              path = path;
              operation = operation;
              added_lines = added_lines;
              removed_lines = removed_lines;
            })

  unfoldable pub parse_paths : String → String → List String → Result PatchFile
  unfolding parse_markers
  parse_paths old_path new_path lines =
      if not (str_eq old_path new_path)
      then refuse ("rename and copy patches are not supported" ∷ [])
      else elim (at_old_marker lines) [
        | none ↦ refuse ("patch for " ∷ old_path ∷ " lacks ---/+++ headers" ∷ [])
        | some (before, marker, after) ↦ parse_markers old_path before marker after
      ]

  -- `_parse_file_section`
  unfoldable pub parse_file_section : List String → Result PatchFile
  unfolding diff_header safe_write_path
  parse_file_section [] =
      refuse ("diff paths must be unquoted, whitespace-free repository paths" ∷ [])
  parse_file_section (header ∷ lines) = elim (diff_header header) [
    | none ↦ refuse ("diff paths must be unquoted, whitespace-free repository paths" ∷ [])
    | some (old_header, new_header) ↦ and_then (safe_write_path old_header) λ old_path.
        and_then (safe_write_path new_header) λ new_path. parse_paths old_path new_path lines
  ]

  -- The loop of `validate_patch` over the sections.
  unfoldable pub parse_sections : List String → List (List String) → Result (List PatchFile)
  parse_sections seen [] = ok []
  parse_sections seen (section ∷ sections) = and_then (parse_file_section section) λ parsed.
      elim (is_one_of parsed.path seen) [
        | true ↦ refuse ("patch repeats path: " ∷ parsed.path ∷ [])
        | false ↦
            and_then (parse_sections (parsed.path ∷ seen) sections) λ files. ok (parsed ∷ files)
      ]

-- The lines before the first section, and the sections, each from a `diff --git` line to the next.
unfoldable pub sections_of : List String → List String × List (List String)
sections_of [] = ([], [])
sections_of (line ∷ lines) =
    let (before, sections) = sections_of lines in
    if starts_with line "diff --git "
    then ([], (line ∷ before) ∷ sections)
    else (line ∷ before, sections)

unfoldable pub with_final_newline : String → String
with_final_newline text =
    if str_len text == 0 || ends_with text "\n" then text else str_append text "\n"

-- The checks after the sections are parsed.
unfoldable pub checked_patch : String → List PatchFile → Result ValidatedPatch
unfolding changed_lines
checked_patch normalized files =
    if length files == 0
    then refuse ("patch must change at least one file" ∷ [])
    else if ltb max_changed_lines (changed_lines files)
    then refuse ("patch is limited to " ∷ decimal max_changed_lines ∷ " changed lines" ∷ [])
    else if changed_lines files == 0
    then refuse ("patch must contain changed hunk lines" ∷ [])
    else ok (record { text = with_final_newline normalized; files = files })

abbrev pub starts_patch : List String → Bool
starts_patch [] = false
starts_patch (line ∷ lines) = starts_with line "diff --git "

-- `validate_patch`, of a value that is `none` where it is no text.
unfoldable pub validate_patch :
    (String → String) → (ℕ → Option ℕ) → (String → String) → Option String → Result ValidatedPatch
validate_patch casefold digit_value repr none = refuse ("patch must be a string" ∷ [])
validate_patch casefold digit_value repr (some value) =
    let normalized = replace_crlf value in
    let lines = splitlines normalized in
    let (before, sections) = sections_of lines in
    if str_len (strip value) == 0
    then refuse ("patch must not be empty" ∷ [])
    else if any_char (λ c. c == 0) value
    then refuse ("patch must not contain NUL" ∷ [])
    else if any_char (λ c. c == 13) normalized
    then refuse ("patch contains unsupported carriage returns" ∷ [])
    else if any_char is_surrogate normalized
    then refuse ("patch must contain valid Unicode text" ∷ [])
    else if ltb max_patch_bytes (utf8_len normalized)
    then refuse ("patch is limited to " ∷ decimal max_patch_bytes ∷ " bytes" ∷ [])
    else if ltb max_patch_lines (length lines)
    then refuse ("patch is limited to " ∷ decimal max_patch_lines ∷ " lines" ∷ [])
    else if not (starts_patch lines)
    then refuse ("patch must be a Git-style unified diff" ∷ [])
    else if ltb max_patch_files (length sections)
    then refuse ("patch is limited to " ∷ decimal max_patch_files ∷ " files" ∷ [])
    else and_then (parse_sections casefold digit_value repr [] sections)
        λ files. checked_patch normalized files
