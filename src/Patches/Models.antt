-- ===== src/Patches/Models.antt =====
-- The three formats of patches that models write, as src/repo_agent/patches.py parses them: the
-- editor's, Git's and the bare unified one.
use Prim.Native.Char.{Char, code}
use agent_projects.Prelude.{
  ℕ, zero, suc, String, Bool, true, false, not, ◌&&◌, ◌||◌, Option, none, some, List, [], ◌∷◌,
  if◌then◌else◌, all, map, str_eq, fmt, starts_with, last_piece,
}
use agent_projects.Errors.{Result, ok, err, and_then}
use agent_projects.Patches.{ModelHunk, refuse}
use agent_projects.Patches.Headers.{after_prefix}
use agent_projects.Patches.Sections.{parse_model_hunks}
use agent_projects.Patches.Validation.{
  Operation, add, delete, modify, diff_header, at_old_marker, safe_write_path, sections_of,
}
pub mod Changes
pub mod Git
pub mod Bare
pub mod Safe

-- `_ModelChange`
pub record ModelChange : Type 0 where
  pub path : String
  pub operation : Operation
  pub hunks : List ModelHunk

-- `line[n:]`
unfoldable pub str_drop : ℕ → String → String
str_drop zero s = s
str_drop (suc n) String.[] = String.[]
str_drop (suc n) (String.◌∷◌ c s) = str_drop n s

-- `lines[1:-1]`
unfoldable pub without_last : List String → List String
without_last [] = []
without_last (line ∷ []) = []
without_last (line ∷ next ∷ lines) = line ∷ without_last (next ∷ lines)

unfoldable pub inner_lines : List String → List String
inner_lines [] = []
inner_lines (line ∷ lines) = without_last lines

-- The lines before the first of the lines with a property, and the sections that these begin.
unfoldable pub group : (String → Bool) → List String → List String × List (List String)
group begins [] = ([], [])
group begins (line ∷ lines) =
    let (before, sections) = group begins lines in
    if begins line then ([], (line ∷ before) ∷ sections) else (line ∷ before, sections)

-- The same, where a section begins at a line `--- ` that a line `+++ ` follows.
abbrev pub is_pair : String → List String → Bool
is_pair line [] = false
is_pair line (next ∷ lines) = starts_with line "--- " && starts_with next "+++ "

unfoldable pub group_pairs : List String → List String × List (List String)
group_pairs [] = ([], [])
group_pairs (line ∷ lines) =
    let (before, sections) = group_pairs lines in
    if is_pair line lines then ([], (line ∷ before) ∷ sections) else (line ∷ before, sections)

unfoldable pub editor_operation : String → Option (Operation × String)
unfolding after_prefix
editor_operation marker = elim (after_prefix "*** Update File: " marker) [
  | some path ↦ some (modify, path)
  | none ↦ elim (after_prefix "*** Add File: " marker) [
    | some path ↦ some (add, path)
    | none ↦ elim (after_prefix "*** Delete File: " marker) [
      | some path ↦ some (delete, path)
      | none ↦ none
    ]
  ]
]

-- The operation of a pair of markers, without their first four characters.
unfoldable pub git_operation : String → String → String → Result Operation
git_operation path old_marker new_marker =
    if str_eq old_marker "/dev/null" && str_eq new_marker (fmt ("b/" ∷ path ∷ []))
    then ok add
    else if str_eq old_marker (fmt ("a/" ∷ path ∷ [])) && str_eq new_marker "/dev/null"
    then ok delete
    else if str_eq old_marker (fmt ("a/" ∷ path ∷ [])) && str_eq new_marker (fmt ("b/" ∷ path ∷ []))
    then ok modify
    else refuse ("model diff paths are inconsistent" ∷ [])

unfoldable pub in_turn : {A B : Type 0} → (A → Result B) → List A → Result (List B)
in_turn f [] = ok []
in_turn f (x ∷ xs) = and_then (f x) λ y. and_then (in_turn f xs) λ ys. ok (y ∷ ys)

module _ (casefold : String → String) (digit_value : ℕ → Option ℕ) (repr : String → String) where
  -- A deletion has no hunks; the other bodies are parsed with bare headers allowed.
  unfoldable pub hunks_for : Operation → List String → Result (List ModelHunk)
  hunks_for delete body = ok []
  hunks_for add body = parse_model_hunks digit_value true body
  hunks_for modify body = parse_model_hunks digit_value true body

  unfoldable pub change_for : String → Operation → Result (List ModelHunk) → Result ModelChange
  change_for path operation hunks =
      and_then hunks λ hs. ok (record { path = path; operation = operation; hunks = hs })

  unfoldable pub editor_hunks : Operation → List String → Result (List ModelHunk)
  unfolding str_drop
  editor_hunks delete body = ok []
  editor_hunks modify body = parse_model_hunks digit_value true body
  editor_hunks add body =
      if not (all (λ line. starts_with line "+") body)
      then refuse ("editor add sections must contain added lines" ∷ [])
      else ok (record { old_start = 0; old_lines = []; new_lines = map (str_drop 1) body } ∷ [])

  unfoldable pub editor_section : List String → Result ModelChange
  unfolding editor_operation editor_hunks change_for
  editor_section [] = refuse ("unsupported editor-style patch section" ∷ [])
  editor_section (marker ∷ body) = elim (editor_operation marker) [
    | none ↦ refuse ("unsupported editor-style patch section" ∷ [])
    | some (operation, path) ↦
        and_then (safe_write_path casefold digit_value repr path)
          λ safe. change_for safe operation (editor_hunks operation body)
  ]

  unfoldable pub only_sections : {A : Type 0} → List String → Result A → Result A → Result A
  only_sections [] otherwise sections = sections
  only_sections (line ∷ lines) otherwise sections = otherwise

  -- `_parse_editor_patch`
  unfoldable pub parse_editor_patch : List String → Result (List ModelChange)
  unfolding inner_lines only_sections editor_section
  parse_editor_patch lines =
      let (before, sections) = group (λ line. starts_with line "*** ") (inner_lines lines) in
      if not (str_eq (last_piece lines) "*** End Patch")
      then refuse ("model patch wrapper is incomplete" ∷ [])
      else only_sections before (refuse ("unsupported editor-style patch section" ∷ []))
          (in_turn editor_section sections)

  unfoldable pub git_markers : String → String → List String → Result ModelChange
  unfolding git_operation hunks_for change_for
  git_markers path old_marker [] = refuse ("model diff lacks ---/+++ headers" ∷ [])
  git_markers path old_marker (new_marker ∷ body) =
      and_then (git_operation path (str_drop 4 old_marker) (str_drop 4 new_marker))
        λ operation. change_for path operation (hunks_for operation body)

  unfoldable pub git_paths : String → String → List String → Result ModelChange
  unfolding git_markers
  git_paths old_path new_path lines =
      if not (str_eq old_path new_path)
      then refuse ("rename and copy patches are not supported" ∷ [])
      else elim (at_old_marker lines) [
        | none ↦ refuse ("model diff lacks ---/+++ headers" ∷ [])
        | some (before, marker, after) ↦ git_markers old_path marker after
      ]

  unfoldable pub git_section : List String → Result ModelChange
  unfolding git_paths
  git_section [] = refuse ("model diff header is invalid" ∷ [])
  git_section (header ∷ lines) = elim (diff_header header) [
    | none ↦ refuse ("model diff header is invalid" ∷ [])
    | some (old_header, new_header) ↦
        and_then (safe_write_path casefold digit_value repr old_header) λ old_path.
          and_then (safe_write_path casefold digit_value repr new_header)
            λ new_path. git_paths old_path new_path lines
  ]

  unfoldable pub some_section : {A B : Type 0} → List A → Result B → Result B → Result B
  some_section [] otherwise sections = otherwise
  some_section (x ∷ xs) otherwise sections = sections

  -- `_parse_git_model_patch`
  unfoldable pub parse_git_model_patch : List String → Result (List ModelChange)
  unfolding only_sections some_section git_section
  parse_git_model_patch lines =
      let (before, sections) = sections_of lines in
      let refused = refuse ("model patch must start with diff --git" ∷ []) in
      some_section sections refused (only_sections before refused (in_turn git_section sections))

  -- The paths and the operation of a section of a bare patch.
  unfoldable pub bare_change : String → String → List String → Result ModelChange
  unfolding hunks_for change_for
  bare_change old_marker new_marker body =
      if str_eq old_marker "/dev/null"
      then elim (after_prefix "b/" new_marker) [
        | none ↦ refuse ("bare add patch has inconsistent paths" ∷ [])
        | some path ↦
            and_then (safe_write_path casefold digit_value repr path)
              λ safe. change_for safe add (hunks_for add body)
      ]
      else if str_eq new_marker "/dev/null"
      then elim (after_prefix "a/" old_marker) [
        | none ↦ refuse ("bare delete patch has inconsistent paths" ∷ [])
        | some path ↦
            and_then (safe_write_path casefold digit_value repr path)
              λ safe. change_for safe delete (hunks_for delete body)
      ]
      else elim (after_prefix "a/" old_marker) [
        | none ↦ refuse ("bare unified patch paths are invalid" ∷ [])
        | some old ↦ elim (after_prefix "b/" new_marker) [
          | none ↦ refuse ("bare unified patch paths are invalid" ∷ [])
          | some new ↦ and_then (safe_write_path casefold digit_value repr old) λ old_path.
              and_then (safe_write_path casefold digit_value repr new) λ new_path.
                elim (str_eq old_path new_path) [
                  | false ↦ refuse ("rename and copy patches are not supported" ∷ [])
                  | true ↦ change_for new_path modify (hunks_for modify body)
                ]
        ]
      ]

  unfoldable pub bare_section : List String → Result ModelChange
  unfolding bare_change
  bare_section (old_marker ∷ new_marker ∷ body) =
      bare_change (str_drop 4 old_marker) (str_drop 4 new_marker) body
  bare_section (old_marker ∷ []) = refuse ("bare unified patch lacks ---/+++ headers" ∷ [])
  bare_section [] = refuse ("bare unified patch lacks ---/+++ headers" ∷ [])

  -- The refusal of a patch that does not begin with a pair of headers.
  unfoldable pub no_pair : {A : Type 0} → List String → Result A
  no_pair [] = refuse ("bare unified patch lacks ---/+++ headers" ∷ [])
  no_pair (line ∷ []) = refuse ("bare unified patch lacks ---/+++ headers" ∷ [])
  no_pair (line ∷ next ∷ lines) =
      if not (starts_with line "--- ")
      then refuse ("bare unified patch lacks ---/+++ headers" ∷ [])
      else refuse ("bare unified patch lacks a +++ header" ∷ [])

  -- `_parse_bare_unified_patch`
  unfoldable pub parse_bare_unified_patch : List String → Result (List ModelChange)
  unfolding only_sections bare_section no_pair
  parse_bare_unified_patch lines =
      let (before, sections) = group_pairs lines in
      only_sections before (no_pair lines) (in_turn bare_section sections)
