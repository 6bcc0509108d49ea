-- ===== src/Patches/Models/Safe.antt =====
-- The paths of the changes that src/repo_agent/patches.py parses from a model's patch.
use agent_projects.Prelude.{
  ℕ, String, ◌≡◌, not, Option, none, some, List, [], ◌∷◌, arith, str_eq, last_piece, starts_with,
}
use agent_projects.Errors.{Result, ok, and_then}
use agent_projects.Patches.{refuse}
use agent_projects.Patches.Validation.{Operation, safe_write_path, sections_of}
use agent_projects.Patches.Validation.Limits.{guard_ok}
use agent_projects.Patches.Models.{
  ModelChange, group, group_pairs, inner_lines, editor_operation, change_for, editor_hunks,
  editor_section, only_sections, parse_editor_patch, git_section, some_section,
  parse_git_model_patch, bare_section, no_pair, parse_bare_unified_patch,
}
use agent_projects.Patches.Models.Changes.{
  IsSafe, AllSafe, editor_hunks_delete, IsSafe-change, in_turn_lem,
}
use agent_projects.Patches.Models.Git.{git_lem}
use agent_projects.Patches.Models.Bare.{bare_lem}

pub data Format : Type 0 where
  editor git bare : Format

-- The parser of a format.
abbrev pub parse_as :
    (String → String)
    → (ℕ → Option ℕ)
    → (String → String)
    → Format
    → List String
    → Result (List ModelChange)
parse_as casefold digit_value repr editor lines = parse_editor_patch casefold digit_value repr lines
parse_as casefold digit_value repr git lines = parse_git_model_patch casefold digit_value repr lines
parse_as casefold digit_value repr bare lines =
    parse_bare_unified_patch casefold digit_value repr lines

module _ (casefold : String → String) (digit_value : ℕ → Option ℕ) (repr : String → String) where
  marked_lem :
      (body : List String) (o : Option (Operation × String)) (c : ModelChange)
      → (elim o as (λ _. Result ModelChange) [
        | none ↦ refuse ("unsupported editor-style patch section" ∷ [])
        | some (operation, path) ↦ and_then (safe_write_path casefold digit_value repr path) λ safe.
            change_for casefold digit_value repr safe operation
              (editor_hunks casefold digit_value repr operation body)
      ])
        ≡ ok c
      → IsSafe casefold c
  unfolding refuse
  marked_lem body none c parsed = ground arith
  marked_lem body (some (operation, path)) c parsed =
      IsSafe-change casefold digit_value repr path operation
        (editor_hunks casefold digit_value repr operation body) c
        (editor_hunks_delete casefold digit_value repr operation body) parsed

  editor_lem :
      (section : List String) (c : ModelChange)
      → editor_section casefold digit_value repr section ≡ ok c
      → IsSafe casefold c
  unfolding editor_section refuse
  editor_lem [] c parsed = ground arith
  editor_lem (marker ∷ body) c parsed = marked_lem body (editor_operation marker) c parsed

  only_lem :
      {A : Type 0} (before : List String) (otherwise r : Result A) (a : A)
      → (otherwise ≡ ok a → ⊥)
      → only_sections casefold digit_value repr before otherwise r ≡ ok a
      → r ≡ ok a
  unfolding only_sections
  only_lem [] otherwise r a fails parsed = parsed
  only_lem (line ∷ lines) otherwise r a fails parsed = absurd (fails parsed)

  some_lem :
      {A B : Type 0} (xs : List A) (otherwise r : Result B) (b : B)
      → (otherwise ≡ ok b → ⊥)
      → some_section casefold digit_value repr xs otherwise r ≡ ok b
      → r ≡ ok b
  unfolding some_section
  some_lem [] otherwise r b fails parsed = absurd (fails parsed)
  some_lem (x ∷ xs) otherwise r b fails parsed = parsed

  refuse_fails : {A : Type 0} (message : List String) (a : A) → refuse message ≡ ok a → ⊥
  unfolding refuse
  refuse_fails message a e = ground arith

  no_pair_fails :
      {A : Type 0} (lines : List String) (a : A)
      → no_pair casefold digit_value repr lines ≡ ok a
      → ⊥
  unfolding no_pair refuse
  no_pair_fails [] a e = ground arith
  no_pair_fails (line ∷ []) a e = ground arith
  no_pair_fails (line ∷ next ∷ lines) a e = ground arith

  -- Models name only paths that may be written: whichever of the three formats a model's patch is
  -- in, where it is parsed, the path policy accepts the path of every change for writing, and a
  -- change that deletes a file has no hunks.
  pub parse_as_safe :
      (format : Format) (lines : List String) (changes : List ModelChange)
      → parse_as casefold digit_value repr format lines ≡ ok changes
      → AllSafe casefold changes
  unfolding parse_editor_patch parse_git_model_patch parse_bare_unified_patch
  parse_as_safe editor lines changes parsed =
      let (before, sections) = group (λ line. starts_with line "*** ") (inner_lines lines) in
      let (_, rest) =
        guard_ok (not (str_eq (last_piece lines) "*** End Patch")) _ _ changes parsed in
      in_turn_lem casefold digit_value repr (editor_section casefold digit_value repr) sections
        changes editor_lem (only_lem before _ _ changes (refuse_fails _ changes) rest)
  parse_as_safe git lines changes parsed =
      let (before, sections) = sections_of lines in
      in_turn_lem casefold digit_value repr (git_section casefold digit_value repr) sections changes
        (git_lem casefold digit_value repr)
        (only_lem before _ _ changes (refuse_fails _ changes)
          (some_lem sections _ _ changes (refuse_fails _ changes) parsed))
  parse_as_safe bare lines changes parsed =
      let (before, sections) = group_pairs lines in
      in_turn_lem casefold digit_value repr (bare_section casefold digit_value repr) sections
        changes (bare_lem casefold digit_value repr)
        (only_lem before _ _ changes (no_pair_fails lines changes) parsed)
