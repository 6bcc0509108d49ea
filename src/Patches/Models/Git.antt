-- ===== src/Patches/Models/Git.antt =====
-- The changes of a git section that a model writes, in src/repo_agent/patches.py.
use agent_projects.Prelude.{ℕ, String, ◌≡◌, not, Option, none, some, List, [], ◌∷◌, arith, str_eq}
use agent_projects.Errors.{Result, ok, and_then}
use agent_projects.Policy.{write, validate}
use agent_projects.Patches.{refuse}
use agent_projects.Patches.Validation.{diff_header, at_old_marker, safe_write_path}
use agent_projects.Patches.Validation.Limits.{and_then_ok, guard_ok, writable_lem}
use agent_projects.Patches.Models.{
  ModelChange, git_operation, hunks_for, str_drop, git_markers, git_paths, git_section,
}
use agent_projects.Patches.Models.Changes.{IsSafe, change_lem, hunks_for_delete}

module _ (casefold : String → String) (digit_value : ℕ → Option ℕ) (repr : String → String) where
  pub git_markers_lem :
      (path old_marker : String) (after : List String) (c : ModelChange)
      → validate casefold (some path) write ≡ ok path
      → git_markers casefold digit_value repr path old_marker after ≡ ok c
      → IsSafe casefold c
  unfolding git_markers refuse
  git_markers_lem path old_marker [] c writable parsed = ground arith
  git_markers_lem path old_marker (new_marker ∷ body) c writable parsed =
      let (operation, _, made) =
        and_then_ok (git_operation path (str_drop 4 old_marker) (str_drop 4 new_marker)) _ c
          parsed in
      change_lem casefold digit_value repr path operation
        (hunks_for casefold digit_value repr operation body) c writable
        (hunks_for_delete casefold digit_value repr operation body) made

  pub git_marker_lem :
      (path : String) (o : Option (List String × String × List String)) (c : ModelChange)
      → validate casefold (some path) write ≡ ok path
      → (elim o as (λ _. Result ModelChange) [
        | none ↦ refuse ("model diff lacks ---/+++ headers" ∷ [])
        | some (before, marker, after) ↦ git_markers casefold digit_value repr path marker after
      ])
        ≡ ok c
      → IsSafe casefold c
  unfolding refuse
  git_marker_lem path none c writable parsed = ground arith
  git_marker_lem path (some (before, marker, after)) c writable parsed =
      git_markers_lem path marker after c writable parsed

  pub git_paths_lem :
      (old_path new_path : String) (lines : List String) (c : ModelChange)
      → validate casefold (some old_path) write ≡ ok old_path
      → git_paths casefold digit_value repr old_path new_path lines ≡ ok c
      → IsSafe casefold c
  unfolding git_paths
  git_paths_lem old_path new_path lines c writable parsed =
      let (_, marked) = guard_ok (not (str_eq old_path new_path)) _ _ c parsed in
      git_marker_lem old_path (at_old_marker lines) c writable marked

  pub git_header_lem :
      (lines : List String) (o : Option (String × String)) (c : ModelChange)
      → (elim o as (λ _. Result ModelChange) [
        | none ↦ refuse ("model diff header is invalid" ∷ [])
        | some (old_header, new_header) ↦
            and_then (safe_write_path casefold digit_value repr old_header) λ old_path.
              and_then
                (safe_write_path casefold digit_value repr new_header)
                λ new_path. git_paths casefold digit_value repr old_path new_path lines
      ])
        ≡ ok c
      → IsSafe casefold c
  unfolding refuse
  git_header_lem lines none c parsed = ground arith
  git_header_lem lines (some (old_header, new_header)) c parsed =
      let (old_path, safe, rest) =
        and_then_ok (safe_write_path casefold digit_value repr old_header) _ c parsed in
      let (new_path, _, whole) =
        and_then_ok (safe_write_path casefold digit_value repr new_header) _ c rest in
      git_paths_lem old_path new_path lines c
        (writable_lem casefold digit_value repr old_header old_path safe) whole

  pub git_lem :
      (section : List String) (c : ModelChange)
      → git_section casefold digit_value repr section ≡ ok c
      → IsSafe casefold c
  unfolding git_section refuse
  git_lem [] c parsed = ground arith
  git_lem (header ∷ lines) c parsed = git_header_lem lines (diff_header header) c parsed
