-- ===== src/Examples/Patching.antt =====
-- Hunks and a patch, and the properties of patches on them.
use agent_projects.Prelude.{
  eq_iff, strip, is_space, ℕ, suc, ◌+◌, ◌≤◌, String, ◌≡◌, refl, true, none, some, List, [], ◌∷◌,
  arith, fmt,
}
use agent_projects.Errors.{ok}
use agent_projects.Prelude.{
  any_char, starts_with, ends_with, has_infix, split, onto_first, first_piece, last_piece,
  lstrip_char, is_one_of,
}
use agent_projects.Policy.{
  is_sensitive_name, validate, first_refusal, accept_unless, text_refusal, parts_refusal,
  part_refusal, name_refusal, is_sensitive_folded, is_windows_absolute, is_control,
  is_unsafe_on_windows,
}
use agent_projects.Prelude.{Option, ◌&&◌, zero, suc, leb, ◌-◌, if◌then◌else◌}
use agent_projects.Patches.{
  Marker, context, removed, added, ModelHunk, refuse, apply_model_hunks, locate_model_sequence,
  exact_or, fallback, matching, start_count, sort, insert, precedes, choose, lines_eq,
  single_candidates, old_texts, slice,
}
use agent_projects.Patches.Headers.{
  hunk_header, header_with_suffix, line_range, digits, more_digits, after_prefix,
}
use agent_projects.Patches.Sections.{
  count_section, section_lines, section_line, finish_hunk, begin_hunk, content_line, count_line,
  count_or, marked, parse_model_hunks,
}
use agent_projects.Patches.Sections.Totals.{old_total, new_total, count_section_lem}
use agent_projects.Patches.Sections.Bare.{print_hunks, consecutive, parse-print_hunks}
use agent_projects.Patches.Windows.{IsPlace}
use agent_projects.Patches.Models.{
  ModelChange, parse_editor_patch, inner_lines, without_last, group, only_sections, in_turn,
  editor_section, editor_operation, editor_hunks, change_for,
}
use agent_projects.Patches.Models.Changes.{AllSafe}
use agent_projects.Patches.Models.Safe.{editor, parse_as, parse_as_safe}
use agent_projects.Patches.Sections.{
  checked_hunks, model_lines, model_line, flush, hunk_of, header_line, body_line, outside_line,
}
use agent_projects.Patches.Placing.{Patches, locate_lem, locate_missing, apply_lem}
use agent_projects.Errors.{and_then}
use agent_projects.Patches.Validation.{
  PatchFile, modify, validate_patch, checked_patch, changed_lines, replace_crlf, splitlines,
  is_break, is_surrogate, utf8_width, utf8_len, until_space, diff_header, is_hex_digit, hex_run,
  is_index_line, validate_metadata, at_old_marker, operation_of, safe_write_path, parse_markers,
  parse_paths, parse_file_section, parse_sections, sections_of, with_final_newline,
}
use agent_projects.Patches.Validation.Limits.{IsWithinLimits, validate_patch_lem}
use agent_projects.Examples.{unfolded}

-- Patches of a file of three lines.
abbrev ascii_digit : ℕ → Option ℕ
ascii_digit c = if leb 48 c && leb c 57 then some (c - 48) else none

abbrev three_lines : List String
three_lines = "a" ∷ "b" ∷ "c" ∷ []

located_b : locate_model_sequence three_lines ("b" ∷ []) 0 "f" ≡ ok (1, 2)
unfolding apply_model_hunks locate_model_sequence exact_or fallback matching start_count sort insert
    precedes choose lines_eq single_candidates old_texts
located_b = refl

locate_lem_example : IsPlace three_lines ("b" ∷ []) 0 1 2
locate_lem_example = locate_lem three_lines "b" [] 0 "f" 1 2 located_b

abbrev one_line : List String
one_line = "a" ∷ []

abbrev other : List String
other = "b" ∷ []

other_line : (n : ℕ) → n + 1 ≤ 1 → slice n 1 one_line ≡ other → ⊥
other_line zero inside same = ground (arith, eq_iff "a" "b")
other_line (suc n) inside same = omega (arith, inside)

locate_missing_example :
    locate_model_sequence ("a" ∷ []) ("b" ∷ []) 0 "f"
    ≡ refuse ("model patch context does not match " ∷ "f" ∷ [])
locate_missing_example =
    locate_missing ("a" ∷ []) "b" [] 0 "f" (λ n inside same. absurd (other_line n inside same))

abbrev b_to_d : List (Marker × String)
b_to_d = (context, "a") ∷ (removed, "b") ∷ (added, "d") ∷ []

abbrev hunks : List ModelHunk
hunks =
    record {
      old_start = 1;
      old_lines = (context, "a") ∷ (removed, "b") ∷ [];
      new_lines = "a" ∷ "d" ∷ [];
    }
    ∷ []

applied : apply_model_hunks three_lines hunks "f" ≡ ok ("a" ∷ "d" ∷ "c" ∷ [])
unfolding apply_model_hunks locate_model_sequence exact_or fallback matching start_count sort insert
    precedes choose lines_eq single_candidates old_texts
applied = refl

apply_lem_example : Patches three_lines hunks ("a" ∷ "d" ∷ "c" ∷ [])
apply_lem_example = apply_lem three_lines hunks "f" ("a" ∷ "d" ∷ "c" ∷ []) applied

abbrev section_body : List String
section_body = "@@ -1,2 +1,3 @@ def f" ∷ " a" ∷ "-b" ∷ "+d" ∷ "+e" ∷ []

counted : count_section ascii_digit "f" section_body ≡ ok (2, 1)
unfolding count_section section_lines section_line finish_hunk begin_hunk content_line count_line
    count_or marked hunk_header header_with_suffix line_range digits more_digits after_prefix
    starts_with
counted = refl

count_section_lem_example :
    new_total ascii_digit section_body + 1 ≡ old_total ascii_digit section_body + 2
count_section_lem_example = count_section_lem ascii_digit "f" section_body 2 1 counted

parse-print_hunks_example :
    parse_model_hunks ascii_digit true (print_hunks (b_to_d ∷ b_to_d ∷ []))
    ≡ ok (consecutive 1 (b_to_d ∷ b_to_d ∷ []))
parse-print_hunks_example = parse-print_hunks ascii_digit b_to_d (b_to_d ∷ []) refl

abbrev patch_text : String
patch_text = "diff --git a/f.py b/f.py\n--- a/f.py\n+++ b/f.py\n@@ -1 +1 @@\n-a\n+b\n"

abbrev patch_files : List PatchFile
patch_files = record { path = "f.py"; operation = modify; added_lines = 1; removed_lines = 1 } ∷ []

valid_patch :
    validate_patch unfolded ascii_digit unfolded (some patch_text)
    ≡ ok (record { text = patch_text; files = patch_files })
unfolding validate_patch checked_patch changed_lines replace_crlf splitlines is_break is_surrogate
    utf8_width utf8_len until_space diff_header is_hex_digit hex_run is_index_line validate_metadata
    at_old_marker operation_of safe_write_path parse_markers parse_paths parse_file_section
    parse_sections sections_of with_final_newline and_then count_section section_lines section_line
    finish_hunk begin_hunk content_line count_line count_or marked hunk_header header_with_suffix
    line_range digits more_digits after_prefix validate first_refusal accept_unless text_refusal
    parts_refusal part_refusal name_refusal is_sensitive_name is_sensitive_folded
    is_windows_absolute is_control is_unsafe_on_windows any_char starts_with ends_with has_infix
    split onto_first first_piece last_piece lstrip_char is_one_of fmt strip is_space
valid_patch = refl

validate_patch_lem_example : IsWithinLimits unfolded patch_files
validate_patch_lem_example =
    validate_patch_lem unfolded ascii_digit unfolded (some patch_text)
      (record { text = patch_text; files = patch_files }) valid_patch

abbrev editor_patch : List String
editor_patch =
    "*** Begin Patch" ∷ "*** Update File: f.py" ∷ "@@" ∷ "-a" ∷ "+b" ∷ "*** End Patch" ∷ []

abbrev editor_changes : List ModelChange
editor_changes =
    record {
      path = "f.py";
      operation = modify;
      hunks = record { old_start = 1; old_lines = (removed, "a") ∷ []; new_lines = "b" ∷ [] } ∷ [];
    }
    ∷ []

parsed_editor : parse_as unfolded ascii_digit unfolded editor editor_patch ≡ ok editor_changes
unfolding parse_editor_patch inner_lines without_last group only_sections in_turn editor_section
    editor_operation editor_hunks change_for parse_model_hunks checked_hunks model_lines model_line
    flush hunk_of header_line body_line outside_line until_space diff_header is_hex_digit hex_run
    is_index_line validate_metadata at_old_marker operation_of safe_write_path parse_markers
    parse_paths parse_file_section parse_sections sections_of and_then count_section section_lines
    section_line finish_hunk begin_hunk content_line count_line count_or marked hunk_header
    header_with_suffix line_range digits more_digits after_prefix validate first_refusal
    accept_unless text_refusal parts_refusal part_refusal name_refusal is_sensitive_name
    is_sensitive_folded is_windows_absolute is_control is_unsafe_on_windows any_char starts_with
    ends_with has_infix split onto_first first_piece last_piece lstrip_char is_one_of fmt strip
    is_space
parsed_editor = refl

parse_as_safe_example : AllSafe unfolded editor_changes
parse_as_safe_example =
    parse_as_safe unfolded ascii_digit unfolded editor editor_patch editor_changes parsed_editor
