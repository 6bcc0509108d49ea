-- ===== src/Patches/Sections.antt =====
-- The hunk lines of a file's section in src/repo_agent/patches.py: the loop of
-- `_parse_file_section` that counts them, and `_parse_model_hunks`.
pub mod Totals
pub mod Bare
use Prim.Native.Char.{Char, code}
use agent_projects.Prelude.{
  ℕ, zero, suc, ◌+◌, String, Bool, true, false, not, ◌&&◌, ◌||◌, Option, none, some, List, [], ◌∷◌,
  ◌++◌, map, if◌then◌else◌, ◌==◌, ltb, any, length, str_len, str_eq, fmt, starts_with, strip,
  is_some,
}
use agent_projects.Errors.{Result, ok, err}
use agent_projects.Patches.{Marker, context, removed, added, ModelHunk, refuse}
use agent_projects.Patches.Headers.{HunkHeader, header_with_suffix, hunk_header}

abbrev pub no_newline : String
no_newline = "\\ No newline at end of file"

-- The marker of a line and the text after it, `none` for an empty line or another first character.
unfoldable pub marked : String → Option (Marker × String)
marked String.[] = none
marked (String.◌∷◌ c s) =
    if code c == 32
    then some (context, s)
    else if code c == 43
    then some (added, s)
    else if code c == 45
    then some (removed, s)
    else none

-- The variables of the loop; `expected` is `none` before the first header.
pub record Counts : Type 0 where
  pub added_lines : ℕ
  pub removed_lines : ℕ
  pub expected : Option (ℕ × ℕ)
  pub actual_old : ℕ
  pub actual_new : ℕ

-- `finish_hunk`
unfoldable pub finish_hunk : String → Counts → Result Counts
unfolding refuse
finish_hunk path c = elim c.expected [
  | none ↦ ok c
  | some (old, new) ↦
      if not (c.actual_old == old) || not (c.actual_new == new)
      then refuse ("hunk line counts do not match its header for " ∷ path ∷ [])
      else ok c
]

unfoldable pub count_line : Marker → Counts → Counts
count_line added c = record c { added_lines = c.added_lines + 1; actual_new = c.actual_new + 1 }
count_line removed c = record c {
  removed_lines = c.removed_lines + 1;
  actual_old = c.actual_old + 1;
}
count_line context c = record c { actual_old = c.actual_old + 1; actual_new = c.actual_new + 1 }

unfoldable pub count_or : Option ℕ → ℕ
count_or none = 1
count_or (some n) = n

unfoldable pub begin_hunk : HunkHeader → Result Counts → Result Counts
begin_hunk h (err e) = err e
begin_hunk h (ok c) = ok (record c {
  expected = some (count_or h.old_count, count_or h.new_count);
  actual_old = 0;
  actual_new = 0;
})

unfoldable pub content_line : String → String → Counts → Result Counts
unfolding refuse count_line
content_line path line c =
    if not (is_some c.expected)
    then refuse ("unsupported patch metadata for " ∷ path ∷ [])
    else if str_eq line no_newline
    then ok c
    else elim (marked line) [
      | none ↦ refuse ("malformed hunk content for " ∷ path ∷ [])
      | some (marker, text) ↦ ok (count_line marker c)
    ]

module _ (digit_value : ℕ → Option ℕ) (path : String) where
  -- The body of the `for` of `_parse_file_section`.
  unfoldable pub section_line : Counts → String → Result Counts
  unfolding finish_hunk begin_hunk content_line
  section_line c line = elim (hunk_header digit_value line) [
    | some h ↦ begin_hunk h (finish_hunk path c)
    | none ↦ content_line path line c
  ]

  unfoldable pub section_lines : Counts → List String → Result Counts
  unfolding section_line
  section_lines c [] = finish_hunk path c
  section_lines c (line ∷ lines) = elim (section_line c line) [
    | err e ↦ err e
    | ok c' ↦ section_lines c' lines
  ]

  -- The counting of `_parse_file_section`, from its check that there is a hunk to its end.
  unfoldable pub count_section : List String → Result (ℕ × ℕ)
  unfolding section_lines
  count_section body =
      if not (any (λ line. is_some (hunk_header digit_value line)) body)
      then refuse ("patch for " ∷ path ∷ " has no valid hunk" ∷ [])
      else elim (section_lines
          (record {
            added_lines = 0;
            removed_lines = 0;
            expected = none;
            actual_old = 0;
            actual_new = 0;
          })
          body) [ err e ↦ err e | ok c ↦ ok (c.added_lines, c.removed_lines) ]

-- The variables of `_parse_model_hunks`.
pub record Parsing : Type 0 where
  pub hunks : List ModelHunk
  pub current_start : ℕ
  pub current_body : Option (List (Marker × String))
  pub cursor : ℕ

abbrev pub is_old : Marker × String → Bool
is_old (added, text) = false
is_old (context, text) = true
is_old (removed, text) = true

abbrev pub is_new : Marker × String → Bool
is_new (added, text) = true
is_new (context, text) = true
is_new (removed, text) = false

abbrev pub keep : {A : Type 0} → (A → Bool) → List A → List A
keep p [] = []
keep p (x ∷ xs) = if p x then x ∷ keep p xs else keep p xs

unfoldable pub hunk_of : ℕ → List (Marker × String) → ModelHunk
hunk_of start body = record {
  old_start = start;
  old_lines = keep is_old body;
  new_lines = map (λ (marker, text). text) (keep is_new body);
}

-- `flush`
unfoldable pub flush : Parsing → Parsing
unfolding hunk_of
flush s = elim s.current_body [
  | none ↦ s
  | some body ↦
      let after = s.current_start + length (keep is_old body) in
      record s {
        hunks = s.hunks ++ (hunk_of s.current_start body ∷ []);
        cursor = if ltb s.cursor after then after else s.cursor;
        current_body = none;
      }
]

unfoldable pub header_line : Bool → Option HunkHeader → String → Parsing → Result Parsing
header_line allow_bare (some h) line s =
    ok (record s { current_start = h.old_start; current_body = some [] })
header_line allow_bare none line s =
    if allow_bare && str_eq (strip line) "@@"
    then ok (record s { current_start = s.cursor; current_body = some [] })
    else refuse ("model hunk header is invalid" ∷ [])

unfoldable pub body_line : Bool → String → List (Marker × String) → Parsing → Result Parsing
unfolding marked
body_line allow_bare line body s = if str_eq line no_newline then ok s else elim (marked line) [
  | some item ↦ ok (record s { current_body = some (body ++ (item ∷ [])) })
  | none ↦
      if allow_bare
      then ok (record s { current_body = some (body ++ ((context, line) ∷ [])) })
      else refuse ("model hunk content is malformed" ∷ [])
]

unfoldable pub outside_line : String → Parsing → Result Parsing
outside_line line s =
    if str_len (strip line) == 0
    then ok s
    else refuse ("model patch has unsupported hunk metadata" ∷ [])

-- The last check of `_parse_model_hunks`.
unfoldable pub checked_hunks : Result Parsing → Result (List ModelHunk)
checked_hunks (err e) = err e
checked_hunks (ok s) =
    if length s.hunks == 0 || any (λ h. length h.old_lines == 0 && length h.new_lines == 0) s.hunks
    then refuse ("model patch must contain non-empty hunks" ∷ [])
    else ok s.hunks

module _ (digit_value : ℕ → Option ℕ) (allow_bare : Bool) where
  -- The body of the `for` of `_parse_model_hunks`.
  unfoldable pub model_line : Parsing → String → Result Parsing
  unfolding flush header_line body_line outside_line
  model_line s line =
      if starts_with line "@@"
      then header_line allow_bare (header_with_suffix digit_value line) line (flush s)
      else elim s.current_body [
        | none ↦ outside_line line s
        | some body ↦ body_line allow_bare line body s
      ]

  unfoldable pub model_lines : Parsing → List String → Result Parsing
  unfolding model_line
  model_lines s [] = ok (flush s)
  model_lines s (line ∷ lines) = elim (model_line s line) [
    | err e ↦ err e
    | ok s' ↦ model_lines s' lines
  ]

  -- `_parse_model_hunks`
  unfoldable pub parse_model_hunks : List String → Result (List ModelHunk)
  unfolding model_lines checked_hunks
  parse_model_hunks lines = checked_hunks (
      model_lines (record { hunks = []; current_start = 1; current_body = none; cursor = 1 }) lines)
