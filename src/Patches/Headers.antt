-- ===== src/Patches/Headers.antt =====
-- The hunk headers of src/repo_agent/patches.py, @@ -a,b +c,d @@, as the two regular expressions
-- read them. Which characters are decimal digits, and their values, is a parameter: it is Unicode's.
use Prim.Native.Char.{code}
use agent_projects.Prelude.{
  ℕ, ◌+◌, ◌*◌, String, ◌||◌, Option, none, some, if◌then◌else◌, ◌==◌, str_len, starts_with,
}

pub record HunkHeader : Type 0 where
  pub old_start : ℕ
  pub old_count : Option ℕ
  pub new_start : ℕ
  pub new_count : Option ℕ
  pub suffix : String

-- What is left of a text after a prefix that it must have.
unfoldable pub after_prefix : String → String → Option String
after_prefix String.[] s = some s
after_prefix (String.◌∷◌ d prefix) String.[] = none
after_prefix (String.◌∷◌ d prefix) (String.◌∷◌ c s) =
    let rest = after_prefix prefix s in if code c == code d then rest else none

module _ (digit_value : ℕ → Option ℕ) where
  unfoldable pub more_digits : ℕ → String → ℕ × String
  more_digits n String.[] = (n, String.[])
  more_digits n (String.◌∷◌ c s) = elim (digit_value (code c)) [
    | none ↦ (n, String.◌∷◌ c s)
    | some d ↦ more_digits (n * 10 + d) s
  ]

  -- `\d+`, with its `int`
  unfoldable pub digits : String → Option (ℕ × String)
  unfolding more_digits
  digits String.[] = none
  digits (String.◌∷◌ c s) = elim (digit_value (code c)) [
    | none ↦ none
    | some d ↦ some (more_digits d s)
  ]

  -- `(\d+)(?:,(\d+))?`
  unfoldable pub line_range : String → Option (ℕ × Option ℕ × String)
  unfolding digits after_prefix
  line_range s = elim (digits s) [
    | none ↦ none
    | some (start, rest) ↦ elim (after_prefix "," rest) [
      | none ↦ some (start, none, rest)
      | some counted ↦ elim (digits counted) [
        | none ↦ some (start, none, rest)
        | some (count, rest') ↦ some (start, some count, rest')
      ]
    ]
  ]

  new_range : ℕ → Option ℕ → String → Option HunkHeader
  unfolding line_range
  new_range old_start old_count s = elim (line_range s) [
    | none ↦ none
    | some (new_start, new_count, rest) ↦ elim (after_prefix " @@" rest) [
      | none ↦ none
      | some suffix ↦ some (record {
        old_start = old_start;
        old_count = old_count;
        new_start = new_start;
        new_count = new_count;
        suffix = suffix;
      })
    ]
  ]

  -- `_HUNK_HEADER_WITH_SUFFIX`
  unfoldable pub header_with_suffix : String → Option HunkHeader
  unfolding new_range
  header_with_suffix line = elim (after_prefix "@@ -" line) [
    | none ↦ none
    | some s ↦ elim (line_range s) [
      | none ↦ none
      | some (old_start, old_count, rest) ↦ elim (after_prefix " +" rest) [
        | none ↦ none
        | some s' ↦ new_range old_start old_count s'
      ]
    ]
  ]

  -- `_HUNK_HEADER`
  unfoldable pub hunk_header : String → Option HunkHeader
  unfolding header_with_suffix
  hunk_header line = elim (header_with_suffix line) [
    | none ↦ none
    | some h ↦ if str_len h.suffix == 0 || starts_with h.suffix " " then some h else none
  ]
