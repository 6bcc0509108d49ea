-- ===== src/Patches.antt =====
-- Patches of src/repo_agent/patches.py: where the hunks that a model writes go in a file, and what
-- a file has after them.
pub mod Matching
pub mod Windows
pub mod Placing
pub mod Headers
pub mod Sections
pub mod Validation
pub mod Models
use agent_projects.Prelude.{
  ℕ, zero, suc, ◌+◌, ◌-◌, String, Bool, true, false, not, ◌&&◌, ◌||◌, Option, none, some, List, [],
  ◌∷◌, ◌++◌, map, if◌then◌else◌, ltb, leb, ◌==◌, length, take, drop, str_eq, fmt,
}
use agent_projects.Errors.{Result, ok, err, patch_validation_error}

-- The first character of a hunk's line: a space, `-` or `+`.
pub data Marker : Type 0 where
  context removed added : Marker

-- `_ModelHunk`
pub record ModelHunk : Type 0 where
  pub old_start : ℕ
  pub old_lines : List (Marker × String)
  pub new_lines : List String

abbrev pub max_model_fuzz_gap : ℕ
max_model_fuzz_gap = 64

unfoldable pub refuse : {A : Type 0} → List String → Result A
refuse message = err (record { kind = patch_validation_error; message = fmt message })

-- `abs(a - b)`
abbrev pub distance : ℕ → ℕ → ℕ
distance a b = (a - b) + (b - a)

abbrev pub minimum : ℕ → ℕ → ℕ
minimum a b = if leb a b then a else b

-- `left == right` of lists of lines
unfoldable pub lines_eq : List String → List String → Bool
lines_eq [] [] = true
lines_eq (x ∷ xs) (y ∷ ys) = str_eq x y && lines_eq xs ys
lines_eq [] (y ∷ ys) = false
lines_eq (x ∷ xs) [] = false

-- `current[start : start + width]`
abbrev pub slice : {A : Type 0} → ℕ → ℕ → List A → List A
slice start width current = take width (drop start current)

-- The starts of `range(start, start + count)` where the lines match.
unfoldable pub matching : List String → List String → ℕ → ℕ → List ℕ
matching current old_lines start zero = []
matching current old_lines start (suc count) =
    let rest = matching current old_lines (suc start) count in
    if lines_eq (slice start (length old_lines) current) old_lines then start ∷ rest else rest

abbrev pub first_start : ℕ → ℕ
first_start preferred = preferred - max_model_fuzz_gap

-- The length of `range(first_start, last_start + 1)`, which is empty where `last_start` is negative.
unfoldable pub start_count : ℕ → ℕ → ℕ → ℕ
start_count len width preferred =
    if ltb len width
    then 0
    else suc (minimum (len - width) (preferred + max_model_fuzz_gap)) - first_start preferred

-- The order of `sort(key=lambda item: (abs(item[0] - preferred), item[0]))`.
unfoldable pub precedes : ℕ → ℕ → ℕ → Bool
precedes preferred a b =
    ltb (distance a preferred) (distance b preferred)
    || (distance a preferred == distance b preferred && leb a b)

unfoldable pub insert : ℕ → ℕ → List ℕ → List ℕ
insert preferred a [] = a ∷ []
insert preferred a (b ∷ rest) =
    let later = insert preferred a rest in
    if precedes preferred a b then a ∷ b ∷ rest else b ∷ later

unfoldable pub sort : ℕ → List ℕ → List ℕ
sort preferred [] = []
sort preferred (a ∷ rest) = insert preferred a (sort preferred rest)

-- The candidates of the fallback for a single line: the indices of equal lines within the gap.
unfoldable pub single_candidates : List String → String → ℕ → ℕ → List ℕ
single_candidates [] line preferred index = []
single_candidates (value ∷ rest) line preferred index =
    let later = single_candidates rest line preferred (suc index) in
    if str_eq value line && leb (distance index preferred) max_model_fuzz_gap
    then index ∷ later
    else later

-- The choice among sorted candidates: the first, if the second is not as near.
unfoldable pub choose : String → ℕ → ℕ → List ℕ → Result (ℕ × ℕ)
unfolding refuse
choose path preferred width [] = refuse ("model patch context does not match " ∷ path ∷ [])
choose path preferred width (a ∷ []) = ok (a, a + width)
choose path preferred width (a ∷ b ∷ rest) =
    if distance a preferred == distance b preferred
    then refuse ("model patch context is ambiguous for " ∷ path ∷ [])
    else ok (a, a + width)

unfoldable pub fallback : List String → List String → ℕ → String → Result (ℕ × ℕ)
fallback current (line ∷ []) preferred path =
    choose path preferred 1 (sort preferred (single_candidates current line preferred 0))
fallback current [] preferred path = choose path preferred 0 []
fallback current (line ∷ next ∷ lines) preferred path = choose path preferred 0 []

unfoldable pub exact_or : List ℕ → List String → List String → ℕ → String → Result (ℕ × ℕ)
exact_or [] current old_lines preferred path = fallback current old_lines preferred path
exact_or (a ∷ rest) current old_lines preferred path =
    choose path preferred (length old_lines) (sort preferred (a ∷ rest))

-- `_locate_model_sequence`
unfoldable pub locate_model_sequence : List String → List String → ℕ → String → Result (ℕ × ℕ)
unfolding exact_or
locate_model_sequence current [] preferred path =
    ok (minimum preferred (length current), minimum preferred (length current))
locate_model_sequence current (line ∷ lines) preferred path =
    exact_or
      (matching current (line ∷ lines) (first_start preferred)
        (start_count (length current) (length (line ∷ lines)) preferred))
      current (line ∷ lines) preferred path

unfoldable pub old_texts : ModelHunk → List String
old_texts hunk = map (λ (marker, text). text) hunk.old_lines

-- The loop of `_apply_model_hunks`. The offset is the difference of two numbers, the lines added
-- and the lines removed by the hunks before, and a negative start is 0.
unfoldable pub apply_hunks : String → List String → ℕ → ℕ → List ModelHunk → Result (List String)
apply_hunks path current plus minus [] = ok current
apply_hunks path current plus minus (hunk ∷ hunks) =
    elim (locate_model_sequence current (old_texts hunk) ((hunk.old_start + plus) - (1 + minus))
      path) [
        | err e ↦ err e
        | ok (start, end) ↦
            apply_hunks path (take start current ++ hunk.new_lines ++ drop end current)
              (plus + length hunk.new_lines) (minus + (end - start)) hunks
      ]

-- `_apply_model_hunks`
unfoldable pub apply_model_hunks : List String → List ModelHunk → String → Result (List String)
unfolding apply_hunks
apply_model_hunks base hunks path = apply_hunks path base 0 0 hunks
