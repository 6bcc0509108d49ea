-- ===== src/Patches/Placing.antt =====
-- Where src/repo_agent/patches.py places a hunk, and what a file is after its hunks.
use agent_projects.Prelude.{
  ℕ, zero, suc, ◌+◌, ◌-◌, ◌≤◌, ◌<◌, String, ◌≡◌, refl, sym, ap, subst, ◌∙◌, List, [], ◌∷◌, ◌++◌,
  inl, inr, arith, length, take, drop, Bool-cases,
}
use agent_projects.Errors.{Result, ok, err}
use agent_projects.Patches.{
  ModelHunk, distance, slice, matching, first_start, start_count, sort, choose, max_model_fuzz_gap,
  refuse, exact_or, locate_model_sequence, old_texts, apply_hunks, apply_model_hunks,
}
use agent_projects.Patches.Matching.{contains, sort-contains, sort_sorted, choose-IsNearest}
use agent_projects.Patches.Windows.{no_members, fallback_fails, matching-IsExact, IsPlace, IsExact}

exact-IsPlace :
    (current old_lines : List String) (preferred : ℕ) (path : String) (starts : List ℕ)
    (start end : ℕ)
    → IsExact current old_lines preferred starts
    → choose path preferred (length old_lines) (sort preferred starts) ≡ ok (start, end)
    → IsPlace current old_lines preferred start end
exact-IsPlace current old_lines preferred path starts start end exact chosen =
    let (width, nearest) =
      choose-IsNearest path preferred (length old_lines) (sort preferred starts) start end
        (sort_sorted preferred starts) chosen in
    let (inside, found, near) =
      exact.sound start (sym (sort-contains preferred start starts) ∙ nearest.member) in
    record {
      width = width;
      inside = omega (arith, width, inside);
      found = found;
      near = near;
      nearest = λ n fits same close ne.
          nearest.nearest n (sort-contains preferred n starts ∙ exact.complete n fits same close)
            ne;
    }

from_exact :
    (current : List String) (line : String) (lines : List String) (preferred : ℕ) (path : String)
    (starts : List ℕ) (start end : ℕ)
    → matching current
        (line ∷ lines)
        (first_start preferred)
        (start_count (length current) (length (line ∷ lines)) preferred)
      ≡ starts
    → IsExact current (line ∷ lines) preferred starts
    → exact_or starts current (line ∷ lines) preferred path ≡ ok (start, end)
    → IsPlace current (line ∷ lines) preferred start end
unfolding exact_or refuse
from_exact current line lines preferred path [] start end nowhere exact located =
    let fails = fallback_fails current line lines preferred path nowhere in ground (arith, fails)
from_exact current line lines preferred path (a ∷ starts) start end somewhere exact located =
    exact-IsPlace current (line ∷ lines) preferred path (a ∷ starts) start end exact located

-- A hunk is placed at the nearest match: where `_locate_model_sequence` returns a range for lines
-- that are not empty, the range lies in the file and holds exactly these lines, it starts at most
-- 64 lines from the preferred one, and every other match within 64 lines is strictly farther away.
pub locate_lem :
    (current : List String) (line : String) (lines : List String) (preferred : ℕ) (path : String)
    (start end : ℕ)
    → locate_model_sequence current (line ∷ lines) preferred path ≡ ok (start, end)
    → IsPlace current (line ∷ lines) preferred start end
unfolding locate_model_sequence
locate_lem current line lines preferred path start end located =
    from_exact current line lines preferred path _ start end refl
      (matching-IsExact current (line ∷ lines) preferred) located

-- A hunk without a match is refused: where no position within 64 lines of the preferred one holds
-- the lines of a hunk, `_locate_model_sequence` raises PatchValidationError.
pub locate_missing :
    (current : List String) (line : String) (lines : List String) (preferred : ℕ) (path : String)
    → ((n : ℕ)
        → n + length (line ∷ lines) ≤ length current
        → slice n (length (line ∷ lines)) current ≡ line ∷ lines
        → max_model_fuzz_gap < distance n preferred)
    → locate_model_sequence current (line ∷ lines) preferred path
      ≡ refuse ("model patch context does not match " ∷ path ∷ [])
unfolding locate_model_sequence exact_or
locate_missing current line lines preferred path absent =
    let starts =
      matching current (line ∷ lines) (first_start preferred)
        (start_count (length current) (length (line ∷ lines)) preferred) in
    let exact = matching-IsExact current (line ∷ lines) preferred in
    let nowhere : starts ≡ [] = no_members starts λ n. elim (Bool-cases (contains n starts)) [
      | inr missing ↦ missing
      | inl found ↦
          let (inside, same, near) = exact.sound n found in
          absurd (omega (arith, near, absent n inside same))
    ] in
    rw nowhere (fallback_fails current line lines preferred path nowhere)

-- What a file becomes: each hunk replaces one occurrence of its old lines by its new lines.
pub data Patches : List String → List ModelHunk → List String → Type 0 where
  done : (lines : List String) → Patches lines [] lines
  replace :
      (before after : List String) (hunk : ModelHunk) (hunks : List ModelHunk)
      (result : List String)
      → Patches (before ++ hunk.new_lines ++ after) hunks result
      → Patches (before ++ old_texts hunk ++ after) (hunk ∷ hunks) result

refl_nil : (width : ℕ) → ◌≡◌ {A = List String} (take width [] ++ []) []
refl_nil zero = refl
refl_nil (suc width) = refl

take-drop : (width : ℕ) (xs : List String) → take width xs ++ drop width xs ≡ xs
take-drop zero xs = refl
take-drop (suc width) [] = refl
take-drop (suc width) (x ∷ xs) = ap (λ ys. x ∷ ys) (take-drop width xs)

take-slice-drop :
    (start width end : ℕ) (xs : List String)
    → end ≡ start + width
    → take start xs ++ slice start width xs ++ drop end xs ≡ xs
take-slice-drop zero width end xs e =
    let same : end ≡ width = omega (arith, e) in
    subst (λ n. take width xs ++ drop n xs ≡ xs) (sym same) (take-drop width xs)
take-slice-drop (suc start) width zero xs e = absurd (omega (arith, e))
take-slice-drop (suc start) width (suc end) [] e = refl_nil width
take-slice-drop (suc start) width (suc end) (x ∷ xs) e =
    ap (λ ys. x ∷ ys) (take-slice-drop start width end xs (omega (arith, e)))

located_slice :
    (current old_lines : List String) (preferred : ℕ) (path : String) (start end : ℕ)
    → locate_model_sequence current old_lines preferred path ≡ ok (start, end)
    → (end ≡ start + length old_lines) × (slice start (length old_lines) current ≡ old_lines)
unfolding locate_model_sequence
located_slice current [] preferred path start end located = (ground arith, refl)
located_slice current (line ∷ lines) preferred path start end located =
    let place = locate_lem current line lines preferred path start end located in
    (place.width, place.found)

apply_step :
    (path : String) (current : List String) (plus minus : ℕ) (hunk : ModelHunk)
    (hunks : List ModelHunk) (result : List String) (r : Result (ℕ × ℕ))
    → locate_model_sequence current (old_texts hunk) ((hunk.old_start + plus) - (1 + minus)) path
      ≡ r
    → (elim r as (λ _. Result (List String)) [
      | err e ↦ err e
      | ok (start, end) ↦
          apply_hunks path
            (take start current ++ hunk.new_lines ++ drop end current)
            (plus + length hunk.new_lines)
            (minus + (end - start))
            hunks
    ])
      ≡ ok result
    → ((start end : ℕ)
        → apply_hunks path
            (take start current ++ hunk.new_lines ++ drop end current)
            (plus + length hunk.new_lines)
            (minus + (end - start))
            hunks
          ≡ ok result
        → Patches (take start current ++ hunk.new_lines ++ drop end current) hunks result)
    → Patches current (hunk ∷ hunks) result
apply_step path current plus minus hunk hunks result (err e) located applied continue = ground arith
apply_step path current plus minus hunk hunks result (ok (start, end)) located applied continue =
    let (width, found) = located_slice current (old_texts hunk) _ path start end located in
    let whole : take start current ++ old_texts hunk ++ drop end current ≡ current =
      subst (λ ys. take start current ++ ys ++ drop end current ≡ current) found
        (take-slice-drop start (length (old_texts hunk)) end current width) in
    subst (λ ys. Patches ys (hunk ∷ hunks) result) whole
      (replace (take start current) (drop end current) hunk hunks result
        (continue start end applied))

apply-Patches :
    (path : String) (current : List String) (plus minus : ℕ) (hunks : List ModelHunk)
    (result : List String)
    → apply_hunks path current plus minus hunks ≡ ok result
    → Patches current hunks result
unfolding apply_hunks
apply-Patches path current plus minus [] result applied =
    let e : current ≡ result = ground arith in subst (Patches current []) e (done current)
apply-Patches path current plus minus (hunk ∷ hunks) result applied =
    apply_step path current plus minus hunk hunks result
      (locate_model_sequence current (old_texts hunk) ((hunk.old_start + plus) - (1 + minus)) path)
      refl applied
      λ start end rest.
        apply-Patches path (take start current ++ hunk.new_lines ++ drop end current)
          (plus + length hunk.new_lines) (minus + (end - start)) hunks result rest

-- The hunks are applied: where `_apply_model_hunks` returns a file, it is what the hunks make of
-- the base, each in its turn replacing one occurrence of exactly its old lines by its new lines,
-- with everything before and after it kept.
pub apply_lem :
    (base : List String) (hunks : List ModelHunk) (path : String) (result : List String)
    → apply_model_hunks base hunks path ≡ ok result
    → Patches base hunks result
unfolding apply_model_hunks
apply_lem base hunks path result applied = apply-Patches path base 0 0 hunks result applied
