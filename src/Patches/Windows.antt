-- ===== src/Patches/Windows.antt =====
-- The two searches of `_locate_model_sequence` in src/repo_agent/patches.py: the starts that they find
-- within 64 lines of the preferred one, and the second never finds more than the first.
use agent_projects.Prelude.{
  ℕ, suc, ◌+◌, ◌≤◌, ◌<◌, String, ◌≡◌, ◌≢◌, refl, sym, subst, Bool, true, false, ◌&&◌, List, [], ◌∷◌,
  inl, inr, arith, if◌then◌else◌, leb, ◌==◌, length, str_eq, Bool-cases,
}
use agent_projects.Patches.{
  distance, lines_eq, slice, matching, first_start, start_count, sort, choose, max_model_fuzz_gap,
  refuse, single_candidates, fallback,
}
use agent_projects.Patches.Matching.{
  contains, lines_same, lines_self, matching_sound, matching_complete, eqb→eq,
}

-- The window of the search, as a range and as a distance.
window_sound :
    (len width preferred n : ℕ)
    → first_start preferred ≤ n
    → n < first_start preferred + start_count len width preferred
    → (n + width ≤ len) × (distance n preferred ≤ max_model_fuzz_gap)
unfolding start_count
window_sound len width preferred n above below = ground arith

window_complete :
    (len width preferred n : ℕ)
    → n + width ≤ len
    → distance n preferred ≤ max_model_fuzz_gap
    → (first_start preferred ≤ n) × (n < first_start preferred + start_count len width preferred)
unfolding start_count
window_complete len width preferred n fits near = ground arith

in_window :
    (n index preferred : ℕ) (line value : String)
    → (n == index) ≡ true
    → (str_eq value line && leb (distance index preferred) max_model_fuzz_gap) ≡ true
    → distance n preferred ≤ max_model_fuzz_gap
in_window n index preferred line value here hit = ground arith

in_rest :
    (n index : ℕ) (b : Bool) (later : List ℕ)
    → (n == index) ≡ false
    → b ≡ true
    → contains n (if b then index ∷ later else later) ≡ true
    → contains n later ≡ true
in_rest n index true later other hit found = ground arith
in_rest n index false later other hit found = found

candidates_sound :
    (current : List String) (line : String) (preferred index n : ℕ)
    → contains n (single_candidates current line preferred index) ≡ true
    → (k : ℕ) × (n ≡ k + index)
      × (k < length current)
      × (lines_eq (slice k 1 current) (line ∷ []) ≡ true)
      × (distance n preferred ≤ max_model_fuzz_gap)
unfolding single_candidates lines_eq
candidates_sound [] line preferred index n found = ground arith
candidates_sound (value ∷ rest) line preferred index n found =
    elim (Bool-cases (str_eq value line && leb (distance index preferred) max_model_fuzz_gap)) [
      | inl hit ↦ elim (Bool-cases (n == index)) [
        | inl here ↦ (
          0,
          omega (arith, eqb→eq n index here),
          omega arith,
          ground arith,
          in_window n index preferred line value here hit,
        )
        | inr later ↦
            let (k, place, inside, same, near) =
              candidates_sound rest line preferred (suc index) n
                (in_rest n index _ _ later hit found) in
            (suc k, omega (arith, place), omega (arith, inside), same, near)
      ]
      | inr miss ↦
          let (k, place, inside, same, near) =
            candidates_sound rest line preferred (suc index) n (rw miss at found) in
          (suc k, omega (arith, place), omega (arith, inside), same, near)
    ]

-- The place of lines in a file: the nearest of those within the gap.
pub record IsPlace (current old_lines : List String) (preferred start end : ℕ) : Type 0 where
  pub width : end ≡ start + length old_lines
  pub inside : end ≤ length current
  pub found : slice start (length old_lines) current ≡ old_lines
  pub near : distance start preferred ≤ max_model_fuzz_gap
  pub nearest :
      (n : ℕ)
      → n + length old_lines ≤ length current
      → slice n (length old_lines) current ≡ old_lines
      → distance n preferred ≤ max_model_fuzz_gap
      → n ≢ start
      → distance start preferred < distance n preferred

pub no_members : (xs : List ℕ) → ((n : ℕ) → contains n xs ≡ false) → xs ≡ []
no_members [] absent = refl
no_members (x ∷ xs) absent = let e = absent x in ground arith

pub fallback_fails :
    (current : List String) (line : String) (lines : List String) (preferred : ℕ) (path : String)
    → matching current
        (line ∷ lines)
        (first_start preferred)
        (start_count (length current) (length (line ∷ lines)) preferred)
      ≡ []
    → fallback current (line ∷ lines) preferred path
      ≡ refuse ("model patch context does not match " ∷ path ∷ [])
unfolding fallback choose sort
fallback_fails current line (next ∷ lines) preferred path nowhere = refl
fallback_fails current line [] preferred path nowhere =
    let none_there : (n : ℕ) → contains n (single_candidates current line preferred 0) ≡ false =
      λ n. elim (Bool-cases (contains n (single_candidates current line preferred 0))) [
        | inr absent ↦ absent
        | inl found ↦
            let (k, place, inside, same, near) =
              candidates_sound current line preferred 0 n found in
            let e : n ≡ k = omega (arith, place) in
            let (above, below) =
              window_complete (length current) 1 preferred n (omega (arith, place, inside)) near in
            let hit = subst (λ x. lines_eq (slice x 1 current) (line ∷ []) ≡ true) (sym e) same in
            let there =
              matching_complete current (line ∷ []) (first_start preferred)
                (start_count (length current) 1 preferred) n above below hit in
            let absent : contains n [] ≡ true = subst (λ xs. contains n xs ≡ true) nowhere there in
            ground arith
      ] in
    let no_candidate = no_members (single_candidates current line preferred 0) none_there in
    rw no_candidate refl

pub record IsExact (current old_lines : List String) (preferred : ℕ) (starts : List ℕ)
    : Type 0 where
  pub sound :
      (n : ℕ)
      → contains n starts ≡ true
      → (n + length old_lines ≤ length current)
        × (slice n (length old_lines) current ≡ old_lines)
        × (distance n preferred ≤ max_model_fuzz_gap)
  pub complete :
      (n : ℕ)
      → n + length old_lines ≤ length current
      → slice n (length old_lines) current ≡ old_lines
      → distance n preferred ≤ max_model_fuzz_gap
      → contains n starts ≡ true

pub matching-IsExact :
    (current old_lines : List String) (preferred : ℕ)
    → IsExact current old_lines preferred (
        matching current old_lines
          (first_start preferred)
          (start_count (length current) (length old_lines) preferred))
matching-IsExact current old_lines preferred = record {
  sound = λ n found.
      let (above, below, hit) =
        matching_sound current old_lines (first_start preferred)
          (start_count (length current) (length old_lines) preferred) n found in
      let (inside, near) =
        window_sound (length current) (length old_lines) preferred n above below in
      (inside, lines_same _ _ hit, near);
  complete = λ n inside same near.
      let (above, below) =
        window_complete (length current) (length old_lines) preferred n inside near in
      matching_complete current old_lines (first_start preferred)
        (start_count (length current) (length old_lines) preferred) n above below
        (subst (λ xs. lines_eq xs old_lines ≡ true) (sym same) (lines_self old_lines));
}
