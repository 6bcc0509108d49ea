-- ===== src/Patches/Matching.antt =====
-- What the search of src/repo_agent/patches.py finds, and the nearest of its finds.
use agent_projects.Prelude.{
  ℕ, zero, suc, ◌+◌, ◌≤◌, ◌<◌, String, ◌≡◌, ◌≢◌, refl, sym, ap, subst, ◌∙◌, Bool, true, false, ◌&&◌,
  ◌||◌, List, [], ◌∷◌, inl, inr, arith, if◌then◌else◌, ◌==◌, length, eq_iff, Bool-cases,
}
use agent_projects.Errors.{ok}
use agent_projects.Patches.{
  distance, lines_eq, slice, matching, precedes, insert, sort, choose, refuse,
}

-- `n in starts`
abbrev pub contains : ℕ → List ℕ → Bool
contains n [] = false
contains n (m ∷ rest) = n == m || contains n rest

pub lines_same : (xs ys : List String) → lines_eq xs ys ≡ true → xs ≡ ys
unfolding lines_eq
lines_same [] [] same = refl
lines_same [] (y ∷ ys) same = ground arith
lines_same (x ∷ xs) [] same = ground arith
lines_same (x ∷ xs) (y ∷ ys) same = ground (arith, eq_iff x y, lines_same xs ys)

pub lines_self : (xs : List String) → lines_eq xs xs ≡ true
unfolding lines_eq
lines_self [] = refl
lines_self (x ∷ xs) = ground (arith, eq_iff x x, lines_self xs)

pub eqb→eq : (m n : ℕ) → (m == n) ≡ true → m ≡ n
eqb→eq m n e = ground arith

pub eqb→ne : (m n : ℕ) → (m == n) ≡ false → m ≢ n
eqb→ne m n e same = ground arith

skip :
    (start n : ℕ) (b : Bool) (rest : List ℕ)
    → (n == start) ≡ false
    → contains n (if b then start ∷ rest else rest) ≡ true
    → contains n rest ≡ true
skip start n true rest other found = ground arith
skip start n false rest other found = found

add :
    (start n : ℕ) (b : Bool) (rest : List ℕ)
    → contains n rest ≡ true
    → contains n (if b then start ∷ rest else rest) ≡ true
add start n true rest found = ground arith
add start n false rest found = found

module _ (current old_lines : List String) where
  pub matching_sound :
      (start count n : ℕ)
      → contains n (matching current old_lines start count) ≡ true
      → (start ≤ n)
        × (n < start + count)
        × (lines_eq (slice n (length old_lines) current) old_lines ≡ true)
  unfolding matching
  matching_sound start zero n found = ground arith
  matching_sound start (suc count) n found = elim (Bool-cases (n == start)) [
    | inl same ↦ elim (Bool-cases (lines_eq (slice start (length old_lines) current) old_lines)) [
      | inl hit ↦ (
        omega (arith, eqb→eq n start same),
        omega (arith, eqb→eq n start same),
        subst (λ k. lines_eq (slice k (length old_lines) current) old_lines ≡ true)
            (sym (eqb→eq n start same)) hit,
      )
      | inr miss ↦
          let (above, below, hit) = matching_sound (suc start) count n (rw miss at found) in
          (omega (arith, above), omega (arith, below), hit)
    ]
    | inr other ↦
        let (above, below, hit) = matching_sound (suc start) count n (
          skip start n (lines_eq (slice start (length old_lines) current) old_lines)
            (matching current old_lines (suc start) count) other found) in
        (omega (arith, above), omega (arith, below), hit)
  ]

  pub matching_complete :
      (start count n : ℕ)
      → start ≤ n
      → n < start + count
      → lines_eq (slice n (length old_lines) current) old_lines ≡ true
      → contains n (matching current old_lines start count) ≡ true
  unfolding matching
  matching_complete start zero n above below same = ground arith
  matching_complete start (suc count) n above below same = elim (Bool-cases (n == start)) [
    | inl e ↦
        let hit =
          subst (λ k. lines_eq (slice k (length old_lines) current) old_lines ≡ true)
            (eqb→eq n start e) same in
        rw (hit, e) refl
    | inr other ↦ add start n _ _ (
        matching_complete (suc start) count n (omega (arith, above, eqb→ne n start other))
          (omega (arith, below)) same)
  ]

-- The candidates after the first come no earlier.
abbrev pub all_after : ℕ → ℕ → List ℕ → Bool
all_after preferred a [] = true
all_after preferred a (b ∷ rest) = precedes preferred a b && all_after preferred a rest

abbrev pub is_sorted : ℕ → List ℕ → Bool
is_sorted preferred [] = true
is_sorted preferred (a ∷ rest) = all_after preferred a rest && is_sorted preferred rest

module _ (preferred : ℕ) where
  insert-contains :
      (n a : ℕ) (xs : List ℕ) → contains n (insert preferred a xs) ≡ (n == a || contains n xs)
  unfolding insert
  insert-contains n a [] = refl
  insert-contains n a (b ∷ xs) = ground (arith, insert-contains n a xs)

  pub sort-contains : (n : ℕ) (xs : List ℕ) → contains n (sort preferred xs) ≡ contains n xs
  unfolding sort
  sort-contains n [] = refl
  sort-contains n (a ∷ xs) =
      insert-contains n a (sort preferred xs) ∙ ap (λ b. n == a || b) (sort-contains n xs)

  precedes_total : (a b : ℕ) → precedes preferred a b ≡ false → precedes preferred b a ≡ true
  unfolding precedes
  precedes_total a b other = ground arith

  precedes_trans :
      (a b c : ℕ)
      → precedes preferred a b ≡ true
      → precedes preferred b c ≡ true
      → precedes preferred a c ≡ true
  unfolding precedes
  precedes_trans a b c first second = ground arith

  all_after_trans :
      (a b : ℕ) (xs : List ℕ)
      → precedes preferred a b ≡ true
      → all_after preferred b xs ≡ true
      → all_after preferred a xs ≡ true
  all_after_trans a b [] first after = refl
  all_after_trans a b (c ∷ xs) first after =
      ground (arith, precedes_trans a b c, all_after_trans a b xs)

  all_after-insert :
      (a b : ℕ) (xs : List ℕ)
      → precedes preferred b a ≡ true
      → all_after preferred b xs ≡ true
      → all_after preferred b (insert preferred a xs) ≡ true
  unfolding insert
  all_after-insert a b [] first after = ground arith
  all_after-insert a b (c ∷ xs) first after = ground (arith, all_after-insert a b xs)

  insert_sorted :
      (a : ℕ) (xs : List ℕ)
      → is_sorted preferred xs ≡ true
      → is_sorted preferred (insert preferred a xs) ≡ true
  unfolding insert
  insert_sorted a [] sorted = refl
  insert_sorted a (b ∷ xs) sorted = elim (Bool-cases (precedes preferred a b)) [
    | inl first ↦ ground (arith, first, all_after_trans a b xs)
    | inr later ↦
        ground (arith, later, precedes_total a b, insert_sorted a xs, all_after-insert a b xs)
  ]

  pub sort_sorted : (xs : List ℕ) → is_sorted preferred (sort preferred xs) ≡ true
  unfolding sort
  sort_sorted [] = refl
  sort_sorted (a ∷ xs) = insert_sorted a (sort preferred xs) (sort_sorted xs)

  after_lem :
      (a n : ℕ) (xs : List ℕ)
      → all_after preferred a xs ≡ true
      → contains n xs ≡ true
      → precedes preferred a n ≡ true
  after_lem a n [] after found = ground arith
  after_lem a n (b ∷ xs) after found = elim (Bool-cases (n == b)) [
    | inl same ↦ subst (λ k. precedes preferred a k ≡ true) (sym (eqb→eq n b same)) (ground arith)
    | inr other ↦ after_lem a n xs (ground arith) (ground arith)
  ]

-- A choice among starts: it is one of them, and every other start is strictly farther away.
pub record IsNearest (preferred : ℕ) (starts : List ℕ) (a : ℕ) : Type 0 where
  pub member : contains a starts ≡ true
  pub nearest :
      (n : ℕ) → contains n starts ≡ true → n ≢ a → distance a preferred < distance n preferred

module _ (preferred : ℕ) where
  no_nearer :
      (a b : ℕ) → precedes preferred a b ≡ true → distance a preferred ≤ distance b preferred
  unfolding precedes
  no_nearer a b first = ground arith

  nearer :
      (a b : ℕ)
      → distance a preferred ≢ distance b preferred
      → precedes preferred a b ≡ true
      → distance a preferred < distance b preferred
  nearer a b apart first = omega (arith, no_nearer a b first, apart)

rest_of :
    (n a b : ℕ) (xs : List ℕ)
    → n ≢ a
    → (n == b) ≡ false
    → contains n (a ∷ b ∷ xs) ≡ true
    → contains n xs ≡ true
rest_of n a b xs ne other found = ground arith

pub choose-IsNearest :
    (path : String) (preferred width : ℕ) (xs : List ℕ) (start end : ℕ)
    → is_sorted preferred xs ≡ true
    → choose path preferred width xs ≡ ok (start, end)
    → (end ≡ start + width) × IsNearest preferred xs start
unfolding choose refuse precedes
choose-IsNearest path preferred width [] start end sorted chosen = ground arith
choose-IsNearest path preferred width (a ∷ []) start end sorted chosen =
    let e : start ≡ a = ground arith in
    (
      ground arith,
      subst (IsNearest preferred (a ∷ [])) (sym e)
          (record { member = ground arith; nearest = λ n found ne. ground (arith, found, ne) }),
    )
choose-IsNearest path preferred width (a ∷ b ∷ xs) start end sorted chosen =
    elim (Bool-cases (distance a preferred == distance b preferred)) [
      | inl tie ↦ ground arith
      | inr apart ↦
          let e : start ≡ a = ground arith in
          let near = eqb→ne (distance a preferred) (distance b preferred) apart in
          (
            ground arith,
            subst (IsNearest preferred (a ∷ b ∷ xs)) (sym e) (record {
              member = ground arith;
              nearest = λ n found ne. elim (Bool-cases (n == b)) [
                | inl same ↦
                    omega (arith, eqb→eq n b same, nearer preferred a b near (ground arith))
                | inr other ↦
                    let after : precedes preferred b n ≡ true =
                      after_lem preferred b n xs (ground arith) (rest_of n a b xs ne other found) in
                    omega (
                      arith,
                      nearer preferred a b near (ground arith),
                      no_nearer preferred b n after,
                    )
              ];
            }),
          )
    ]
