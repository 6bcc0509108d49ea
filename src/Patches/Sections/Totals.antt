-- ===== src/Patches/Sections/Totals.antt =====
-- The counts of a section of src/repo_agent/patches.py against its headers.
use agent_projects.Prelude.{
  ℕ, ◌+◌, String, ◌≡◌, refl, ap, subst, str_eq, ◌∙◌, Bool, true, false, not, Option, none, some,
  List, [], ◌∷◌, if◌then◌else◌, is_some, arith, inl, inr, Bool-cases,
}
use agent_projects.Errors.{Result, ok, err}
use agent_projects.Patches.{Marker, context, removed, added, refuse}
use agent_projects.Patches.Headers.{HunkHeader, hunk_header}
use agent_projects.Patches.Sections.{
  Counts, marked, finish_hunk, count_line, count_or, begin_hunk, content_line, section_line,
  section_lines, count_section, no_newline,
}

abbrev old_of : Option HunkHeader → ℕ
old_of none = 0
old_of (some h) = count_or h.old_count

abbrev new_of : Option HunkHeader → ℕ
new_of none = 0
new_of (some h) = count_or h.new_count

-- The line counts that the headers of a body declare, in total.
abbrev pub old_total : (ℕ → Option ℕ) → List String → ℕ
old_total digit_value [] = 0
old_total digit_value (line ∷ lines) =
    old_of (hunk_header digit_value line) + old_total digit_value lines

abbrev pub new_total : (ℕ → Option ℕ) → List String → ℕ
new_total digit_value [] = 0
new_total digit_value (line ∷ lines) =
    new_of (hunk_header digit_value line) + new_total digit_value lines

abbrev expected_old : Option (ℕ × ℕ) → ℕ
expected_old none = 0
expected_old (some (old, new)) = old

abbrev expected_new : Option (ℕ × ℕ) → ℕ
expected_new none = 0
expected_new (some (old, new)) = new

-- The balance of the hunks that are finished, `old` and `new` lines, and of the current one.
record IsBalanced (old new : ℕ) (c : Counts) : Type 0 where
  balance : (new + c.actual_new) + c.removed_lines ≡ (old + c.actual_old) + c.added_lines
  idle : c.expected ≡ none → (c.actual_old ≡ 0) × (c.actual_new ≡ 0)

finish_lem :
    (path : String) (c c' : Counts) (old new : ℕ)
    → IsBalanced old new c
    → finish_hunk path c ≡ ok c'
    → (c' ≡ c) × (c.actual_old ≡ expected_old c.expected) × (c.actual_new ≡ expected_new c.expected)
unfolding finish_hunk refuse
finish_lem path c c' old new k finished =
    let idle = k.idle in (ground arith, ground arith, ground arith)

ok_inj : {A : Type 0} {a b : A} → ok a ≡ ok b → a ≡ b
ok_inj {A} {a} e = ap (λ r. elim r as (λ _. A) [ ok x ↦ x | err e ↦ a ]) e

-- A counted line of a hunk keeps the balance.
counted_lem :
    (marker : Marker) (c : Counts) (old new : ℕ)
    → IsBalanced old new c
    → is_some c.expected ≡ true
    → IsBalanced old new (count_line marker c) × ((count_line marker c).expected ≡ c.expected)
unfolding count_line
counted_lem added c old new k begun =
    let balance = k.balance in
    (record { balance = omega (arith, balance); idle = λ missing. absurd (ground arith) }, refl)
counted_lem removed c old new k begun =
    let balance = k.balance in
    (record { balance = omega (arith, balance); idle = λ missing. absurd (ground arith) }, refl)
counted_lem context c old new k begun =
    let balance = k.balance in
    (record { balance = omega (arith, balance); idle = λ missing. absurd (ground arith) }, refl)

pick :
    {A : Type 0} (b d : Bool) (x y z : Result A) (a : A)
    → b ≡ true
    → d ≡ false
    → (if not b then x else if d then y else z) ≡ ok a
    → z ≡ ok a
pick true false x y z a begun other counted = counted
pick true true x y z a begun other counted = ground arith
pick false d x y z a begun other counted = ground arith

marked_lem :
    (path : String) (m : Option (Marker × String)) (c c' : Counts) (old new : ℕ)
    → IsBalanced old new c
    → is_some c.expected ≡ true
    → (elim m as (λ _. Result Counts) [
      | none ↦ refuse ("malformed hunk content for " ∷ path ∷ [])
      | some (marker, text) ↦ ok (count_line marker c)
    ])
      ≡ ok c'
    → IsBalanced old new c' × (c'.expected ≡ c.expected)
unfolding refuse count_line
marked_lem path none c c' old new k begun counted = ground arith
marked_lem path (some (marker, text)) c c' old new k begun counted =
    subst (λ x. IsBalanced old new x × (x.expected ≡ c.expected)) (ok_inj counted)
      (counted_lem marker c old new k begun)

content_lem :
    (path line : String) (c c' : Counts) (old new : ℕ)
    → IsBalanced old new c
    → content_line path line c ≡ ok c'
    → IsBalanced old new c' × (c'.expected ≡ c.expected)
unfolding content_line refuse
content_lem path line c c' old new k counted = elim (Bool-cases (is_some c.expected)) [
  | inr outside ↦ ground arith
  | inl begun ↦ elim (Bool-cases (str_eq line no_newline)) [
    | inl last ↦
        let e : c ≡ c' = ground arith in
        subst (λ x. IsBalanced old new x × (x.expected ≡ c.expected)) e (k, refl)
    | inr other ↦
        marked_lem path (marked line) c c' old new k begun
          (pick (is_some c.expected) (str_eq line no_newline) _ _ _ c' begun other counted)
  ]
]

begun_lem :
    (h : HunkHeader) (c : Counts) (old new : ℕ)
    → IsBalanced old new c
    → c.actual_old ≡ expected_old c.expected
    → c.actual_new ≡ expected_new c.expected
    → (c' : Counts) → begin_hunk h (ok c) ≡ ok c'
    → IsBalanced (old + expected_old c.expected) (new + expected_new c.expected) c'
      × (c'.expected ≡ some (count_or h.old_count, count_or h.new_count))
unfolding begin_hunk
begun_lem h c old new k same_old same_new c' begun =
    subst
      (λ x.
        IsBalanced (old + expected_old c.expected) (new + expected_new c.expected) x
        × (x.expected ≡ some (count_or h.old_count, count_or h.new_count)))
      (ok_inj begun)
      (let balance = k.balance in
        (
          record {
            balance = omega (arith, balance, same_old, same_new);
            idle = λ missing. absurd (ground arith);
          },
          refl,
        ))

-- The totals that a line leaves behind, with what the hunk that it is in declares.
record Advances (old new : ℕ) (c : Counts) (o : Option HunkHeader) (c' : Counts) : Type 0 where
  olds : ℕ
  news : ℕ
  balanced : IsBalanced olds news c'
  old_grows : olds + expected_old c'.expected ≡ (old + expected_old c.expected) + old_of o
  new_grows : news + expected_new c'.expected ≡ (new + expected_new c.expected) + new_of o

finished_lem :
    (path : String) (h : HunkHeader) (r : Result Counts) (c' : Counts)
    → begin_hunk h r ≡ ok c'
    → (c1 : Counts) × (r ≡ ok c1)
unfolding begin_hunk
finished_lem path h (ok c1) c' begun = (c1, refl)
finished_lem path h (err e) c' begun = ground arith

line_lem :
    (path line : String) (o : Option HunkHeader) (c c' : Counts) (old new : ℕ)
    → IsBalanced old new c
    → (elim o as (λ _. Result Counts) [
      | some h ↦ begin_hunk h (finish_hunk path c)
      | none ↦ content_line path line c
    ])
      ≡ ok c'
    → Advances old new c o c'
line_lem path line none c c' old new k counted =
    let (balanced, same) = content_lem path line c c' old new k counted in
    record {
      olds = old;
      news = new;
      balanced = balanced;
      old_grows = omega (arith, ap expected_old same);
      new_grows = omega (arith, ap expected_new same);
    }
line_lem path line (some h) c c' old new k counted =
    let (c1, finished) = finished_lem path h (finish_hunk path c) c' counted in
    let (same, same_old, same_new) = finish_lem path c c1 old new k finished in
    let begun = subst (λ r. begin_hunk h r ≡ ok c') (finished ∙ ap ok same) counted in
    let (balanced, declared) = begun_lem h c old new k same_old same_new c' begun in
    record {
      olds = old + expected_old c.expected;
      news = new + expected_new c.expected;
      balanced = balanced;
      old_grows = omega (arith, ap expected_old declared);
      new_grows = omega (arith, ap expected_new declared);
    }

-- The state after a line, where the lines are counted to the end.
split_lem :
    {A : Type 0} (r : Result Counts) (next : Counts → Result A) (a : A)
    → (elim r as (λ _. Result A) [ err e ↦ err e | ok c ↦ next c ]) ≡ ok a
    → (c : Counts) × (r ≡ ok c) × (next c ≡ ok a)
split_lem (ok c) next a counted = (c, refl, counted)
split_lem (err e) next a counted = ground arith

counted_end :
    (path : String) (b : Bool) (r : Result Counts) (a n : ℕ)
    → (if b
        then refuse ("patch for " ∷ path ∷ " has no valid hunk" ∷ [])
        else elim r as (λ _. Result (ℕ × ℕ)) [
          | err e ↦ err e
          | ok c ↦ ok (c.added_lines, c.removed_lines)
        ])
      ≡ ok (a, n)
    → (c : Counts) × (r ≡ ok c) × (c.added_lines ≡ a) × (c.removed_lines ≡ n)
unfolding refuse
counted_end path true r a n counted = ground arith
counted_end path false (err e) a n counted = ground arith
counted_end path false (ok c) a n counted = (c, refl, ground arith, ground arith)

module _ (digit_value : ℕ → Option ℕ) (path : String) where
  one_lem :
      (line : String) (c c' : Counts) (old new : ℕ)
      → IsBalanced old new c
      → section_line digit_value path c line ≡ ok c'
      → Advances old new c (hunk_header digit_value line) c'
  unfolding section_line
  one_lem line c c' old new k counted =
      line_lem path line (hunk_header digit_value line) c c' old new k counted

  -- From a state in the middle of a body to the totals at its end.
  lines_lem :
      (lines : List String) (c c' : Counts) (old new : ℕ)
      → IsBalanced old new c
      → section_lines digit_value path c lines ≡ ok c'
      → (new + expected_new c.expected) + new_total digit_value lines + c'.removed_lines
        ≡ (old + expected_old c.expected) + old_total digit_value lines + c'.added_lines
  unfolding section_lines
  lines_lem [] c c' old new k counted =
      let (same, same_old, same_new) = finish_lem path c c' old new k counted in
      let balance = k.balance in rw same (omega (arith, balance, same_old, same_new))
  lines_lem (line ∷ lines) c c' old new k counted =
      let (c1, one, rest) = split_lem (section_line digit_value path c line) _ c' counted in
      let step = one_lem line c c1 old new k one in
      let old_grows = step.old_grows in
      let new_grows = step.new_grows in
      let total = lines_lem lines c1 c' step.olds step.news step.balanced rest in
      omega (arith, total, old_grows, new_grows)

  -- The counts of an accepted section balance: where the counting accepts a body and returns the
  -- added and the removed lines, the new lines that its headers declare in total, and the removed
  -- ones, are as many as the old lines that they declare, and the added ones.
  pub count_section_lem :
      (body : List String) (added_lines removed_lines : ℕ)
      → count_section digit_value path body ≡ ok (added_lines, removed_lines)
      → new_total digit_value body + removed_lines ≡ old_total digit_value body + added_lines
  unfolding count_section
  count_section_lem body added_lines removed_lines counted =
      let (c, lines, same_added, same_removed) =
        counted_end path _ _ added_lines removed_lines counted in
      let start : Counts = record {
        added_lines = 0;
        removed_lines = 0;
        expected = none;
        actual_old = 0;
        actual_new = 0;
      } in
      let total =
        lines_lem body start c 0 0 (record { balance = refl; idle = λ _. (refl, refl) }) lines in
      omega (arith, total, same_added, same_removed)
