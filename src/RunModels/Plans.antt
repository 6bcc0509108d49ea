-- ===== src/RunModels/Plans.antt =====
-- The validators of ChangePlan in src/repo_agent/run_models.py, and what an accepted list of
-- plan files is. The values are those that pydantic has stripped of white space; Unicode case
-- folding, Python's `str.casefold`, is a parameter.
use agent_projects.Prelude.{
  String, ◌≡◌, ◌≢◌, refl, sym, subst, ap, Bool, true, false, ◌||◌, Option, none, some, List, [],
  ◌∷◌, ◌++◌, if◌then◌else◌, any, arith, str_len, str_eq, eq_iff, any_char, starts_with, split,
  is_one_of, ◌==◌,
}
use agent_projects.Errors.{Result, ok, err, value_error}
use agent_projects.Policy.{first_refusal}

-- The tests of one file. The parts of a PurePosixPath are the pieces of its text without the empty
-- ones and ".", and it is absolute if the text starts with a slash.
unfoldable pub file_refusal : String → Option String
file_refusal value =
    if str_len value == 0 || any_char (λ c. c == 92) value || any_char (λ c. c == 0) value
    then some "plan files must be non-empty POSIX paths"
    else if starts_with value "/" || is_one_of ".." (split 47 value) || starts_with value ".git/"
    then some "plan files must stay inside the repository"
    else none

-- `any(not item for item in values)`, the test of `validate_text_items`.
unfoldable pub text_items_refusal : List String → Option String
text_items_refusal values =
    if any (λ item. str_len item == 0) values
    then some "plan list items must not be empty"
    else none

unfoldable pub values_unless : Option String → List String → Result (List String)
values_unless none values = ok values
values_unless (some why) values = err (record { kind = value_error; message = why })

unfoldable pub validate_text_items : List String → Result (List String)
validate_text_items values = values_unless (text_items_refusal values) values

module _ (casefold : String → String) where
  -- The loop of `validate_files`, with the folded files that it has seen.
  unfoldable pub files_refusal : List String → List String → Option String
  files_refusal seen [] = none
  files_refusal seen (value ∷ values) =
      let rest = files_refusal (casefold value ∷ seen) values in
      first_refusal (file_refusal value) (
        if is_one_of (casefold value) seen
        then some "plan files must not contain duplicates"
        else rest)

  unfoldable pub validate_files : List String → Result (List String)
  validate_files values = values_unless (files_refusal [] values) values

first_none :
    (o : Option String) (b : Bool) (message : String) (rest : Option String)
    → first_refusal o (if b then some message else rest) ≡ none
    → (o ≡ none) × (b ≡ false) × (rest ≡ none)
unfolding first_refusal
first_none (some why) b message rest e = ground arith
first_none none true message rest e = ground arith
first_none none false message rest e = (refl, refl, e)

values_ok :
    (o : Option String) (values checked : List String)
    → values_unless o values ≡ ok checked
    → (o ≡ none) × (checked ≡ values)
unfolding values_unless
values_ok none values checked e =
    (refl, sym (ap (λ r. elim r as (λ _. List String) [ ok x ↦ x | err _ ↦ values ]) e))
values_ok (some why) values checked e = ground arith

is_one_of_head : (x : String) (seen : List String) → is_one_of x (x ∷ seen) ≡ true
unfolding is_one_of
is_one_of_head x seen = let same = (eq_iff x x).1 refl in ground arith

is_one_of_tail :
    (x y : String) (seen : List String) → is_one_of x seen ≡ true → is_one_of x (y ∷ seen) ≡ true
unfolding is_one_of
is_one_of_tail x y seen found = elim (str_eq x y) as (λ b. (b || is_one_of x seen) ≡ true) [
  | true ↦ refl
  | false ↦ found
]

-- What `file_refusal` lets through.
pub StaysInside : String → Type 0
StaysInside value =
    (value ≢ "")
    × (any_char (λ c. c == 92) value ≡ false)
    × (starts_with value "/" ≡ false)
    × (is_one_of ".." (split 47 value) ≡ false)
    × (starts_with value ".git/" ≡ false)

neither_refuses :
    (first next : Bool) (message other : String)
    → (if first then some message else if next then some other else none) ≡ none
    → (first ≡ false) × (next ≡ false)
neither_refuses true next message other e = ground arith
neither_refuses false true message other e = ground arith
neither_refuses false false message other e = (refl, refl)

all_fail : (a b c : Bool) → (a || b || c) ≡ false → (a ≡ false) × (b ≡ false) × (c ≡ false)
all_fail true b c e = ground arith
all_fail false true c e = ground arith
all_fail false false c e = (refl, refl, e)

inside_lem : (value : String) → file_refusal value ≡ none → StaysInside value
unfolding file_refusal StaysInside
inside_lem value e =
    let (text, place) = neither_refuses _ _ _ _ e in
    let (some_length, no_backslash, _) = all_fail _ _ _ text in
    let (relative, no_parent, no_git) = all_fail _ _ _ place in
    (
      λ empty.
          let no_length = subst (λ x. (str_len x == 0) ≡ false) empty some_length in
          ground (arith, no_length),
      no_backslash,
      relative,
      no_parent,
      no_git,
    )

module _ (casefold : String → String) where
  -- What the loop has seen after the files in front of others.
  after_front :
      (seen front rest : List String)
      → files_refusal casefold seen (front ++ rest) ≡ none
      → (later : List String) × (files_refusal casefold later rest ≡ none)
        × ((x : String) → is_one_of x seen ≡ true → is_one_of x later ≡ true)
  unfolding files_refusal
  after_front seen [] rest e = (seen, e, λ x found. found)
  after_front seen (value ∷ front) rest e =
      let (_, _, more) = first_none _ _ _ _ e in
      let (later, fine, keeps) = after_front (casefold value ∷ seen) front rest more in
      (later, fine, λ x found. keeps x (is_one_of_tail x (casefold value) seen found))

  here_lem :
      (seen : List String) (value : String) (rest : List String)
      → files_refusal casefold seen (value ∷ rest) ≡ none
      → (file_refusal value ≡ none)
        × (is_one_of (casefold value) seen ≡ false)
        × (files_refusal casefold (casefold value ∷ seen) rest ≡ none)
  unfolding files_refusal
  here_lem seen value rest e = first_none _ _ _ _ e

  -- Files of a ChangePlan stay inside the repository and are distinct: if `validate_files` accepts, it
  -- returns the files as they are; each is not empty, has no backslash, is not absolute, has no
  -- part ".." and does not start with ".git/"; and of two files at different places of the list, the case
  -- foldings differ.
  pub validate_files_lem :
      (files checked : List String)
      → validate_files casefold files ≡ ok checked
      → (checked ≡ files)
        × ((front back : List String) (a : String) → files ≡ front ++ (a ∷ back) → StaysInside a)
        × ((front middle back : List String) (a b : String)
            → files ≡ front ++ (a ∷ (middle ++ (b ∷ back)))
            → casefold a ≢ casefold b)
  unfolding validate_files
  validate_files_lem files checked accepted =
      let (none_refused, same) =
        values_ok (files_refusal casefold [] files) files checked accepted in
      (
        same,
        λ front back a e.
            let (seen, fine, _) =
              after_front [] front (a ∷ back)
                (subst (λ l. files_refusal casefold [] l ≡ none) e none_refused) in
            inside_lem a (here_lem seen a back fine).0,
        λ front middle back a b e equal.
            let (seen, fine, _) =
              after_front [] front (a ∷ (middle ++ (b ∷ back)))
                (subst (λ l. files_refusal casefold [] l ≡ none) e none_refused) in
            let (_, _, rest) = here_lem seen a (middle ++ (b ∷ back)) fine in
            let (later, last, keeps) = after_front (casefold a ∷ seen) middle (b ∷ back) rest in
            let (_, unseen, _) = here_lem later b back last in
            let found =
              subst (λ x. is_one_of x later ≡ true) equal
                (keeps (casefold a) (is_one_of_head (casefold a) seen)) in
            ground (arith, unseen, found),
      )
