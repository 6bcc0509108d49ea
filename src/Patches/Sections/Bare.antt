-- ===== src/Patches/Sections/Bare.antt =====
-- Printing hunks with bare headers, and reading them back by `_parse_model_hunks` of
-- src/repo_agent/patches.py.
use Prim.Native.Char.{code}
use mathlib.Core.List.{append-nil, append_assoc}
use agent_projects.Prelude.{
  ℕ, suc, ◌+◌, ◌≤◌, ◌<◌, String, ◌≡◌, ◌≢◌, refl, sym, ap, ◌∙◌, Bool, true, false, ◌&&◌, Option,
  none, some, List, [], ◌∷◌, ◌++◌, map, if◌then◌else◌, ◌==◌, ltb, any, length, arith, inl, inr,
  Bool-cases, str_eq, eq_iff, starts_with, strip, is_space,
}
use agent_projects.Errors.{ok}
use agent_projects.Patches.{Marker, context, removed, added, ModelHunk}
use agent_projects.Patches.Headers.{header_with_suffix, after_prefix}
use agent_projects.Patches.Sections.{
  Parsing, marked, keep, is_old, hunk_of, flush, header_line, body_line, model_line, model_lines,
  checked_hunks, parse_model_hunks, no_newline,
}

abbrev pub print_line : Marker × String → String
print_line (context, text) = String.◌∷◌ " " text
print_line (added, text) = String.◌∷◌ "+" text
print_line (removed, text) = String.◌∷◌ "-" text

-- A header without numbers before the lines of each hunk.
abbrev pub print_hunks : List (List (Marker × String)) → List String
print_hunks [] = []
print_hunks (body ∷ bodies) = "@@" ∷ (map print_line body ++ print_hunks bodies)

-- The hunks of these lines, each starting where the one before it ends.
abbrev pub consecutive : ℕ → List (List (Marker × String)) → List ModelHunk
consecutive start [] = []
consecutive start (body ∷ bodies) =
    hunk_of start body ∷ consecutive (start + length (keep is_old body)) bodies

abbrev inside : List ModelHunk → ℕ → List (Marker × String) → ℕ → Parsing
inside hunks start body cursor = record {
  hunks = hunks;
  current_start = start;
  current_body = some body;
  cursor = cursor;
}

abbrev first_code : String → ℕ
first_code String.[] = 0
first_code (String.◌∷◌ c text) = code c

printed_code : (item : Marker × String) → first_code (print_line item) ≢ 92
printed_code (context, text) = λ e. omega (arith, e)
printed_code (added, text) = λ e. omega (arith, e)
printed_code (removed, text) = λ e. omega (arith, e)

differs : (item : Marker × String) → str_eq (print_line item) no_newline ≡ false
differs item = elim (Bool-cases (str_eq (print_line item) no_newline)) [
  | inl same ↦
      absurd (printed_code item (ap first_code ((eq_iff (print_line item) no_newline).0 same)))
  | inr other ↦ other
]

at_end :
    (start cursor n : ℕ)
    → cursor ≤ start
    → (if ltb cursor (start + n) then start + n else cursor) ≡ start + n
at_end start cursor n low = ground arith

module _ (digit_value : ℕ → Option ℕ) where
  line_lem :
      (hunks : List ModelHunk) (start cursor : ℕ) (body : List (Marker × String))
      (item : Marker × String)
      → model_line digit_value true (inside hunks start body cursor) (print_line item)
        ≡ ok (inside hunks start (body ++ (item ∷ [])) cursor)
  unfolding model_line starts_with body_line marked
  line_lem hunks start cursor body (context, text) = rw (differs (context, text)) refl
  line_lem hunks start cursor body (added, text) = rw (differs (added, text)) refl
  line_lem hunks start cursor body (removed, text) = rw (differs (removed, text)) refl

  step_lem :
      (s s' : Parsing) (line : String)
      → model_line digit_value true s line ≡ ok s'
      → (rest : List String)
      → model_lines digit_value true s (line ∷ rest) ≡ model_lines digit_value true s' rest
  unfolding model_lines
  step_lem s s' line read rest = rw (read, model_lines) refl

  body_lem :
      (hunks : List ModelHunk) (start cursor : ℕ) (body items : List (Marker × String))
      (rest : List String)
      → model_lines digit_value true (inside hunks start body cursor) (map print_line items ++ rest)
        ≡ model_lines digit_value true (inside hunks start (body ++ items) cursor) rest
  unfolding model_lines
  body_lem hunks start cursor body [] rest =
      ap (λ b. model_lines digit_value true (inside hunks start b cursor) rest)
        (sym (append-nil body))
  body_lem hunks start cursor body (item ∷ items) rest =
      step_lem (inside hunks start body cursor) (inside hunks start (body ++ (item ∷ [])) cursor)
        (print_line item) (line_lem hunks start cursor body item) (map print_line items ++ rest)
      ∙ body_lem hunks start cursor (body ++ (item ∷ [])) items rest
      ∙ ap (λ b. model_lines digit_value true (inside hunks start b cursor) rest)
          (append_assoc body (item ∷ []) items)

  header_lem :
      (hunks : List ModelHunk) (start cursor : ℕ) (body : List (Marker × String))
      → cursor ≤ start
      → model_line digit_value true (inside hunks start body cursor) "@@"
        ≡ ok (
            inside
              (hunks ++ (hunk_of start body ∷ []))
              (start + length (keep is_old body))
              []
              (start + length (keep is_old body)))
  unfolding model_line starts_with header_line header_with_suffix after_prefix flush strip is_space
  header_lem hunks start cursor body low =
      rw (at_end start cursor (length (keep is_old body)) low) refl

  hunks_lem :
      (bodies : List (List (Marker × String))) (hunks : List ModelHunk) (start cursor : ℕ)
      (body : List (Marker × String))
      → cursor ≤ start
      → (s : Parsing) × (model_lines digit_value true
            (inside hunks start body cursor)
            (print_hunks bodies)
          ≡ ok s)
        × (s.hunks
            ≡ hunks
              ++ (hunk_of start body ∷ consecutive (start + length (keep is_old body)) bodies))
  unfolding model_lines flush
  hunks_lem [] hunks start cursor body low = (_, refl, refl)
  hunks_lem (items ∷ bodies) hunks start cursor body low =
      let next = start + length (keep is_old body) in
      let (s, read, same) =
        hunks_lem bodies (hunks ++ (hunk_of start body ∷ [])) next next items (omega arith) in
      (
        s,
        step_lem (inside hunks start body cursor)
              (inside (hunks ++ (hunk_of start body ∷ [])) next [] next) "@@"
              (header_lem hunks start cursor body low) (map print_line items ++ print_hunks bodies)
            ∙ body_lem (hunks ++ (hunk_of start body ∷ [])) next next [] items (print_hunks bodies)
            ∙ read,
        same ∙ append_assoc hunks (hunk_of start body ∷ []) (consecutive next (items ∷ bodies)),
      )

  first_header :
      model_line digit_value true
        (record { hunks = []; current_start = 1; current_body = none; cursor = 1 })
        "@@"
      ≡ ok (inside [] 1 [] 1)
  unfolding model_line starts_with header_line header_with_suffix after_prefix flush strip is_space
  first_header = refl

-- Every body has a line.
abbrev pub are_filled : List (List (Marker × String)) → Bool
are_filled [] = true
are_filled ([] ∷ bodies) = false
are_filled ((item ∷ items) ∷ bodies) = are_filled bodies

consecutive_filled :
    (bodies : List (List (Marker × String))) (start : ℕ)
    → are_filled bodies ≡ true
    → any (λ h. length h.old_lines == 0 && length h.new_lines == 0) (consecutive start bodies)
      ≡ false
unfolding hunk_of
consecutive_filled [] start filled = refl
consecutive_filled ([] ∷ bodies) start filled = ground arith
consecutive_filled (((context, text) ∷ items) ∷ bodies) start filled =
    ground (arith, consecutive_filled bodies (start + suc (length (keep is_old items))) filled)
consecutive_filled (((added, text) ∷ items) ∷ bodies) start filled =
    ground (arith, consecutive_filled bodies (start + length (keep is_old items)) filled)
consecutive_filled (((removed, text) ∷ items) ∷ bodies) start filled =
    ground (arith, consecutive_filled bodies (start + suc (length (keep is_old items))) filled)

checked_lem :
    (s : Parsing) (hunks : List ModelHunk)
    → s.hunks ≡ hunks
    → 0 < length hunks
    → any (λ h. length h.old_lines == 0 && length h.new_lines == 0) hunks ≡ false
    → checked_hunks (ok s) ≡ ok hunks
unfolding checked_hunks
checked_lem s hunks same some_hunk filled =
    let nonzero : (length hunks == 0) ≡ false = ground arith in rw (same, nonzero, filled) refl

-- Printed hunks are read back: for any hunks, at least one and each with at least one line,
-- `_parse_model_hunks` with bare headers allowed reads their lines, printed below headers `@@`
-- without numbers, as hunks with these old and new lines, each starting where the old lines of
-- the one before it end, and the first at line 1.
pub parse-print_hunks :
    (digit_value : ℕ → Option ℕ) (body : List (Marker × String))
    (bodies : List (List (Marker × String)))
    → are_filled (body ∷ bodies) ≡ true
    → parse_model_hunks digit_value true (print_hunks (body ∷ bodies))
      ≡ ok (consecutive 1 (body ∷ bodies))
unfolding parse_model_hunks
parse-print_hunks digit_value body bodies filled =
    let begin : Parsing = record {
      hunks = [];
      current_start = 1;
      current_body = none;
      cursor = 1;
    } in
    let (s, read, same) = hunks_lem digit_value bodies [] 1 1 body (omega arith) in
    let whole : model_lines digit_value true begin (print_hunks (body ∷ bodies)) ≡ ok s =
      step_lem digit_value begin (inside [] 1 [] 1) "@@" (first_header digit_value)
        (map print_line body ++ print_hunks bodies)
      ∙ body_lem digit_value [] 1 1 [] body (print_hunks bodies)
      ∙ read in
    ap checked_hunks whole
    ∙ checked_lem s (consecutive 1 (body ∷ bodies)) same (omega arith)
        (consecutive_filled (body ∷ bodies) 1 filled)
