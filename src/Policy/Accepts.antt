-- ===== src/Policy/Accepts.antt =====
-- What a path that src/repo_agent/policy.py accepts is.
use Prim.Native.Char.{code}
use agent_projects.Prelude.{
  ℕ, ◌==◌, ◌≤◌, String, ◌≡◌, ◌≢◌, refl, sym, subst, Bool, true, false, Option, none, some, List, [],
  ◌∷◌, ◌++◌, any, arith, inl, inr, str_len, str_eq, eq_iff, any_char, starts_with, split,
  onto_first, last_piece, is_one_of, Bool-cases, Option-cases,
}
use agent_projects.Errors.{ok}
use agent_projects.Policy.{
  PathAccess, read, discover, write, is_dotted, is_control, is_unsafe_on_windows,
  is_windows_absolute, text_refusal, is_sensitive_name, part_refusal, parts_refusal, name_refusal,
  first_refusal, accept_unless, validate,
}

-- The refusals that an accepted path does not meet.
pub record IsAccepted (casefold : String → String) (access : PathAccess) (value : String)
    : Type 0 where
  pub text : text_refusal value ≡ none
  pub parts : parts_refusal casefold (split 47 value) ≡ none
  pub name : name_refusal casefold access (last_piece (split 47 value)) ≡ none

no_refusal :
    (t p n : Option String) (value path : String)
    → accept_unless (first_refusal t (first_refusal p n)) value ≡ ok path
    → (path ≡ value) × (t ≡ none) × (p ≡ none) × (n ≡ none)
unfolding first_refusal accept_unless
no_refusal none none none value path valid = (ground arith, refl, refl, refl)
no_refusal none none (some w) value path valid = ground arith
no_refusal none (some w) n value path valid = ground arith
no_refusal (some w) p n value path valid = ground arith

not_dotted :
    (part : String) (parts : List String)
    → is_one_of part parts ≡ true
    → any is_dotted parts ≡ false
    → is_dotted part ≡ false
unfolding is_one_of
not_dotted part [] found canonical = ground arith
not_dotted part (p ∷ parts) found canonical = elim (Bool-cases (str_eq part p)) [
  | inl same ↦
      let e = (eq_iff part p).0 same in subst (λ x. is_dotted x ≡ false) (sym e) (ground arith)
  | inr other ↦ not_dotted part parts (ground arith) (ground arith)
]

canonical_parts :
    (value : String) → text_refusal value ≡ none → any is_dotted (split 47 value) ≡ false
unfolding text_refusal
canonical_parts value fine = ground arith

-- The path of an entry of a directory.
abbrev pub below : String → String → String
below String.[] entry = String.◌∷◌ "/" entry
below (String.◌∷◌ c directory) entry = String.◌∷◌ c (below directory entry)

split_pieces :
    (value : String) → (first : String) × (rest : List String) × (split 47 value ≡ first ∷ rest)
unfolding split onto_first
split_pieces String.[] = (_, _, refl)
split_pieces (String.◌∷◌ c value) =
    let (first, rest, e) = split_pieces value in
    elim (Bool-cases (code c == 47)) [
      | inl slash ↦ (String.[], first ∷ rest, rw (slash, e) refl)
      | inr other ↦ (String.◌∷◌ c first, rest, rw (other, e) refl)
    ]

split-below :
    (directory entry : String)
    → split 47 (below directory entry) ≡ split 47 directory ++ split 47 entry
unfolding split onto_first
split-below String.[] entry = refl
split-below (String.◌∷◌ c directory) entry =
    let (first, rest, e) = split_pieces directory in
    elim (Bool-cases (code c == 47)) [
      | inl slash ↦ rw (slash, split-below directory entry) refl
      | inr other ↦ rw (other, split-below directory entry, e) refl
    ]

any_char-below :
    (p : ℕ → Bool) (directory entry : String)
    → any_char p (below directory entry) ≡ false
    → any_char p directory ≡ false
unfolding any_char
any_char-below p String.[] entry absent = refl
any_char-below p (String.◌∷◌ c directory) entry absent =
    ground (arith, any_char-below p directory entry)

any-append_left :
    (p : String → Bool) (xs ys : List String) → any p (xs ++ ys) ≡ false → any p xs ≡ false
any-append_left p [] ys absent = refl
any-append_left p (x ∷ xs) ys absent = ground (arith, any-append_left p xs ys)

str_len-below : (directory entry : String) → str_len directory ≤ str_len (below directory entry)
str_len-below String.[] entry = omega arith
str_len-below (String.◌∷◌ c directory) entry = omega (arith, str_len-below directory entry)

starts_with-below :
    (directory entry : String)
    → starts_with (below directory entry) "/" ≡ false
    → (starts_with directory "/" ≡ false) × (str_len directory ≢ 0)
unfolding starts_with
starts_with-below String.[] entry relative = ground arith
starts_with-below (String.◌∷◌ c directory) entry relative = (relative, omega arith)

windows-below :
    (directory entry : String)
    → is_windows_absolute (below directory entry) ≡ false
    → is_windows_absolute directory ≡ false
unfolding is_windows_absolute
windows-below String.[] entry relative = refl
windows-below (String.◌∷◌ c String.[]) entry relative = refl
windows-below (String.◌∷◌ c (String.◌∷◌ d directory)) entry relative = relative

text-below :
    (directory entry : String)
    → text_refusal (below directory entry) ≡ none
    → text_refusal directory ≡ none
unfolding text_refusal
text-below directory entry fine =
    let len = str_len-below directory entry in
    let pieces = any-append_left is_dotted (split 47 directory) (split 47 entry) in
    let whole = split-below directory entry in
    ground (
      arith,
      len,
      starts_with-below directory entry,
      windows-below directory entry,
      any_char-below is_control directory entry,
      any_char-below is_unsafe_on_windows directory entry,
      any_char-below (λ c. c == 92) directory entry,
      pieces,
      whole,
    )

module _ (casefold : String → String) where
  pub accepted_lem :
      (value path : String) (access : PathAccess)
      → validate casefold (some value) access ≡ ok path
      → (path ≡ value) × IsAccepted casefold access value
  unfolding validate
  accepted_lem value path access valid =
      let (same, t, p, n) = no_refusal _ _ _ value path valid in
      (same, record { text = t; parts = p; name = n })

  part_of :
      (part : String) (parts : List String)
      → is_one_of part parts ≡ true
      → parts_refusal casefold parts ≡ none
      → part_refusal casefold part ≡ none
  unfolding parts_refusal is_one_of
  part_of part [] found fine = ground arith
  part_of part (p ∷ parts) found fine = elim (Bool-cases (str_eq part p)) [
    | inl same ↦
        let e = (eq_iff part p).0 same in
        subst (λ x. part_refusal casefold x ≡ none) (sym e) (ground arith)
    | inr other ↦ part_of part parts (ground arith) (ground arith)
  ]

  -- Accepted paths are safe: `validate` returns the text it was given, and no piece of it between
  -- slashes is empty, `.` or `..`, folds to `.git`, or is the name of a suspected secret.
  pub validate_lem :
      (value path : String) (access : PathAccess) (part : String)
      → validate casefold (some value) access ≡ ok path
      → is_one_of part (split 47 path) ≡ true
      → (path ≡ value)
        × (part ≢ "")
        × (part ≢ ".")
        × (part ≢ "..")
        × (casefold part ≢ ".git")
        × (is_sensitive_name casefold part ≡ false)
  unfolding part_refusal
  validate_lem value path access part valid found =
      let (same, accepted) = accepted_lem value path access valid in
      let found' : is_one_of part (split 47 value) ≡ true =
        subst (λ x. is_one_of part (split 47 x) ≡ true) same found in
      let plain = not_dotted part (split 47 value) found' (canonical_parts value accepted.text) in
      let fine = part_of part (split 47 value) found' accepted.parts in
      (
        same,
        λ e. ground (arith, plain, eq_iff part ""),
        λ e. ground (arith, plain, eq_iff part "."),
        λ e. ground (arith, plain, eq_iff part ".."),
        λ e. ground (arith, fine, eq_iff (casefold part) ".git"),
        ground (arith, fine),
      )

  -- Writing is the strictest access: a path that is accepted for writing is accepted for
  -- reading and for discovery, and gives the same path.
  pub write_reads :
      (value : Option String) (path : String)
      → validate casefold value write ≡ ok path
      → (validate casefold value read ≡ ok path) × (validate casefold value discover ≡ ok path)
  unfolding validate name_refusal first_refusal accept_unless
  write_reads none path valid = ground arith
  write_reads (some value) path valid =
      let (same, t, p, n) =
        no_refusal (text_refusal value) (parts_refusal casefold (split 47 value))
          (name_refusal casefold write (last_piece (split 47 value))) value path valid in
      rw (t, p, same) (refl, refl)

  parts-append_left :
      (xs ys : List String)
      → parts_refusal casefold (xs ++ ys) ≡ none
      → parts_refusal casefold xs ≡ none
  unfolding parts_refusal
  parts-append_left [] ys fine = refl
  parts-append_left (x ∷ xs) ys fine = elim (Option-cases (part_refusal casefold x)) [
    | inl good ↦
        let rest : parts_refusal casefold (xs ++ ys) ≡ none = rw (good, parts_refusal) at fine in
        rw (good, parts_refusal) (parts-append_left xs ys rest)
    | inr (w, bad) ↦ ground arith
  ]

  -- Directories of accepted paths are accepted: if `validate` accepts directory/entry for any
  -- access, it accepts the directory for reading and for discovery.
  pub validate-below :
      (directory entry path : String) (access : PathAccess)
      → validate casefold (some (below directory entry)) access ≡ ok path
      → (validate casefold (some directory) read ≡ ok directory)
        × (validate casefold (some directory) discover ≡ ok directory)
  unfolding validate name_refusal first_refusal accept_unless
  validate-below directory entry path access valid =
      let (_, accepted) = accepted_lem (below directory entry) path access valid in
      let whole : parts_refusal casefold (split 47 directory ++ split 47 entry) ≡ none =
        subst (λ x. parts_refusal casefold x ≡ none) (split-below directory entry) accepted.parts in
      rw
        (
          text-below directory entry accepted.text,
          parts-append_left (split 47 directory) (split 47 entry) whole,
        )
        (refl, refl)
