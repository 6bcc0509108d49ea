-- ===== src/Policy.antt =====
-- The path policy of src/repo_agent/policy.py: which repository-relative paths tools may name.
-- Unicode case folding, Python's `str.casefold`, is a parameter.
pub mod Accepts
use agent_projects.Prelude.{
  ℕ, zero, suc, String, Bool, true, false, not, ◌&&◌, ◌||◌, Option, none, some, List, [], ◌∷◌,
  if◌then◌else◌, any, ltb, leb, ◌==◌, str_len, str_eq, decimal, fmt, any_char, starts_with,
  ends_with, has_infix, split, first_piece, last_piece, lstrip_char, is_one_of,
}
use agent_projects.Errors.{Result, ok, err, repository_path_error}
use Prim.Native.Char.{Char, code}

pub data PathAccess : Type 0 where
  read discover write : PathAccess

abbrev pub windows_reserved : List String
windows_reserved =
    "con" ∷ "prn" ∷ "aux" ∷ "nul" ∷ "clock$" ∷ "com1" ∷ "com2" ∷ "com3" ∷ "com4" ∷ "com5" ∷ "com6"
    ∷ "com7" ∷ "com8" ∷ "com9" ∷ "lpt1" ∷ "lpt2" ∷ "lpt3" ∷ "lpt4" ∷ "lpt5" ∷ "lpt6" ∷ "lpt7"
    ∷ "lpt8" ∷ "lpt9" ∷ []

abbrev pub secret_exact_names : List String
secret_exact_names =
    ".dockerconfigjson" ∷ ".git-credentials" ∷ ".netrc" ∷ ".npmrc" ∷ ".pypirc" ∷ "auth.json"
    ∷ "credential" ∷ "credentials" ∷ "credentials.json" ∷ "id_dsa" ∷ "id_ecdsa" ∷ "id_ed25519"
    ∷ "id_rsa" ∷ "secret" ∷ "secrets" ∷ "secrets.json" ∷ "secrets.yaml" ∷ "secrets.yml"
    ∷ "settings.xml" ∷ []

abbrev pub secret_directories : List String
secret_directories = ".aws" ∷ ".docker" ∷ ".kube" ∷ ".ssh" ∷ []

abbrev pub secret_suffixes : List String
secret_suffixes = ".key" ∷ ".pem" ∷ ".p12" ∷ ".pfx" ∷ ".tfstate" ∷ []

abbrev pub secret_stems : List String
secret_stems = "credential" ∷ "credentials" ∷ "secret" ∷ "secrets" ∷ []

abbrev pub secret_prefix_names : List String
secret_prefix_names =
    ".dockerconfigjson" ∷ ".git-credentials" ∷ ".netrc" ∷ ".npmrc" ∷ ".pypirc" ∷ "auth.json"
    ∷ "settings.xml" ∷ []

abbrev pub key_names : List String
key_names = "id_rsa" ∷ "id_dsa" ∷ "id_ecdsa" ∷ "id_ed25519" ∷ []

abbrev pub write_control_files : List String
write_control_files = ".gitattributes" ∷ ".gitmodules" ∷ []

abbrev pub max_path_length : ℕ
max_path_length = 512

-- The tests of `is_sensitive_name` on the folded name.
unfoldable pub is_sensitive_folded : String → Bool
is_sensitive_folded folded =
    (str_eq folded ".env"
      || starts_with folded ".env."
      || str_eq folded ".envrc"
      || starts_with folded ".envrc.")
    || is_one_of folded secret_exact_names
    || (any (ends_with folded) secret_suffixes
        || any (λ suffix. has_infix folded (fmt (suffix ∷ "." ∷ []))) secret_suffixes)
    || any (λ prefix. str_eq folded prefix || starts_with folded (fmt (prefix ∷ "." ∷ [])))
        secret_prefix_names
    || is_one_of (first_piece (split 46 (lstrip_char 46 folded))) secret_stems
    || is_one_of folded secret_directories
    || any (λ name. starts_with folded (fmt (name ∷ "." ∷ []))) key_names

-- `^[A-Za-z]:`
unfoldable pub is_windows_absolute : String → Bool
is_windows_absolute (String.◌∷◌ c (String.◌∷◌ d s)) =
    ((leb 65 (code c) && leb (code c) 90) || (leb 97 (code c) && leb (code c) 122)) && code d == 58
is_windows_absolute (String.◌∷◌ c String.[]) = false
is_windows_absolute String.[] = false

unfoldable pub is_control : ℕ → Bool
is_control c = ltb c 32 || c == 127

-- The characters < > " | * ? and :
unfoldable pub is_unsafe_on_windows : ℕ → Bool
is_unsafe_on_windows c = c == 60 || c == 62 || c == 34 || c == 124 || c == 42 || c == 63 || c == 58

abbrev pub is_dotted : String → Bool
is_dotted part = str_eq part "" || str_eq part "." || str_eq part ".."

-- The refusals of `validate` before it takes the path apart, in their order.
unfoldable pub text_refusal : String → Option String
unfolding is_control is_unsafe_on_windows is_windows_absolute
text_refusal value =
    if str_len value == 0
    then some "path must not be empty"
    else if ltb max_path_length (str_len value)
    then some (fmt ("path must be at most " ∷ decimal max_path_length ∷ " characters" ∷ []))
    else if any_char is_control value
    then some "path must not contain control characters"
    else if any_char (λ c. c == 92) value
    then some "path must use forward slashes"
    else if starts_with value "/" || is_windows_absolute value
    then some "path must be relative to the repository"
    else if any_char is_unsafe_on_windows value
    then some "path contains characters unsafe on Windows"
    else if any is_dotted (split 47 value)
    then some "path must be canonical and must not contain traversal"
    else none

-- The first refusal ends a validation.
unfoldable pub first_refusal : Option String → Option String → Option String
first_refusal none next = next
first_refusal (some why) next = some why

unfoldable pub accept_unless : Option String → String → Result String
accept_unless none value = ok value
accept_unless (some why) value = err (record { kind = repository_path_error; message = why })

module _ (casefold : String → String) where
  -- `is_sensitive_name`
  unfoldable pub is_sensitive_name : String → Bool
  is_sensitive_name name = is_sensitive_folded (casefold name)

  -- The body of the `for` of `validate`.
  unfoldable pub part_refusal : String → Option String
  part_refusal part =
      if ends_with part " " || ends_with part "."
      then some "path components must not end in a dot or space"
      else if str_eq (casefold part) ".git"
      then some "access to .git internals is not allowed"
      else if is_one_of (first_piece (split 46 (casefold part))) windows_reserved
      then some "path contains a reserved Windows name"
      else if is_sensitive_name part
      then some "access to suspected secret files is not allowed"
      else if is_one_of (casefold part) secret_directories
      then some "access to suspected credential directories is not allowed"
      else none

  unfoldable pub parts_refusal : List String → Option String
  parts_refusal [] = none
  parts_refusal (part ∷ parts) =
      let rest = parts_refusal parts in
      elim (part_refusal part) [ none ↦ rest | some why ↦ some why ]

  unfoldable pub name_refusal : PathAccess → String → Option String
  name_refusal read name = none
  name_refusal discover name = none
  name_refusal write name =
      if is_one_of (casefold name) write_control_files
      then some "changing Git checkout-control files is not allowed"
      else none

  -- `validate`, of a value that is `none` where it is no text. The pieces of a canonical relative
  -- path are the `parts` of its PurePosixPath, the last of them the `name`, and its `as_posix` is
  -- the path itself.
  unfoldable pub validate : Option String → PathAccess → Result String
  unfolding first_refusal accept_unless
  validate none access =
      err (record { kind = repository_path_error; message = "path must be a string" })
  validate (some value) access =
      accept_unless
        (first_refusal (text_refusal value) (
          first_refusal (parts_refusal (split 47 value))
            (name_refusal access (last_piece (split 47 value)))))
        value
