-- ===== src/Prelude/Chars.antt =====
-- Python's tests and cuts of texts: `startswith`, `endswith`, `in`, `split` and `lstrip`.
use Prim.Native.Nat.{ℕ}
use Prim.Native.Char.{Char, code}
use Prim.Native.String.{String}
use mathlib.Core.Bool.{Bool, true, false, ◌&&◌, ◌||◌}
use mathlib.Core.List.{List, [], ◌∷◌}
use agent_projects.Prelude.Tests.{◌==◌, if◌then◌else◌}
use text.Mathlib.Text.{◌==◌ as str_eq}

-- `any(p(ord(c)) for c in s)`
unfoldable pub any_char : (ℕ → Bool) → String → Bool
any_char p String.[] = false
any_char p (String.◌∷◌ c s) = p (code c) || any_char p s

-- `s.startswith(prefix)`
unfoldable pub starts_with : String → String → Bool
starts_with s String.[] = true
starts_with String.[] (String.◌∷◌ d prefix) = false
starts_with (String.◌∷◌ c s) (String.◌∷◌ d prefix) = code c == code d && starts_with s prefix

-- `s.endswith(suffix)`
unfoldable pub ends_with : String → String → Bool
ends_with String.[] suffix = str_eq String.[] suffix
ends_with (String.◌∷◌ c s) suffix = str_eq (String.◌∷◌ c s) suffix || ends_with s suffix

-- `infix in s`
unfoldable pub has_infix : String → String → Bool
unfolding starts_with
has_infix String.[] part = starts_with String.[] part
has_infix (String.◌∷◌ c s) part = starts_with (String.◌∷◌ c s) part || has_infix s part

-- A character before the first of some pieces.
unfoldable pub onto_first : Char → List String → List String
onto_first c [] = String.◌∷◌ c String.[] ∷ []
onto_first c (piece ∷ pieces) = String.◌∷◌ c piece ∷ pieces

-- `s.split(chr(separator))`
unfoldable pub split : ℕ → String → List String
unfolding onto_first
split separator String.[] = String.[] ∷ []
split separator (String.◌∷◌ c s) =
    let pieces = split separator s in
    if code c == separator then String.[] ∷ pieces else onto_first c pieces

unfoldable pub first_piece : List String → String
first_piece [] = String.[]
first_piece (piece ∷ pieces) = piece

unfoldable pub last_piece : List String → String
last_piece [] = String.[]
last_piece (piece ∷ []) = piece
last_piece (piece ∷ next ∷ pieces) = last_piece (next ∷ pieces)

-- `s.lstrip(chr(c))`
unfoldable pub lstrip_char : ℕ → String → String
lstrip_char d String.[] = String.[]
lstrip_char d (String.◌∷◌ c s) =
    let rest = lstrip_char d s in if code c == d then rest else String.◌∷◌ c s

unfoldable pub is_one_of : String → List String → Bool
is_one_of s [] = false
is_one_of s (t ∷ rest) = str_eq s t || is_one_of s rest
