-- ===== src/Prelude/Text.antt =====
-- Texts: Python's `len`, `str.strip` and the formatting of numbers and f-strings.
use Prim.Native.Nat.{ℕ, zero, suc, ◌/◌, ◌%◌}
use Prim.Native.Char.{Char, code}
use Prim.Native.String.{String, ◌++◌ as str_append}
use mathlib.Core.Bool.{Bool, true, false, ◌&&◌, ◌||◌}
use mathlib.Core.List.{List, [], ◌∷◌}
use agent_projects.Prelude.Tests.{ltb, leb, ◌==◌, if◌then◌else◌}

abbrev pub str_len : String → ℕ
str_len String.[] = 0
str_len (String.◌∷◌ c s) = suc (str_len s)

-- The characters for which `str.isspace` holds.
unfoldable pub is_space : ℕ → Bool
is_space c =
    (leb 9 c && leb c 13)
    || (leb 28 c && leb c 32)
    || c == 133
    || c == 160
    || c == 5760
    || (leb 8192 c && leb c 8202)
    || c == 8232
    || c == 8233
    || c == 8239
    || c == 8287
    || c == 12288

lstrip : String → String
lstrip String.[] = String.[]
lstrip (String.◌∷◌ c s) = let rest = lstrip s in if is_space (code c) then rest else String.◌∷◌ c s

-- A trailing space goes when nothing but space follows it.
rstrip_cons : Bool → Char → String → String
rstrip_cons true c String.[] = String.[]
rstrip_cons true c (String.◌∷◌ d s) = String.◌∷◌ c (String.◌∷◌ d s)
rstrip_cons false c s = String.◌∷◌ c s

rstrip : String → String
unfolding rstrip_cons is_space
rstrip String.[] = String.[]
rstrip (String.◌∷◌ c s) = rstrip_cons (is_space (code c)) c (rstrip s)

unfoldable pub strip : String → String
unfolding lstrip rstrip is_space
strip s = rstrip (lstrip s)

digit : ℕ → String
digit d =
    if d == 0
    then "0"
    else if d == 1
    then "1"
    else if d == 2
    then "2"
    else if d == 3
    then "3"
    else if d == 4
    then "4"
    else if d == 5
    then "5"
    else if d == 6
    then "6"
    else if d == 7
    then "7"
    else if d == 8
    then "8"
    else "9"

-- One round for each digit; `n` rounds are more than enough for `n`.
decimal_from : ℕ → ℕ → String → String
decimal_from zero n out = out
decimal_from (suc fuel) n out =
    let more = decimal_from fuel (n / 10) (str_append (digit (n % 10)) out) in
    if ltb n 10 then str_append (digit n) out else more

-- `str(n)`
unfoldable pub decimal : ℕ → String
unfolding decimal_from digit
decimal n = decimal_from (suc n) n ""

-- The pieces of an f-string, joined.
unfoldable pub fmt : List String → String
fmt [] = ""
fmt (s ∷ rest) = str_append s (fmt rest)
