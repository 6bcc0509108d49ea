-- ===== src/PublicEvents/Timestamps.antt =====
-- The texts that the patterns of src/repo_agent/event_safety.py and of src/repo_agent/api.py
-- match: UTC timestamps and run ids.
use Prim.Native.Char.{code}
use Prim.Native.String.{String}
use agent_projects.Prelude.{
  ℕ, zero, suc, Bool, false, ◌&&◌, ◌||◌, leb, ◌==◌, if◌then◌else◌, str_eq, str_len, not, any_char,
}

abbrev is_digit : ℕ → Bool
is_digit c = leb 48 c && leb c 57

-- The rest of `(?:\.[0-9]{1,6})?Z` after a digit, where up to `n` more digits may come.
unfoldable ends_fraction : ℕ → String → Bool
ends_fraction zero s = str_eq s "Z"
ends_fraction (suc n) String.[] = false
ends_fraction (suc n) (String.◌∷◌ c s) =
    let more = ends_fraction n s in if is_digit (code c) then more else str_eq (String.◌∷◌ c s) "Z"

-- What follows the point.
unfoldable is_fraction : String → Bool
unfolding ends_fraction
is_fraction String.[] = false
is_fraction (String.◌∷◌ c s) = is_digit (code c) && ends_fraction 5 s

-- `(?:\.[0-9]{1,6})?Z`
unfoldable is_end : String → Bool
unfolding is_fraction
is_end String.[] = false
is_end (String.◌∷◌ c s) = str_eq (String.◌∷◌ c s) "Z" || code c == 46 && is_fraction s

-- A text of a shape, in which 0 stands for any digit, and then the end.
unfoldable has_shape : String → String → Bool
unfolding is_end
has_shape String.[] s = is_end s
has_shape (String.◌∷◌ d shape) String.[] = false
has_shape (String.◌∷◌ d shape) (String.◌∷◌ c s) =
    (if code d == 48 then is_digit (code c) else code c == code d) && has_shape shape s

-- `_UTC_TIMESTAMP_RE.fullmatch`
unfoldable pub is_utc_timestamp : String → Bool
unfolding has_shape
is_utc_timestamp = has_shape "0000-00-00T00:00:00"

-- `_RUN_ID_RE.fullmatch`
unfoldable pub is_run_id : String → Bool
is_run_id s = str_len s == 32 && not (any_char (λ c. not (is_digit c || leb 97 c && leb c 102)) s)
