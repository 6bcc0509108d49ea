-- ===== src/Requests.antt =====
-- The middlewares of src/repo_agent/api.py that a request passes before the routes: its bearer token
-- and the bound on its body. Bytes are lists of numbers.
pub mod Receiving
pub mod Bodies
pub mod Tokens
use Prim.Native.Char.{code}
use agent_projects.Prelude.{
  ℕ, ◌+◌, ◌-◌, ◌*◌, String, Bool, true, false, not, ◌&&◌, ◌||◌, Option, none, some, List, [], ◌∷◌,
  ◌++◌, map, ltb, leb, ◌==◌, if◌then◌else◌, length, any, all, decimal, ◌⊎◌, inl, inr,
}

abbrev pub Bytes : Type 0
Bytes = List ℕ

-- `s.encode("ascii")`
unfoldable pub encode : String → Bytes
encode String.[] = []
encode (String.◌∷◌ c s) = code c ∷ encode s

unfoldable pub bytes_eq : Bytes → Bytes → Bool
bytes_eq [] [] = true
bytes_eq (a ∷ as') (b ∷ bs) = a == b && bytes_eq as' bs
bytes_eq [] (b ∷ bs) = false
bytes_eq (a ∷ as') [] = false

-- `a > b`
unfoldable pub bytes_gt : Bytes → Bytes → Bool
bytes_gt [] bs = false
bytes_gt (a ∷ as') [] = true
bytes_gt (a ∷ as') (b ∷ bs) = ltb b a || (a == b && bytes_gt as' bs)

-- `bytes.lower`
unfoldable pub lower : Bytes → Bytes
lower = map λ c. if leb 65 c && leb c 90 then c + 32 else c

-- The values of one header.
unfoldable pub header_values : Bytes → List (Bytes × Bytes) → List Bytes
unfolding bytes_eq lower
header_values name [] = []
header_values name ((key, value) ∷ headers) =
    let rest = header_values name headers in
    if bytes_eq (lower key) name then value ∷ rest else rest

-- `value.partition(b" ")`
unfoldable pub partition : Bytes → Bytes × Bool × Bytes
partition [] = ([], false, [])
partition (c ∷ value) =
    let (head, found, tail) = partition value in
    if c == 32 then ([], true, value) else (c ∷ head, found, tail)

abbrev pub is_blank : ℕ → Bool
is_blank c = c == 32 || c == 9 || c == 13 || c == 10

abbrev pub is_empty : {A : Type 0} → List A → Bool
is_empty [] = true
is_empty (x ∷ xs) = false

-- `_BearerAuthMiddleware._authorized`
unfoldable pub authorized : Bytes → Bytes → Bool
unfolding partition bytes_eq lower encode
authorized token value =
    let (scheme, separator, presented) = partition value in
    if not separator || not (bytes_eq (lower scheme) (encode "bearer")) || is_empty presented
    then false
    else if any is_blank presented
    then false
    else bytes_eq presented token

-- Whether `_BearerAuthMiddleware` calls the application: `open_path` is whether the request is no
-- HTTP request, or its path one of `_HEALTH_PATHS`.
unfoldable pub is_admitted : Bytes → Bool → List (Bytes × Bytes) → Bool
unfolding authorized header_values encode
is_admitted token open_path headers =
    open_path || admits (header_values (encode "authorization") headers)
  where
    admits : List Bytes → Bool
    admits (value ∷ []) = authorized token value
    admits _ = false

-- What `receive` gives: a message of the server, whose `body` may be no bytes.
pub data Message : Type 0 where
  disconnect unknown : Message
  request : (body : Option Bytes) (more_body : Bool) → Message

-- The next message, or the deadline.
pub data Arrival : Type 0 where
  late : Arrival
  arrived : Message → Arrival

-- What `_RequestBodyLimitMiddleware` does with a request: the application gets the messages that
-- were kept and then what is still to be received, or a response is sent, or nothing.
pub data Handled : Type 0 where
  forwarded : List Message → List Arrival → Handled
  refused : (status : ℕ) (code : String) → Handled
  dropped : Handled

abbrev pub max_request_bytes : ℕ
max_request_bytes = 65536

-- The status and the code of a response that is sent.
abbrev pub Refusal : Type 0
Refusal = ℕ × String

abbrev pub invalid_request : Refusal
invalid_request = (400, "invalid_request")

abbrev pub request_too_large : Refusal
request_too_large = (413, "request_too_large")

abbrev pub request_timeout : Refusal
request_timeout = (408, "request_timeout")

abbrev pub reject : Refusal → Handled
reject refusal = refused refusal.0 refusal.1

-- What follows the loop.
abbrev pub finish_body : Option ℕ → List Message → ℕ → List Arrival → Handled
finish_body none kept total rest = forwarded kept rest
finish_body (some declared) kept total rest =
    if not (total == declared) then reject invalid_request else forwarded kept rest

-- The loop: `total` bytes have come, in the messages `kept`.
unfoldable pub receive_body : ℕ → Option ℕ → ℕ → List Message → List Arrival → Handled
receive_body max declared total kept [] = reject request_timeout
receive_body max declared total kept (late ∷ rest) = reject request_timeout
receive_body max declared total kept (arrived disconnect ∷ rest) = dropped
receive_body max declared total kept (arrived unknown ∷ rest) = reject invalid_request
receive_body max declared total kept (arrived (request none more) ∷ rest) = reject invalid_request
receive_body max declared total kept (arrived (request (some body) more) ∷ rest) =
    let grown = total + length body in
    let messages = kept ++ request (some body) more ∷ [] in
    let later = receive_body max declared grown messages rest in
    if ltb max grown
    then reject request_too_large
    else if more
    then later
    else finish_body declared messages grown rest

abbrev is_digit : ℕ → Bool
is_digit c = leb 48 c && leb c 57

-- `lstrip(b"0") or b"0"`
unfoldable pub lstrip_zeros : Bytes → Bytes
lstrip_zeros [] = []
lstrip_zeros (c ∷ value) = let rest = lstrip_zeros value in if c == 48 then rest else c ∷ value

abbrev pub or_zero : Bytes → Bytes
or_zero [] = 48 ∷ []
or_zero (c ∷ value) = c ∷ value

-- `int(value)` of digits, after those of `n`.
unfoldable pub int_after : ℕ → Bytes → ℕ
int_after n [] = n
int_after n (c ∷ value) = int_after (n * 10 + (c - 48)) value

abbrev is_longer : Bytes → Bytes → Bool
is_longer significant maximum =
    ltb (length maximum) (length significant)
    || (length significant == length maximum && bytes_gt significant maximum)

-- The declared length, or the response to a request that declares a wrong one.
unfoldable pub declared_length : ℕ → List Bytes → Refusal ⊎ Option ℕ
unfolding lstrip_zeros int_after encode bytes_gt
declared_length max [] = inr none
declared_length max (raw ∷ []) =
    let significant = or_zero (lstrip_zeros raw) in
    if is_empty raw || ltb 128 (length raw) || not (all is_digit raw)
    then inl invalid_request
    else if is_longer significant (encode (decimal max))
    then inl request_too_large
    else inr (some (int_after 0 significant))
declared_length max (raw ∷ other ∷ values) = inl invalid_request

unfoldable pub go_on : ℕ → List Arrival → Refusal ⊎ Option ℕ → Handled
unfolding receive_body
go_on max arrivals (inl refusal) = reject refusal
go_on max arrivals (inr declared) = receive_body max declared 0 [] arrivals

-- `_RequestBodyLimitMiddleware.__call__` of an HTTP request.
unfoldable pub limit_body : ℕ → List (Bytes × Bytes) → List Arrival → Handled
unfolding go_on declared_length header_values encode
limit_body max headers arrivals =
    go_on max arrivals (declared_length max (header_values (encode "content-length") headers))
