-- ===== src/Requests/Receiving.antt =====
-- What the loop that receives a body in src/repo_agent/api.py lets through.
use agent_projects.Prelude.{
  ℕ, ◌+◌, ◌≤◌, ◌≡◌, refl, sym, ap, ◌∙◌, subst, Bool, true, false, Option, none, some, List, [], ◌∷◌,
  ◌++◌, map, ltb, ltb→ge, ◌==◌, if◌then◌else◌, length, arith, inl, inr, Bool-cases, all,
}
use mathlib.Core.List.{append_assoc}
use agent_projects.Requests.{
  Bytes, Message, disconnect, unknown, request, Arrival, late, arrived, reject, forwarded,
  finish_body, receive_body, int_after, is_empty, invalid_request, request_too_large,
}

-- A whole body: messages that carry bytes, of which just the last says that there is no more.
abbrev pub is_whole : List Message → Bool
is_whole (request (some body) more ∷ rest) = if more then is_whole rest else is_empty rest
is_whole _ = false

abbrev pub body_size : List Message → ℕ
body_size [] = 0
body_size (request (some body) more ∷ rest) = length body + body_size rest
body_size (_ ∷ rest) = body_size rest

-- The length agrees with the headers: at most one declares it, as the number that it is in decimal.
abbrev pub Declares : List Bytes → ℕ → Type 0
Declares [] size = Unit {0}
Declares (raw ∷ []) size = int_after 0 raw ≡ size
Declares (raw ∷ other ∷ values) size = ⊥

abbrev pub Agrees : Option ℕ → ℕ → Type 0
Agrees none size = Unit {0}
Agrees (some declared) size = declared ≡ size

-- What the loop lets through, after the messages `kept` of `total` bytes.
abbrev Received :
    ℕ → Option ℕ → ℕ → List Message → List Arrival → List Message → List Arrival → Type 0
Received max declared total kept arrivals messages rest =
    (tail : List Message) × (messages ≡ kept ++ tail)
    × (map arrived tail ++ rest ≡ arrivals)
    × (is_whole tail ≡ true)
    × (total + body_size tail ≤ max)
    × Agrees declared (total + body_size tail)

forwarded_inj :
    (ms ms' : List Message) (rest rest' : List Arrival)
    → forwarded ms rest ≡ forwarded ms' rest'
    → (ms ≡ ms') × (rest ≡ rest')
forwarded_inj ms ms' rest rest' e = (cc, cc)

finished :
    (declared : Option ℕ) (kept messages : List Message) (total : ℕ) (arrivals rest : List Arrival)
    → finish_body declared kept total arrivals ≡ forwarded messages rest
    → (messages ≡ kept) × (rest ≡ arrivals) × Agrees declared total
finished none kept messages total arrivals rest e =
    let (same, left) = forwarded_inj _ _ _ _ e in (sym same, sym left, tt)
finished (some declared) kept messages total arrivals rest e =
    elim (Bool-cases (total == declared)) [
      | inl agrees ↦
          let (same, left) = forwarded_inj kept messages arrivals rest (rw agrees at e) in
          (sym same, sym left, ground (arith, agrees))
      | inr differs ↦
          let no : reject invalid_request ≡ forwarded messages rest = rw differs at e in absurd (cc)
    ]

-- A message that is not the last.
grown :
    (max : ℕ) (declared : Option ℕ) (total : ℕ) (kept : List Message) (body : Bytes)
    (arrivals : List Arrival) (messages : List Message) (rest : List Arrival)
    → Received max declared
        (total + length body)
        (kept ++ request (some body) true ∷ [])
        arrivals
        messages
        rest
    → Received max declared total kept (arrived (request (some body) true) ∷ arrivals) messages rest
grown max declared total kept body arrivals messages rest (tail, all, came, whole, fits, agrees) =
    let sum : total + length body + body_size tail ≡ total + (length body + body_size tail) =
      omega arith in
    (
      request (some body) true ∷ tail,
      all ∙ append_assoc kept (request (some body) true ∷ []) tail,
      ap (λ as'. arrived (request (some body) true) ∷ as') came,
      whole,
      omega (arith, fits),
      subst (Agrees declared) sum agrees,
    )

-- The last message.
ended :
    (max : ℕ) (declared : Option ℕ) (total : ℕ) (kept : List Message) (body : Bytes)
    (arrivals : List Arrival) (messages : List Message) (rest : List Arrival)
    → total + length body ≤ max
    → finish_body declared (kept ++ request (some body) false ∷ []) (total + length body) arrivals
      ≡ forwarded messages rest
    → Received max declared total kept
        (arrived (request (some body) false) ∷ arrivals)
        messages
        rest
ended max declared total kept body arrivals messages rest fits e =
    let (same, left, agrees) = finished declared _ messages _ arrivals rest e in
    let sum : total + length body ≡ total + (length body + 0) = omega arith in
    (
      request (some body) false ∷ [],
      same,
      ap (λ as'. arrived (request (some body) false) ∷ as') left,
      refl,
      omega (arith, fits),
      subst (Agrees declared) sum agrees,
    )

pub receive_lem :
    (max : ℕ) (declared : Option ℕ) (total : ℕ) (kept : List Message) (arrivals : List Arrival)
    (messages : List Message) (rest : List Arrival)
    → receive_body max declared total kept arrivals ≡ forwarded messages rest
    → Received max declared total kept arrivals messages rest
unfolding receive_body
receive_lem max declared total kept [] messages rest e = absurd (cc)
receive_lem max declared total kept (late ∷ arrivals) messages rest e = absurd (cc)
receive_lem max declared total kept (arrived disconnect ∷ arrivals) messages rest e = absurd (cc)
receive_lem max declared total kept (arrived unknown ∷ arrivals) messages rest e = absurd (cc)
receive_lem max declared total kept (arrived (request none more) ∷ arrivals) messages rest e =
    absurd (cc)
receive_lem max declared total kept (arrived (request (some body) true) ∷ arrivals) messages rest
      e =
    elim (Bool-cases (ltb max (total + length body))) [
      | inl over ↦
          let no : reject request_too_large ≡ forwarded messages rest = rw over at e in absurd (cc)
      | inr fits ↦ grown max declared total kept body arrivals messages rest (
          receive_lem max declared (total + length body) (kept ++ request (some body) true ∷ [])
            arrivals messages rest (rw fits at e))
    ]
receive_lem max declared total kept (arrived (request (some body) false) ∷ arrivals) messages rest
      e =
    elim (Bool-cases (ltb max (total + length body))) [
      | inl over ↦
          let no : reject request_too_large ≡ forwarded messages rest = rw over at e in absurd (cc)
      | inr fits ↦
          ended max declared total kept body arrivals messages rest
            (ltb→ge max (total + length body) fits) (rw fits at e)
    ]

pub receive_whole :
    (max total : ℕ) (kept messages : List Message) (rest : List Arrival)
    → is_whole messages ≡ true
    → total + body_size messages ≤ max
    → receive_body max none total kept (map arrived messages ++ rest)
      ≡ forwarded (kept ++ messages) rest
unfolding receive_body
receive_whole max total kept [] rest whole fits = ground (arith, whole)
receive_whole max total kept (disconnect ∷ ms) rest whole fits = ground (arith, whole)
receive_whole max total kept (unknown ∷ ms) rest whole fits = ground (arith, whole)
receive_whole max total kept (request none more ∷ ms) rest whole fits = ground (arith, whole)
receive_whole max total kept (request (some body) true ∷ ms) rest whole fits =
    let small : ltb max (total + length body) ≡ false = ground (arith, fits) in
    let later =
      receive_whole max (total + length body) (kept ++ request (some body) true ∷ []) ms rest whole
        (omega (arith, fits)) in
    rw small (
      later ∙ ap (λ all. forwarded all rest) (append_assoc kept (request (some body) true ∷ []) ms))
receive_whole max total kept (request (some body) false ∷ []) rest whole fits =
    let small : ltb max (total + length body) ≡ false = ground (arith, fits) in rw small refl
receive_whole max total kept (request (some body) false ∷ m ∷ ms) rest whole fits =
    ground (arith, whole)
