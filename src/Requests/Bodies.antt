-- ===== src/Requests/Bodies.antt =====
-- What src/repo_agent/api.py lets through of a request's body.
use agent_projects.Prelude.{
  ℕ, ◌+◌, ◌-◌, ◌*◌, ◌≤◌, ◌≡◌, refl, sym, ap, ◌∙◌, subst, true, not, ◌||◌, Option, some, List, [],
  ◌∷◌, ◌++◌, map, ltb, ◌==◌, length, arith, ◌⊎◌, inl, inr, Bool-cases, all, decimal,
}
use agent_projects.Requests.{
  Bytes, encode, header_values, Message, Arrival, arrived, Refusal, reject, forwarded, lstrip_zeros,
  or_zero, int_after, declared_length, go_on, limit_body, is_empty, is_longer, is_digit,
  invalid_request, request_too_large,
}
use agent_projects.Requests.Receiving.{
  is_whole, body_size, Declares, Agrees, receive_lem, receive_whole,
}

-- Leading zeros are worth nothing.
int-lstrip_zeros : (raw : Bytes) → int_after 0 (or_zero (lstrip_zeros raw)) ≡ int_after 0 raw
unfolding int_after lstrip_zeros
int-lstrip_zeros [] = refl
int-lstrip_zeros (c ∷ raw) = elim (Bool-cases (c == 48)) [
  | inl zero_digit ↦
      let at : c ≡ 48 = ground (arith, zero_digit) in
      let nothing : 0 ≡ 0 * 10 + (c - 48) = omega (arith, at) in
      rw zero_digit (int-lstrip_zeros raw ∙ ap (λ n. int_after n raw) nothing)
  | inr other ↦ rw other refl
]

inr_inj :
    (n : ℕ) (o : Option ℕ) (a b : Refusal ⊎ Option ℕ)
    → a ≡ inr (some n)
    → b ≡ inr o
    → a ≡ b
    → some n ≡ o
inr_inj n o a b at bt e = cc

one_declared :
    (max : ℕ) (raw : Bytes) (declared : Option ℕ)
    → declared_length max (raw ∷ []) ≡ inr declared
    → some (int_after 0 (or_zero (lstrip_zeros raw))) ≡ declared
unfolding declared_length
one_declared max raw declared e =
    elim (Bool-cases (is_empty raw || ltb 128 (length raw) || not (all is_digit raw))) [
      | inl bad ↦ let no : inl invalid_request ≡ inr declared = rw bad at e in absurd (cc)
      | inr good ↦
          elim (Bool-cases (is_longer (or_zero (lstrip_zeros raw)) (encode (decimal max)))) [
            | inl long ↦
                let no : inl request_too_large ≡ inr declared = rw long at (rw good at e) in
                absurd (cc)
            | inr fits ↦ inr_inj _ declared _ _ refl refl (rw fits at (rw good at e))
          ]
    ]

declared_lem :
    (max : ℕ) (values : List Bytes) (declared : Option ℕ) (size : ℕ)
    → declared_length max values ≡ inr declared
    → Agrees declared size
    → Declares values size
unfolding declared_length
declared_lem max [] declared size e agrees = tt
declared_lem max (raw ∷ []) declared size e agrees =
    let same = one_declared max raw declared e in
    sym (int-lstrip_zeros raw) ∙ subst (λ o. Agrees o size) (sym same) agrees
declared_lem max (raw ∷ other ∷ values) declared size e agrees =
    let no : inl invalid_request ≡ inr declared = e in absurd (cc)

handled_lem :
    (max : ℕ) (values : List Bytes) (arrivals : List Arrival) (messages : List Message)
    (rest : List Arrival) (checked : Refusal ⊎ Option ℕ)
    → declared_length max values ≡ checked
    → go_on max arrivals checked ≡ forwarded messages rest
    → (map arrived messages ++ rest ≡ arrivals)
      × (is_whole messages ≡ true)
      × (body_size messages ≤ max)
      × Declares values (body_size messages)
unfolding go_on
handled_lem max values arrivals messages rest (inl refusal) e passed =
    let no : reject refusal ≡ forwarded messages rest = passed in absurd (cc)
handled_lem max values arrivals messages rest (inr declared) e passed =
    let (tail, same, came, whole, fits, agrees) =
      receive_lem max declared 0 [] arrivals messages rest passed in
    let sum : 0 + body_size tail ≡ body_size tail = omega arith in
    subst
      (λ ms.
        (map arrived ms ++ rest ≡ arrivals)
        × (is_whole ms ≡ true)
        × (body_size ms ≤ max)
        × Declares values (body_size ms))
      (sym same)
      (
        came,
        whole,
        omega (arith, fits),
        declared_lem max values declared (body_size tail) e (subst (Agrees declared) sum agrees),
      )

-- The application gets no more than the bound: where a request is forwarded, the messages that the
-- application is given are those that came first, in their order and unchanged, and what is left
-- follows them; they are a whole body, each carries bytes, and just the last says that there is no
-- more; together they have `max` bytes at most, and if there is a Content-Length header, then
-- there is only one and the body has just as many bytes as that says in decimal.
pub limit_body_lem :
    (max : ℕ) (headers : List (Bytes × Bytes)) (arrivals : List Arrival) (messages : List Message)
    (rest : List Arrival)
    → limit_body max headers arrivals ≡ forwarded messages rest
    → (map arrived messages ++ rest ≡ arrivals)
      × (is_whole messages ≡ true)
      × (body_size messages ≤ max)
      × Declares (header_values (encode "content-length") headers) (body_size messages)
unfolding limit_body
limit_body_lem max headers arrivals messages rest passed =
    handled_lem max (header_values (encode "content-length") headers) arrivals messages rest
      (declared_length max (header_values (encode "content-length") headers)) refl passed

-- A body within the bound passes: a request that has no Content-Length header, and whose messages
-- are a whole body of `max` bytes at most that comes in time, is forwarded with these messages.
pub limit_body_passes :
    (max : ℕ) (headers : List (Bytes × Bytes)) (messages : List Message) (rest : List Arrival)
    → header_values (encode "content-length") headers ≡ []
    → is_whole messages ≡ true
    → body_size messages ≤ max
    → limit_body max headers (map arrived messages ++ rest) ≡ forwarded messages rest
unfolding limit_body go_on declared_length
limit_body_passes max headers messages rest undeclared whole fits =
    rw undeclared (receive_whole max 0 [] messages rest whole (omega (arith, fits)))
