-- ===== src/Requests/Tokens.antt =====
-- Which tokens src/repo_agent/api.py admits.
use agent_projects.Prelude.{
  ℕ, ◌+◌, ◌≡◌, ◌↔◌, refl, sym, ap, ◌∙◌, Bool, true, false, not, ◌&&◌, ◌||◌, [], ◌∷◌, ◌++◌, leb,
  ◌==◌, if◌then◌else◌, any, arith, Bool-cases, inl, inr,
}
use agent_projects.Requests.{
  Bytes, encode, bytes_eq, lower, partition, authorized, is_empty, is_blank,
}

bytes_eq_eq : (a b : Bytes) → bytes_eq a b ≡ true → a ≡ b
unfolding bytes_eq
bytes_eq_eq [] [] e = refl
bytes_eq_eq (x ∷ xs) (y ∷ ys) e =
    let head : x ≡ y = ground (arith, e) in let tail = bytes_eq_eq xs ys (ground (arith, e)) in cc
bytes_eq_eq [] (y ∷ ys) e = ground (arith, e)
bytes_eq_eq (x ∷ xs) [] e = ground (arith, e)

bytes_eq_self : (a : Bytes) → bytes_eq a a ≡ true
unfolding bytes_eq
bytes_eq_self [] = refl
bytes_eq_self (x ∷ xs) = ground (arith, bytes_eq_self xs)

-- The parts put together again.
partition_lem :
    (value : Bytes)
    → (partition value).1 ≡ true
    → value ≡ (partition value).0 ++ 32 ∷ (partition value).2
unfolding partition
partition_lem [] found = ground (arith, found)
partition_lem (c ∷ value) found = elim (Bool-cases (c == 32)) [
  | inl space ↦ let at : c ≡ 32 = ground (arith, space) in rw space (ap (λ x. x ∷ value) at)
  | inr other ↦ rw other (ap (λ v. c ∷ v) (partition_lem value (rw other at found)))
]

partition-append :
    (scheme presented : Bytes)
    → any (λ c. c == 32) scheme ≡ false
    → partition (scheme ++ 32 ∷ presented) ≡ (scheme, true, presented)
unfolding partition
partition-append [] presented none_there = refl
partition-append (c ∷ scheme) presented none_there =
    let other : c == 32 ≡ false = ground (arith, none_there) in
    rw (partition-append scheme presented (ground (arith, none_there))) (rw other refl)

lower_space : (c : ℕ) → ((if leb 65 c && leb c 90 then c + 32 else c) == 32) ≡ (c == 32)
lower_space c = ground arith

any_space-lower : (bytes : Bytes) → any (λ c. c == 32) (lower bytes) ≡ any (λ c. c == 32) bytes
unfolding lower
any_space-lower [] = refl
any_space-lower (c ∷ bytes) = rw (lower_space c) (rw (any_space-lower bytes) refl)

bearer_unspaced : any (λ c. c == 32) (encode "bearer") ≡ false
unfolding encode
bearer_unspaced = refl

-- What a presented token must be.
abbrev pub Presents : Bytes → Bytes → Type 0
Presents token value =
    (scheme : Bytes) × (value ≡ scheme ++ 32 ∷ token)
    × (lower scheme ≡ encode "bearer")
    × (is_empty token ≡ false)
    × (any is_blank token ≡ false)

-- The tests of `authorized` one by one.
tests_pass :
    (separated bearer empty blank same : Bool)
    → (if not separated || not bearer || empty then false else if blank then false else same) ≡ true
    → (separated ≡ true) × (bearer ≡ true) × (empty ≡ false) × (blank ≡ false) × (same ≡ true)
tests_pass separated bearer empty blank same e =
    (ground (arith, e), ground (arith, e), ground (arith, e), ground (arith, e), ground (arith, e))

authorized-Presents : (token value : Bytes) → authorized token value ≡ true → Presents token value
unfolding authorized
authorized-Presents token value e =
    let (separated, bearer, there, plain, same) = tests_pass _ _ _ _ _ e in
    let is_token = bytes_eq_eq (partition value).2 token same in
    (
      (partition value).0,
      partition_lem value separated ∙ ap (λ t. (partition value).0 ++ 32 ∷ t) is_token,
      bytes_eq_eq (lower (partition value).0) (encode "bearer") bearer,
      sym (ap is_empty is_token) ∙ there,
      sym (ap (any is_blank) is_token) ∙ plain,
    )

Presents-authorized : (token value : Bytes) → Presents token value → authorized token value ≡ true
unfolding authorized
Presents-authorized token value (scheme, parts, bearer, some_there, plain) =
    let unspaced : any (λ c. c == 32) scheme ≡ false =
      sym (any_space-lower scheme) ∙ ap (any (λ c. c == 32)) bearer ∙ bearer_unspaced in
    rw parts (
      rw (partition-append scheme token unspaced) (
        rw bearer
          (rw (bytes_eq_self (encode "bearer")) (rw some_there (rw plain (bytes_eq_self token))))))

-- Just the token is admitted: `_authorized` accepts a header value if and only if it is some scheme
-- that reads "bearer" without regard to case, one space, and the whole token, and the token is not
-- empty and has no space, tab, carriage return or newline.
pub authorized_lem : (token value : Bytes) → (authorized token value ≡ true) ↔ Presents token value
authorized_lem token value = (authorized-Presents token value, Presents-authorized token value)
