-- ===== src/Hoare.antt =====
-- What an action that may raise does to what holds of its state: `P` before it, `Q` with its value
-- where it returns, and `E` where it raises.
use agent_projects.Prelude.{String, ◌≡◌, refl, Bool, true, false, if◌then◌else◌}
use agent_projects.Errors.{
  ErrorKind, Exc, Result, Exec, ok, err, pure, gets, raise, throw, proceed, handle, ◌>>=◌,
  try_except,
}

module _ {S A : Type 0} where
  -- What an outcome meets.
  abbrev pub Ends : (A → S → Type 0) → (S → Type 0) → Result A → S → Type 0
  Ends Q E (ok a) s = Q a s
  Ends Q E (err e) s = E s

  pub record Hoare (P : S → Type 0) (m : Exec S A) (Q : A → S → Type 0) (E : S → Type 0)
      : Type 0 where
    pub at : (s : S) → P s → Ends Q E (m s).0 (m s).1

module _ {S A : Type 0} {P : S → Type 0} {Q : A → S → Type 0} {E : S → Type 0} where
  pub Hoare-pure : (a : A) → ((s : S) → P s → Q a s) → Hoare P (pure a) Q E
  unfolding pure
  Hoare-pure a h = record { at = λ s p. h s p }

  pub Hoare-raise : (k : ErrorKind) (m : String) → ((s : S) → P s → E s) → Hoare P (raise k m) Q E
  unfolding raise
  Hoare-raise k m h = record { at = λ s p. h s p }

  pub Hoare-throw : (e : Exc) → ((s : S) → P s → E s) → Hoare P (throw e) Q E
  unfolding throw
  Hoare-throw e h = record { at = λ s p. h s p }

  pub Hoare-gets : (f : S → A) → ((s : S) → P s → Q (f s) s) → Hoare P (gets f) Q E
  unfolding gets
  Hoare-gets f h = record { at = λ s p. h s p }

  pub Hoare-if :
      (test : Bool) (then_do else_do : Exec S A)
      → (test ≡ true → Hoare P then_do Q E)
      → (test ≡ false → Hoare P else_do Q E)
      → Hoare P (if test then then_do else else_do) Q E
  Hoare-if true then_do else_do left right = left refl
  Hoare-if false then_do else_do left right = right refl

  -- A stronger precondition.
  pub Hoare-before :
      {P' : S → Type 0} (m : Exec S A) → ((s : S) → P' s → P s) → Hoare P m Q E → Hoare P' m Q E
  Hoare-before m h t = record { at = λ s p. t.at s (h s p) }

module _ {S A : Type 0} {P : S → Type 0} {Q R : A → S → Type 0} {E F : S → Type 0} where
  -- Weaker postconditions.
  pub Hoare-after :
      (m : Exec S A)
      → ((a : A) (s : S) → Q a s → R a s)
      → ((s : S) → E s → F s)
      → Hoare P m Q E
      → Hoare P m R F
  Hoare-after m h g t = record { at = λ s p. go (m s).0 (m s).1 (t.at s p) }
    where
      go : (r : Result A) (s : S) → Ends Q E r s → Ends R F r s
      go (ok a) s q = h a s q
      go (err e) s q = g s q

module _ {S A B : Type 0} {P : S → Type 0} {Q : A → S → Type 0} {R : B → S → Type 0}
    {E : S → Type 0} where
  pub Hoare-bind :
      (m : Exec S A) (f : A → Exec S B)
      → Hoare P m Q E
      → ((a : A) → Hoare (Q a) (f a) R E)
      → Hoare P (m >>= f) R E
  unfolding ◌>>=◌
  Hoare-bind m f t u = record { at = λ s p. go (m s).0 (m s).1 (t.at s p) }
    where
      go : (r : Result A) (s : S) → Ends Q E r s → Ends R E (proceed r f s).0 (proceed r f s).1
      go (ok a) s h = (u a).at s h
      go (err e) s h = h

module _ {S A : Type 0} {P : S → Type 0} {Q : A → S → Type 0} {E F : S → Type 0} where
  pub Hoare-try :
      (m : Exec S A) (k : Exc → Exec S A)
      → Hoare P m Q F
      → ((e : Exc) → Hoare F (k e) Q E)
      → Hoare P (try_except m k) Q E
  unfolding try_except
  Hoare-try m k t u = record { at = λ s p. go (m s).0 (m s).1 (t.at s p) }
    where
      go : (r : Result A) (s : S) → Ends Q F r s → Ends Q E (handle r k s).0 (handle r k s).1
      go (ok a) s h = h
      go (err e) s h = (u e).at s h

module _ {S A : Type 0} {P P' : S → Type 0} {Q Q' : A → S → Type 0} {E E' : S → Type 0} where
  pub Hoare-both :
      (m : Exec S A)
      → Hoare P m Q E
      → Hoare P' m Q' E'
      → Hoare (λ s. P s × P' s) m (λ a s. Q a s × Q' a s) (λ s. E s × E' s)
  Hoare-both m t u = record { at = λ s p. go (m s).0 (m s).1 (t.at s p.0) (u.at s p.1) }
    where
      go :
          (r : Result A) (s : S)
          → Ends Q E r s
          → Ends Q' E' r s
          → Ends (λ a s. Q a s × Q' a s) (λ s. E s × E' s) r s
      go (ok a) s q q' = (q, q')
      go (err e) s q q' = (q, q')

-- What holds before an action holds after it, whether it returns or raises.
abbrev pub Keeps : {S A : Type 0} → (S → Type 0) → Exec S A → Type 0
Keeps P m = Hoare P m (λ _. P) P

module _ {S A : Type 0} {P : S → Type 0} where
  pub Keeps-pure : (a : A) → Keeps P (pure a)
  Keeps-pure a = Hoare-pure a λ s p. p

  pub Keeps-raise : (k : ErrorKind) (m : String) → Keeps {A = A} P (raise k m)
  Keeps-raise k m = Hoare-raise k m λ s p. p

  pub Keeps-throw : (e : Exc) → Keeps {A = A} P (throw e)
  Keeps-throw e = Hoare-throw e λ s p. p

  pub Keeps-gets : (f : S → A) → Keeps P (gets f)
  Keeps-gets f = Hoare-gets f λ s p. p

  pub Keeps-if :
      (test : Bool) (then_do else_do : Exec S A)
      → (test ≡ true → Keeps P then_do)
      → (test ≡ false → Keeps P else_do)
      → Keeps P (if test then then_do else else_do)
  Keeps-if test then_do else_do left right = Hoare-if test then_do else_do left right

  pub Keeps-try :
      (m : Exec S A) (k : Exc → Exec S A)
      → Keeps P m
      → ((e : Exc) → Keeps P (k e))
      → Keeps P (try_except m k)
  Keeps-try m k km kk = Hoare-try m k km kk

module _ {S A B : Type 0} {P : S → Type 0} where
  pub Keeps-bind :
      (first : Exec S A) (rest : A → Exec S B)
      → Keeps P first
      → ((a : A) → Keeps P (rest a))
      → Keeps P (first >>= rest)
  Keeps-bind first rest before after = Hoare-bind first rest before after

pub ruleset keeps_rules =
    (Keeps-pure, Keeps-raise, Keeps-throw, Keeps-gets, Keeps-if, Keeps-try, Keeps-bind)
