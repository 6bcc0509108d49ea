-- ===== src/Engine/Triple.antt =====
-- Hoare triples of the engine's actions: what a store satisfies before an action, after it
-- returns, and after it raises.
use agent_projects.Prelude.{String, ◌≡◌, refl, Bool, true, false, if◌then◌else◌}
use agent_projects.Errors.{
  ErrorKind, Exc, Result, Exec, ok, err, pure, gets, raise, proceed, handle, ◌>>=◌, try_exception,
  try_except, throw, is_exception,
}
use agent_projects.Checkpoints.{Store}
use agent_projects.Engine.World.{Host, World, Engine, now, now_if, on_store}

abbrev pub Assertion : Type 1
Assertion = Store → Type 0

-- The outcome of an action meets `Q` with its value, or `E` where it raises.
abbrev pub Meets : {A : Type 0} → (A → Assertion) → Assertion → Result A → Store → Type 0
Meets Q E (ok a) s = Q a s
Meets Q E (err e) s = E s

pub record Triple {A : Type 0} (P : Assertion) (m : Engine A) (Q : A → Assertion) (E : Assertion)
    : Type 0 where
  pub at : (w : World) → P w.store → Meets Q E (m w).0 (m w).1.store

-- The same of an action on the store alone.
pub record StoreTriple {A : Type 0} (P : Assertion) (m : Exec Store A) (Q : A → Assertion)
    (E : Assertion) : Type 0 where
  pub at : (s : Store) → P s → Meets Q E (m s).0 (m s).1

module _ {A : Type 0} {P : Assertion} {Q : A → Assertion} {E : Assertion} where
  pub Triple-pure : (a : A) → ((s : Store) → P s → Q a s) → Triple P (pure a) Q E
  unfolding pure
  Triple-pure a h = record { at = λ w p. h w.store p }

  pub Triple-raise :
      (k : ErrorKind) (m : String) → ((s : Store) → P s → E s) → Triple P (raise k m) Q E
  unfolding raise
  Triple-raise k m h = record { at = λ w p. h w.store p }

  pub Triple-gets : (f : World → A) → ((s : Store) (a : A) → P s → Q a s) → Triple P (gets f) Q E
  unfolding gets
  Triple-gets f h = record { at = λ w p. h w.store (f w) p }

  pub Triple-if :
      (b : Bool) (m n : Engine A)
      → (b ≡ true → Triple P m Q E)
      → (b ≡ false → Triple P n Q E)
      → Triple P (if b then m else n) Q E
  Triple-if true m n km kn = km refl
  Triple-if false m n km kn = kn refl

  pub Triple-on_store : (m : Exec Store A) → StoreTriple P m Q E → Triple P (on_store m) Q E
  unfolding on_store
  Triple-on_store m t = record { at = λ w p. t.at w.store p }

  -- A stronger precondition.
  pub Triple-weaken :
      {P' : Assertion} (m : Engine A)
      → ((s : Store) → P' s → P s)
      → Triple P m Q E
      → Triple P' m Q E
  Triple-weaken m h t = record { at = λ w p. t.at w (h w.store p) }

module _ {A : Type 0} {P : Assertion} {Q R : A → Assertion} {E : Assertion} where
  -- A weaker postcondition.
  pub Triple-weaken_post :
      (m : Engine A) → ((a : A) (s : Store) → Q a s → R a s) → Triple P m Q E → Triple P m R E
  Triple-weaken_post m h t = record { at = λ w p. go (m w).0 (m w).1.store (t.at w p) }
    where
      go : (r : Result A) (s : Store) → Meets Q E r s → Meets R E r s
      go (ok a) s q = h a s q
      go (err e) s q = q

module _ {A B : Type 0} {P : Assertion} {Q : A → Assertion} {R : B → Assertion}
    {E : Assertion} where
  pub Triple-bind :
      (m : Engine A) (f : A → Engine B)
      → Triple P m Q E
      → ((a : A) → Triple (Q a) (f a) R E)
      → Triple P (m >>= f) R E
  unfolding ◌>>=◌
  Triple-bind m f t u = record { at = λ w p. go (m w).0 (m w).1 (t.at w p) }
    where
      go :
          (r : Result A) (w : World)
          → Meets Q E r w.store
          → Meets R E (proceed r f w).0 (proceed r f w).1.store
      go (ok a) w h = (u a).at w h
      go (err e) w h = h

module _ {A : Type 0} {Q : A → Assertion} {E : Assertion} where
  Triple-throw : (e : Exc) → Triple E (throw e) Q E
  unfolding throw
  Triple-throw e = record { at = λ w p. p }

module _ {A : Type 0} {P : Assertion} {Q : A → Assertion} {E : Assertion} where
  pub Triple-try :
      (m : Engine A) (k : Exc → Engine A)
      → Triple P m Q E
      → ((e : Exc) → Triple E (k e) Q E)
      → Triple P (try_exception m k) Q E
  unfolding try_exception try_except
  Triple-try m k t u = record { at = λ w p. go (m w).0 (m w).1 (t.at w p) }
    where
      caught : Exc → Engine A
      caught e = if is_exception e.kind then k e else throw e

      go :
          (r : Result A) (w : World)
          → Meets Q E r w.store
          → Meets Q E (handle r caught w).0 (handle r caught w).1.store
      go (ok a) w h = h
      go (err e) w h = (Triple-if (is_exception e.kind) _ _ (λ _. u e) λ _. Triple-throw e).at w h

-- Reading the clock changes no store.
module _ {P : Assertion} {E : Assertion} (h : Host) where
  pub Triple-now : Triple P (now h) (λ _. P) E
  unfolding now
  Triple-now = record { at = λ w p. p }

  pub Triple-now_if : (b : Bool) → Triple P (now_if h b) (λ _. P) E
  unfolding now_if pure ◌>>=◌
  Triple-now_if true = record { at = λ w p. p }
  Triple-now_if false = record { at = λ w p. p }
