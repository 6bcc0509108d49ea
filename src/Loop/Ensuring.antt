-- ===== src/Loop/Ensuring.antt =====
-- What holds after the actions of src/repo_agent/loop.py unless they raise, and the usage that its
-- checks have seen.
use Prim.{Unit, tt}
use agent_projects.Prelude.{
  if◌then◌else◌, ℕ, zero, suc, ◌≤◌, String, ◌≡◌, refl, Bool, true, false, Option, none, some, arith,
}
use agent_projects.Errors.{ErrorKind, Result, Exec, ok, err, proceed, ◌>>=◌, pure, raise}
use agent_projects.Loop.{TokenUsage, max_response_token_budget, usage_fields, check_usage}

-- A usage that is complete and within the budget.
pub record IsWithin (u : TokenUsage) : Type 0 where
  pub total : ℕ
  pub known : u.total_tokens ≡ some (some total)
  pub all_known : u.complete ≡ some true
  pub bounded : total ≤ max_response_token_budget

module _ {S : Type 0} where
  pub check_within :
      (count : ℕ) (complete : Bool) (total : Option ℕ) (s s' : S) (n : ℕ)
      → check_usage count complete total s ≡ (ok n, s')
      → (complete ≡ true) × (total ≡ some n) × (n ≤ max_response_token_budget) × (s' ≡ s)
  unfolding check_usage pure raise
  check_within (suc count) true (some total) s s' n checked = ground (arith)
  check_within zero complete total s s' n checked = ground (arith)
  check_within (suc count) false total s s' n checked = ground (arith)
  check_within (suc count) true none s s' n checked = ground (arith)

  pub fields_lem :
      (usage : Option TokenUsage) (s s1 : S) (count : ℕ) (complete : Bool) (total : Option ℕ)
      → usage_fields usage s ≡ (ok (count, complete, total), s1)
      → (u : TokenUsage) × (usage ≡ some u)
        × (u.response_count ≡ some count)
        × (u.complete ≡ some complete)
        × (u.total_tokens ≡ some total)
        × (s1 ≡ s)
  unfolding usage_fields pure raise
  fields_lem none s s1 count complete total fields = ground arith
  fields_lem (some u) s s1 count complete total fields =
      (u, refl, ground arith, ground arith, ground arith, ground arith)

unfoldable pub After : {S A : Type 0} → (A → S → Type 0) → Result A → S → Type 0
After Q (ok a) s = Q a s
After Q (err e) s = Unit

-- What holds after an action, unless it raises.
pub record Ensures {S A : Type 0} (m : Exec S A) (Q : A → S → Type 0) : Type 0 where
  pub at : (s : S) → After Q (m s).0 (m s).1

module _ {S A : Type 0} where
  pub Ensures-any : (m : Exec S A) → Ensures m (λ _ _. Unit)
  unfolding After
  Ensures-any m = record {
    at = λ s. elim (m s).0 as (λ r. After (λ _ _. Unit) r (m s).1) [ ok a ↦ tt | err e ↦ tt ];
  }

  pub Ensures-pure : {Q : A → S → Type 0} (a : A) → ((s : S) → Q a s) → Ensures (pure a) Q
  unfolding After pure
  Ensures-pure a h = record { at = h }

  pub Ensures-raise : {Q : A → S → Type 0} (k : ErrorKind) (m : String) → Ensures (raise k m) Q
  unfolding After raise
  Ensures-raise k m = record { at = λ s. tt }

  pub Ensures-if :
      {Q : A → S → Type 0} (b : Bool) (m n : Exec S A)
      → Ensures m Q
      → Ensures n Q
      → Ensures (if b then m else n) Q
  Ensures-if true m n km kn = km
  Ensures-if false m n km kn = kn

  After-of :
      (Q : A → S → Type 0) (r : Result A) (s : S) → ((a : A) → r ≡ ok a → Q a s) → After Q r s
  unfolding After
  After-of Q (ok a) s h = h a refl
  After-of Q (err e) s h = tt

  pub Ensures-of :
      {Q : A → S → Type 0} (m : Exec S A)
      → ((s : S) (a : A) → (m s).0 ≡ ok a → Q a (m s).1)
      → Ensures m Q
  Ensures-of m h = record { at = λ s. After-of _ (m s).0 (m s).1 (h s) }

pub bind_inversion :
    {S A B : Type 0} (r : Result A) (f : A → Exec S B) (s : S) (b : B)
    → (proceed r f s).0 ≡ ok b
    → (a : A) × (r ≡ ok a) × ((f a s).0 ≡ ok b) × ((proceed r f s).1 ≡ (f a s).1)
unfolding proceed
bind_inversion (ok a) f s b done = (a, refl, done, refl)
bind_inversion (err e) f s b done = ground arith

module _ {S A B : Type 0} (P : A → S → Type 0) (Q : B → S → Type 0) where
  bind_at :
      (f : A → Exec S B) (r : Result A) (s : S)
      → After P r s
      → ((a : A) (s : S) → P a s → After Q (f a s).0 (f a s).1)
      → After Q (proceed r f s).0 (proceed r f s).1
  unfolding After proceed
  bind_at f (ok a) s p h = h a s p
  bind_at f (err e) s p h = tt

module _ {S A B : Type 0} {P : A → S → Type 0} {Q : B → S → Type 0} where
  pub Ensures-bind :
      (m : Exec S A) (f : A → Exec S B)
      → Ensures m P
      → ((a : A) (s : S) → P a s → After Q (f a s).0 (f a s).1)
      → Ensures (m >>= f) Q
  unfolding ◌>>=◌
  Ensures-bind m f km kf = record { at = λ s. bind_at P Q f (m s).0 (m s).1 (km.at s) kf }
