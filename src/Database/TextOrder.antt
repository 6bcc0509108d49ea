-- ===== src/Database/TextOrder.antt =====
-- The order of texts by which src/repo_agent/persistence.py lists the runs.
use Prim.Native.Nat.compare as compare_ℕ
use Prim.Native.Nat.{ℕ, zero, suc, Ordering, compare as compare_ℕ}
use Prim.Native.Char.{code}
use Prim.Native.String.compare
use Prim.Native.String.{String, [], ◌∷◌, compare, then}
use agent_projects.Prelude.{◌≡◌, refl, sym, ap, ◌∙◌, Bool, true, false, arith}
use agent_projects.Database.{text_le}

turned : Ordering → Ordering
turned Ordering.lt = Ordering.gt
turned Ordering.eq = Ordering.eq
turned Ordering.gt = Ordering.lt

turned-then : (o r : Ordering) → turned (then o r) ≡ then (turned o) (turned r)
unfolding turned
turned-then Ordering.lt r = refl
turned-then Ordering.eq r = refl
turned-then Ordering.gt r = refl

numbers_turned : (m n : ℕ) → turned (compare_ℕ m n) ≡ compare_ℕ n m
unfolding turned
numbers_turned zero zero = ap turned compare_ℕ.zero-zero ∙ sym compare_ℕ.zero-zero
numbers_turned zero (suc n) = ap turned (compare_ℕ.zero-suc n) ∙ sym (compare_ℕ.suc-zero n)
numbers_turned (suc m) zero = ap turned (compare_ℕ.suc-zero m) ∙ sym (compare_ℕ.zero-suc m)
numbers_turned (suc m) (suc n) =
    ap turned (compare_ℕ.suc-suc m n) ∙ numbers_turned m n ∙ sym (compare_ℕ.suc-suc n m)

texts_turned : (s t : String) → turned (compare s t) ≡ compare t s
unfolding turned
texts_turned [] [] = ap turned compare.nil-nil ∙ sym compare.nil-nil
texts_turned [] (d ∷ t) = ap turned (compare.nil-cons d t) ∙ sym (compare.cons-nil d t)
texts_turned (c ∷ s) [] = ap turned (compare.cons-nil c s) ∙ sym (compare.nil-cons c s)
texts_turned (c ∷ s) (d ∷ t) =
    ap turned (compare.cons-cons c d s t)
    ∙ turned-then (compare_ℕ (code c) (code d)) (compare s t)
    ∙ ap (λ o. then o (turned (compare s t))) (numbers_turned (code c) (code d))
    ∙ ap (then (compare_ℕ (code d) (code c))) (texts_turned s t)
    ∙ sym (compare.cons-cons d c t s)

-- Of two texts, one is at most the other.
pub text_le_total : (s t : String) → text_le s t ≡ false → text_le t s ≡ true
unfolding text_le turned
text_le_total s t above = go (compare s t) (compare t s) (texts_turned s t) above
  where
    go :
        (o p : Ordering)
        → turned o ≡ p
        → (elim o as (λ _. Bool) [ Ordering.gt ↦ false | _ ↦ true ]) ≡ false
        → (elim p as (λ _. Bool) [ Ordering.gt ↦ false | _ ↦ true ]) ≡ true
    go Ordering.lt p same above = ground (arith, above)
    go Ordering.eq p same above = ground (arith, above)
    go Ordering.gt p same above =
        ap (λ q. elim q as (λ _. Bool) [ Ordering.gt ↦ false | _ ↦ true ]) (sym same)
