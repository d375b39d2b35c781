-- ===== src/Static/Texts.antt =====
-- The order of texts, by which `sorted` sorts names: `<` does not hold both ways.
use Prim.Native.Nat.compare as compare_ℕ
use Prim.Native.Nat.{Ordering, compare as compare_ℕ}
use Prim.Native.Char.{code}
use Prim.Native.String.compare
use Prim.Native.String.{[], ◌∷◌, then, compare}
use neural_pubsub_experiment.Prelude.{
  ℕ, zero, suc, String, ◌≡◌, refl, sym, ap, ◌∙◌, Bool, true, false,
}
use neural_pubsub_experiment.Static.{text_less}

abbrev swap : Ordering → Ordering
swap Ordering.lt = Ordering.gt
swap Ordering.eq = Ordering.eq
swap Ordering.gt = Ordering.lt

compare_ℕ-swap : (m n : ℕ) → compare_ℕ n m ≡ swap (compare_ℕ m n)
compare_ℕ-swap zero zero = compare_ℕ.zero-zero ∙ sym (ap swap compare_ℕ.zero-zero)
compare_ℕ-swap zero (suc n) = compare_ℕ.suc-zero n ∙ sym (ap swap (compare_ℕ.zero-suc n))
compare_ℕ-swap (suc m) zero = compare_ℕ.zero-suc m ∙ sym (ap swap (compare_ℕ.suc-zero m))
compare_ℕ-swap (suc m) (suc n) =
    compare_ℕ.suc-suc n m ∙ compare_ℕ-swap m n ∙ sym (ap swap (compare_ℕ.suc-suc m n))

swap-then : (o p : Ordering) → swap (then o p) ≡ then (swap o) (swap p)
swap-then Ordering.lt p = refl
swap-then Ordering.eq p = refl
swap-then Ordering.gt p = refl

compare-swap : (s t : String) → compare t s ≡ swap (compare s t)
compare-swap [] [] = compare.nil-nil ∙ sym (ap swap compare.nil-nil)
compare-swap [] (d ∷ t) = compare.cons-nil d t ∙ sym (ap swap (compare.nil-cons d t))
compare-swap (c ∷ s) [] = compare.nil-cons c s ∙ sym (ap swap (compare.cons-nil c s))
compare-swap (c ∷ s) (d ∷ t) =
    compare.cons-cons d c t s
    ∙ ap (λ o. then o (compare t s)) (compare_ℕ-swap (code c) (code d))
    ∙ ap (then (swap (compare_ℕ (code c) (code d)))) (compare-swap s t)
    ∙ sym (swap-then (compare_ℕ (code c) (code d)) (compare s t))
    ∙ sym (ap swap (compare.cons-cons c d s t))

abbrev is_lt : Ordering → Bool
is_lt Ordering.lt = true
is_lt Ordering.eq = false
is_lt Ordering.gt = false

swap-is_lt : (o : Ordering) → is_lt o ≡ true → is_lt (swap o) ≡ false
swap-is_lt Ordering.lt h = refl
swap-is_lt Ordering.eq h = refl
swap-is_lt Ordering.gt h = cc

pub text_less-asym : (s t : String) → text_less s t ≡ true → text_less t s ≡ false
text_less-asym s t h = ap is_lt (compare-swap s t) ∙ swap-is_lt (compare s t) h
