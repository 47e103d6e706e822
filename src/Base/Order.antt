-- ===== src/Base/Order.antt =====
-- `<` on `std::string`, which compares the bytes: two texts compare the one way or the other.
use Prim.Native.Nat.{ℕ, zero, suc, Ordering, compare as compare_ℕ}
use Prim.Native.Nat.compare as compare_ℕ
use Prim.Native.Char.{code}
use Prim.Native.String.compare
use Prim.Native.String.{String, [], ◌∷◌, then, compare}
use mathlib.Core.Path.{◌≡◌, refl, sym, ap, ◌∙◌}

abbrev pub flip : Ordering → Ordering
flip Ordering.lt = Ordering.gt
flip Ordering.eq = Ordering.eq
flip Ordering.gt = Ordering.lt

flip-then : (o r : Ordering) → flip (then o r) ≡ then (flip o) (flip r)
flip-then Ordering.lt r = refl
flip-then Ordering.eq r = refl
flip-then Ordering.gt r = refl

compare_ℕ-flip : (m n : ℕ) → compare_ℕ m n ≡ flip (compare_ℕ n m)
compare_ℕ-flip zero zero = compare_ℕ.zero-zero ∙ sym (ap flip compare_ℕ.zero-zero)
compare_ℕ-flip zero (suc n) = compare_ℕ.zero-suc n ∙ sym (ap flip (compare_ℕ.suc-zero n))
compare_ℕ-flip (suc m) zero = compare_ℕ.suc-zero m ∙ sym (ap flip (compare_ℕ.zero-suc m))
compare_ℕ-flip (suc m) (suc n) =
    compare_ℕ.suc-suc m n ∙ compare_ℕ-flip m n ∙ sym (ap flip (compare_ℕ.suc-suc n m))

pub compare-flip : (s t : String) → compare s t ≡ flip (compare t s)
compare-flip [] [] = compare.nil-nil ∙ sym (ap flip compare.nil-nil)
compare-flip [] (d ∷ t) = compare.nil-cons d t ∙ sym (ap flip (compare.cons-nil d t))
compare-flip (c ∷ s) [] = compare.cons-nil c s ∙ sym (ap flip (compare.nil-cons c s))
compare-flip (c ∷ s) (d ∷ t) =
    compare.cons-cons c d s t
    ∙ ap (λ o. then o (compare s t)) (compare_ℕ-flip (code c) (code d))
    ∙ ap (then (flip (compare_ℕ (code d) (code c)))) (compare-flip s t)
    ∙ sym (flip-then (compare_ℕ (code d) (code c)) (compare t s))
    ∙ sym (ap flip (compare.cons-cons d c t s))
