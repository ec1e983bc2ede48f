-- ===== src/Algorithm.antt =====
-- include/picolibrary/algorithm.h, as far as the arrays of bytes use it.
mod Tests
use picolibrary.Common.{
  ℕ, ◌≡◌, refl, sym, ◌≢◌, drop, get_or, ap, ap₂, ◌↔◌, Bool, true, false, ◌==◌, List, [], ◌∷◌,
  length, arith,
}
use native.Mathlib.Decide.{ℕ_discrete}
use mathlib.Core.Bool.{true≢false}

-- `equal`, of two ranges where the second is at least as long as the first: the elements of the
-- first are compared with those at the same places of the second.
unfoldable pub equal : List ℕ → List ℕ → Bool
equal [] ys = true
equal (x ∷ xs) [] = false
equal (x ∷ xs) (y ∷ ys) = elim (x == y) [ true ↦ equal xs ys | false ↦ false ]

same_test : (x y : ℕ) → x ≡ y → (x == y) ≡ true
same_test x y h = ground arith

other_test : (x y : ℕ) → x ≢ y → (x == y) ≡ false
other_test x y h = ground arith

-- For two sequences of the same length, `equal` decides whether they are equal.
pub equal_iff : (xs ys : List ℕ) → length xs ≡ length ys → (equal xs ys ≡ true) ↔ (xs ≡ ys)
unfolding equal
equal_iff [] [] e = (λ h. refl, λ h. refl)
equal_iff [] (y ∷ ys) e = absurd (omega arith)
equal_iff (x ∷ xs) [] e = absurd (omega arith)
equal_iff (x ∷ xs) (y ∷ ys) e =
    let rest = equal_iff xs ys (omega arith) in
    elim (ℕ_discrete x y) [
      | yes same ↦
          rw (same_test x y same, equal)
            (λ h. ap₂ (λ z zs. z ∷ zs) same (rest.0 h), λ p. rest.1 (ap (λ zs. drop 1 zs) p))
      | no ne ↦
          rw (other_test x y ne, equal)
            (λ h. absurd (true≢false (sym h)), λ p. absurd (ne (ap (λ zs. get_or zs 0 0) p)))
    ]
