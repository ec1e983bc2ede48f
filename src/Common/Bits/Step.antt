-- ===== src/Common/Bits/Step.antt =====
-- Bit operations take numbers apart at the lowest bit: what each of them makes of two numbers is
-- twice what it makes of their halves, and the bit that it makes of their lowest bits.
use Prim.Native.Nat.{
  ℕ, zero, suc, ◌+◌, ◌-◌, ◌*◌, ◌/◌, ◌%◌, ◌≤◌, ◌<◌, min, max, bit_and, bit_or, bit_xor, digits,
  bitwise, differ, bit_and-bitwise, bit_or-bitwise, bit_xor-bitwise,
}
use mathlib.Core.Path.{◌≡◌, refl, sym, ap, ◌∙◌}
use native.Mathlib.Omega.{arith}

module _ (rest : ℕ → ℕ) (op : ℕ → ℕ → ℕ) where
  -- A count of at least the first number leaves a round to spare.
  one_more : (count x y : ℕ) → x ≤ count → digits rest op (suc count) x y ≡ digits rest op count x y
  one_more zero zero y h = refl
  one_more zero (suc x) y h = absurd (omega arith)
  one_more (suc count) zero y h = refl
  one_more (suc count) (suc x) y h =
      ap (λ t. t * 2 + op (suc x % 2) (y % 2)) (one_more count (suc x / 2) (y / 2) (omega arith))

  spare : (extra count x y : ℕ) → count ≡ x + extra → digits rest op count x y ≡ bitwise rest op x y
  spare zero count x y e = let same : count ≡ x = omega arith in ap (λ n. digits rest op n x y) same
  spare (suc extra) zero x y e = absurd (omega arith)
  spare (suc extra) (suc count) x y e =
      one_more count x y (omega arith) ∙ spare extra count x y (omega arith)

  lowest_digit :
      (v : ℕ → ℕ → ℕ)
      → ((x y : ℕ) → v x y ≡ bitwise rest op x y)
      → ((y : ℕ) → rest y ≡ rest (y / 2) * 2 + op 0 (y % 2))
      → (x y : ℕ) → v x y ≡ v (x / 2) (y / 2) * 2 + op (x % 2) (y % 2)
  lowest_digit v means ends zero y =
      means 0 y ∙ ends y ∙ ap (λ t. t * 2 + op 0 (y % 2)) (sym (means 0 (y / 2)))
  lowest_digit v means ends (suc x) y =
      means (suc x) y
      ∙ ap (λ t. t * 2 + op (suc x % 2) (y % 2))
          (spare (x - suc x / 2) x (suc x / 2) (y / 2) (omega arith)
            ∙ sym (means (suc x / 2) (y / 2)))

pub bit_and_step : (a b : ℕ) → bit_and a b ≡ bit_and (a / 2) (b / 2) * 2 + min (a % 2) (b % 2)
bit_and_step = lowest_digit (λ y. 0) min bit_and (λ x y. bit_and-bitwise x y) (λ y. omega arith)

pub bit_or_step : (a b : ℕ) → bit_or a b ≡ bit_or (a / 2) (b / 2) * 2 + max (a % 2) (b % 2)
bit_or_step = lowest_digit (λ y. y) max bit_or (λ x y. bit_or-bitwise x y) (λ y. omega arith)

differ_bits : (a b : ℕ) → a < 2 → b < 2 → differ a b ≡ (a + b) % 2
differ_bits zero b p q = omega arith
differ_bits (suc zero) zero p q = refl
differ_bits (suc zero) (suc zero) p q = refl
differ_bits (suc zero) (suc (suc b)) p q = absurd (omega arith)
differ_bits (suc (suc a)) b p q = absurd (omega arith)

pub bit_xor_step : (a b : ℕ) → bit_xor a b ≡ bit_xor (a / 2) (b / 2) * 2 + (a % 2 + b % 2) % 2
bit_xor_step a b =
    lowest_digit (λ y. y) differ bit_xor (λ x y. bit_xor-bitwise x y) (λ y. omega arith) a b
    ∙ ap (λ t. bit_xor (a / 2) (b / 2) * 2 + t)
        (differ_bits (a % 2) (b % 2) (omega arith) (omega arith))
