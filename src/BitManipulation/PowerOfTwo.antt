-- ===== src/BitManipulation/PowerOfTwo.antt =====
-- `is_power_of_two` against the powers of two.
use native.Mathlib.Nat.{pow-suc, mod_self}
use native.Mathlib.Decide.{ℕ_discrete}
use picolibrary.Common.Modular.{two-pow-pos}
use picolibrary.Common.{
  ℕ, zero, suc, ◌-◌, ◌/◌, ◌%◌, ◌^◌, ◌≤◌, ◌<◌, ◌≡◌, refl, ap, ◌↔◌, ◌≢◌, bit_and, true, arith,
}
use picolibrary.Common.Bits.{bit_and_step, bit_and_mask}
use picolibrary.BitManipulation.{is_power_of_two}

bit_and_self_below : (n a : ℕ) → a ≤ n → bit_and a a ≡ a
bit_and_self_below zero a h = let e : a ≡ 0 = omega arith in rw e refl
bit_and_self_below (suc n) a h =
    omega (arith, bit_and_step a a, bit_and_self_below n (a / 2) (omega arith))

-- Clearing the lowest set bit leaves zero: there was one set bit.
single_bit : (n a : ℕ) → a ≤ n → 0 < a → bit_and a (a - 1) ≡ 0 → (k : ℕ) × (a ≡ 2 ^ k)
single_bit zero a h p e = absurd (omega arith)
single_bit (suc n) a h p e = elim (ℕ_discrete (a % 2) 0) [
  | yes even ↦
      let (k, half) = single_bit n (a / 2) (omega arith) (omega arith) (rest even) in
      (suc k, omega (arith, pow-suc 2 k))
  | no odd ↦ (0, only odd)
]
  where
    rest : a % 2 ≡ 0 → bit_and (a / 2) (a / 2 - 1) ≡ 0
    rest even =
        let half : (a - 1) / 2 ≡ a / 2 - 1 = omega arith in
        rw (← half) (omega (arith, bit_and_step a (a - 1)))

    only : a % 2 ≢ 0 → a ≡ 1
    only odd =
        let half : (a - 1) / 2 ≡ a / 2 = omega arith in
        omega
          (arith, bit_and_step a (a - 1), ap (bit_and (a / 2)) half, bit_and_self_below a (a / 2))

-- `is_power_of_two` accepts exactly the powers of two, zero not among them.
pub is_power_of_two_iff : (a : ℕ) → (is_power_of_two a ≡ true) ↔ ((k : ℕ) × (a ≡ 2 ^ k))
unfolding is_power_of_two
is_power_of_two_iff a = (
  λ h. single_bit a a (omega arith) (ground arith) (ground arith),
  λ (k, e). rw e (ground (arith, two-pow-pos k, bit_and_mask k (2 ^ k), mod_self (2 ^ k))),
)
