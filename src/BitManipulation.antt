-- ===== src/BitManipulation.antt =====
-- include/picolibrary/bit_manipulation.h. An unsigned type of `digits` bits is a number below
-- 2 ^ digits, and each conversion back to it is written as `% 2 ^ digits`.
pub mod Reflect
pub mod PowerOfTwo
pub mod Field
mod Tests
use picolibrary.Common.{
  ℕ, zero, suc, ◌+◌, ◌-◌, ◌*◌, ◌/◌, ◌%◌, ◌^◌, Bool, true, false, ◌&&◌, not, bit_and, bit_or, ◌==◌,
  Option, none, some,
}

-- The `for` loop of `highest_bit_set`, whose condition halves `value`. `none`: out of fuel.
highest_bit_set_loop : ℕ → ℕ → ℕ → Option ℕ
highest_bit_set_loop zero value bit = none
highest_bit_set_loop (suc fuel) value bit = elim (value / 2 == 0) [
  | true ↦ some bit
  | false ↦ highest_bit_set_loop fuel (value / 2) (bit + 1)
]

pub highest_bit_set : ℕ → ℕ → Option ℕ
unfolding highest_bit_set_loop
highest_bit_set digits value = highest_bit_set_loop digits value 0

-- `std::uintmax_t` has 64 bits. The source does not define its shift by 64, for no ones of a type of
-- 64 bits; what stands here for that case means nothing.
unfoldable pub mask : ℕ → ℕ → ℕ → ℕ
mask digits size bit = (2 ^ digits - 1) / 2 ^ (digits - size) * 2 ^ bit % 2 ^ 64 % 2 ^ digits

-- The loop of `reflect`, over `result`, `value` and `remaining_shifts`. A round needs a nonzero
-- `value`, and then `remaining_shifts` is not zero (Reflect), so the decrement does not stop at 0.
reflect_loop : ℕ → ℕ → ℕ → ℕ → ℕ → ℕ × ℕ × ℕ
reflect_loop digits zero result value remaining_shifts = (result, value, remaining_shifts)
reflect_loop digits (suc fuel) result value remaining_shifts = elim (value == 0) [
  | true ↦ (result, value, remaining_shifts)
  | false ↦
      reflect_loop digits fuel (bit_or (result * 2 % 2 ^ digits) (bit_and value 1)) (value / 2)
        (remaining_shifts - 1)
]

unfoldable pub reflect : ℕ → ℕ → ℕ
unfolding reflect_loop
reflect digits value =
    let (result, _, remaining_shifts) = reflect_loop digits digits value (value / 2) (digits - 1) in
    result * 2 ^ remaining_shifts % 2 ^ digits

unfoldable pub is_power_of_two : ℕ → Bool
is_power_of_two value = not (value == 0) && (bit_and value (value - 1) == 0)
