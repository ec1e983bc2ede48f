-- ===== src/BitManipulation/Tests.antt =====
-- The bit manipulation functions at single values, and the theorems about them there.
use picolibrary.Common.{ℕ, ◌-◌, ◌*◌, ◌^◌, ◌≤◌, ◌<◌, suc, ◌≡◌, ◌↔◌, refl, true, some, arith}
use picolibrary.BitManipulation.{highest_bit_set, is_power_of_two, mask, reflect}
use picolibrary.BitManipulation.Field.{highest_bit_set_lem, mask_lem}
use picolibrary.BitManipulation.PowerOfTwo.{is_power_of_two_iff}
use picolibrary.BitManipulation.Reflect.{reverse_bits, reflect-eq-reverse_bits, reflect_twice}

reflect_byte : reflect 8 0xb1 ≡ 0x8d
unfolding reflect
reflect_byte = refl

highest_bit_of_byte : highest_bit_set 8 0x95 ≡ some 7
unfolding highest_bit_set
highest_bit_of_byte = refl

reflect-eq-reverse_bits_example : reflect 8 0xb1 ≡ reverse_bits 8 0xb1
reflect-eq-reverse_bits_example = reflect-eq-reverse_bits 7 0xb1 (omega arith)

reflect_twice_example : reflect 16 (reflect 16 0x1021) ≡ 0x1021
reflect_twice_example = reflect_twice 15 0x1021 (omega arith)

is_power_of_two_iff_example : (is_power_of_two 64 ≡ true) ↔ ((k : ℕ) × (64 ≡ 2 ^ k))
is_power_of_two_iff_example = is_power_of_two_iff 64

mask_lem_example : mask 8 3 2 ≡ (2 ^ 3 - 1) * 2 ^ 2
mask_lem_example = mask_lem 8 3 2 (omega arith) (omega arith) (omega arith)

highest_bit_set_lem_example :
    (h : ℕ) × (highest_bit_set 8 0x95 ≡ some h) × (2 ^ h ≤ 0x95) × (0x95 < 2 ^ suc h)
highest_bit_set_lem_example = highest_bit_set_lem 8 0x95 (omega arith) (omega arith)
