-- ===== src/BitManipulation/Field.antt =====
-- `mask` and `highest_bit_set` against powers of two.
use native.Mathlib.Nat.{pow-suc, pow-le-pow_right, mod-eq_of_lt}
use picolibrary.Common.{
  ℕ, zero, suc, ◌+◌, ◌-◌, ◌*◌, ◌/◌, ◌^◌, ◌≤◌, ◌<◌, ◌≡◌, refl, ap, ◌∙◌, ◌==◌, Bool-cases, inl, inr,
  some, arith,
}
use picolibrary.Common.Modular.{two-pow-pos, two-pow-add, mul-add-div_of_lt, shift_left-lt}
use picolibrary.BitManipulation.{highest_bit_set_loop, highest_bit_set, mask}

-- Shifting the largest value of `size + rest` bits right by `rest` leaves the largest of `size`.
ones-shift_right : (size rest : ℕ) → (2 ^ (size + rest) - 1) / 2 ^ rest ≡ 2 ^ size - 1
ones-shift_right size rest =
    ap (λ t. t / 2 ^ rest) parts
    ∙ mul-add-div_of_lt (2 ^ size - 1) (omega (arith, two-pow-pos rest))
  where
    parts : 2 ^ (size + rest) - 1 ≡ (2 ^ size - 1) * 2 ^ rest + (2 ^ rest - 1)
    parts =
        let predecessor : 2 ^ size ≡ 2 ^ size - 1 + 1 = omega (arith, two-pow-pos size) in
        omega
          (arith, two-pow-add size rest, two-pow-pos rest, ap (λ (t : ℕ). t * 2 ^ rest) predecessor)

-- `mask` yields `size` ones from bit `bit` on, for a field that fits an unsigned type of at most
-- 64 bits, unless it is an empty field of a type of 64 bits, where the source shifts by 64.
pub mask_lem :
    (digits size bit : ℕ)
    → digits ≤ 64
    → size + bit ≤ digits
    → digits < size + 64
    → mask digits size bit ≡ (2 ^ size - 1) * 2 ^ bit
unfolding mask
mask_lem digits size bit small fits defined =
    let whole : digits ≡ size + (digits - size) = omega arith in
    let ones : (2 ^ digits - 1) / 2 ^ (digits - size) ≡ 2 ^ size - 1 =
      ap (λ t. (2 ^ t - 1) / 2 ^ (digits - size)) whole ∙ ones-shift_right size (digits - size) in
    let fits_digits : (2 ^ size - 1) * 2 ^ bit < 2 ^ digits = omega (
      arith,
      shift_left-lt bit size (2 ^ size - 1) (omega (arith, two-pow-pos size)),
      pow-le-pow_right {n = 2} (omega arith) fits,
    ) in
    let fits_max : (2 ^ size - 1) * 2 ^ bit < 2 ^ 64 =
      omega (arith, pow-le-pow_right {n = 2} (omega arith) small) in
    rw (ones, mod-eq_of_lt fits_max, mod-eq_of_lt fits_digits) refl

highest_bit_set_loop_lem :
    (fuel value bit : ℕ)
    → 0 < value
    → value < 2 ^ fuel
    → (h : ℕ) × (highest_bit_set_loop fuel value bit ≡ some (bit + h))
      × (2 ^ h ≤ value)
      × (value < 2 ^ suc h)
unfolding highest_bit_set_loop
highest_bit_set_loop_lem zero value bit pos small = absurd (omega arith)
highest_bit_set_loop_lem (suc fuel) value bit pos small = elim (Bool-cases (value / 2 == 0)) [
  | inl done ↦
      (0, rw (done, highest_bit_set_loop) (ap some (omega arith)), omega arith, ground arith)
  | inr more ↦
      let (h, found, low, high) =
        highest_bit_set_loop_lem fuel (value / 2) (bit + 1) (ground arith)
          (omega (arith, pow-suc 2 fuel)) in
      (
        suc h,
        rw (more, highest_bit_set_loop) (found ∙ ap some (omega arith)),
        omega (arith, pow-suc 2 h),
        omega (arith, pow-suc 2 (suc h)),
      )
]

-- For a value of the type that is not zero, `highest_bit_set` returns, and the bit that it returns
-- is the exponent of the largest power of two that is not above the value.
pub highest_bit_set_lem :
    (digits value : ℕ)
    → 0 < value
    → value < 2 ^ digits
    → (h : ℕ) × (highest_bit_set digits value ≡ some h) × (2 ^ h ≤ value) × (value < 2 ^ suc h)
unfolding highest_bit_set
highest_bit_set_lem digits value pos small =
    let (h, found, low, high) = highest_bit_set_loop_lem digits value 0 pos small in
    (h, found ∙ ap some (omega arith), low, high)
