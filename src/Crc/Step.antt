-- ===== src/Crc/Step.antt =====
-- One round of the division, and rounds in sequence, as maps of bit vectors: they respect `^`,
-- stay within the register, and do nothing but shift while the register's top bits are clear.
use native.Mathlib.Nat.{pow-suc, mod-lt, mod-eq_of_lt, div-eq_of_lt}
use picolibrary.Common.{
  ℕ, zero, suc, ◌+◌, ◌-◌, ◌*◌, ◌/◌, ◌%◌, ◌^◌, ◌<◌, ◌≡◌, refl, sym, ap, ap₂, ◌∙◌, ◌⊎◌, inl, inr,
  bit_and, bit_or, bit_xor, ◌==◌, arith,
}
use picolibrary.Common.Bits.{
  bit_and_single, bit_or_fields, bit_xor_exchange, bit_xor_fields, bit_xor-lt, bit_xor-mod,
  bit_xor-shift_left, bit_xor-shift_right, bit_xor-zero, zero-bit_xor, bit_xor_self,
}
use picolibrary.Common.Modular.{two-pow-pos, mod-two-pow-double, shift_right-lt}
use picolibrary.Crc.{xor_polynomial}
use picolibrary.Crc.Bitwise.{feed_bit}

half_of : (a b : ℕ) → b < 2 → (a * 2 + b) / 2 ≡ a
half_of a b h = omega arith

pub bit_cases : (t : ℕ) → t < 2 → (t ≡ 0) ⊎ (t ≡ 1)
bit_cases t h = omega arith

pub top-lt : (v r : ℕ) → r < 2 ^ suc v → r / 2 ^ v < 2
top-lt v r h = shift_right-lt 1 v r (let e : v + 1 ≡ suc v = omega arith in rw e h)

-- The mask of `xor_polynomial` is the register's top bit.
xor_polynomial-eq : (v r : ℕ) → r < 2 ^ suc v → xor_polynomial (suc v) r ≡ (r / 2 ^ v == 1)
unfolding xor_polynomial
xor_polynomial-eq v r h =
    let mask_is_top : 2 ^ suc v - 1 - (2 ^ suc v - 1) / 2 ≡ 2 ^ v =
      omega (arith, pow-suc 2 v, two-pow-pos v) in
    let single : bit_and r (2 ^ v) ≡ r / 2 ^ v % 2 * 2 ^ v = bit_and_single v r in
    rw mask_is_top (elim (bit_cases (r / 2 ^ v) (top-lt v r h)) [
      | inl clear ↦ rw (single, clear) (ground arith)
      | inr set ↦ rw (single, set) (ground (arith, two-pow-pos v))
    ])

bit_times : (s t q : ℕ) → s < 2 → t < 2 → bit_xor s t * q ≡ bit_xor (s * q) (t * q)
bit_times zero t q hs ht =
    let none_of : 0 * q ≡ 0 = omega arith in
    rw (none_of, zero-bit_xor t) (sym (zero-bit_xor (t * q)))
bit_times (suc zero) zero q hs ht =
    let none_of : 0 * q ≡ 0 = omega arith in rw none_of (sym (bit_xor-zero (1 * q)))
bit_times (suc zero) (suc zero) q hs ht =
    let none_of : 0 * q ≡ 0 = omega arith in rw none_of (sym (bit_xor_self (1 * q)))
bit_times (suc zero) (suc (suc t)) q hs ht = absurd (omega arith)
bit_times (suc (suc s)) t q hs ht = absurd (omega arith)

module _ (v polynomial : ℕ) (fits : polynomial < 2 ^ suc v) where
  pub feed_bit-eq :
      (b r : ℕ)
      → b < 2
      → r < 2 ^ suc v
      → feed_bit (suc v) polynomial b r ≡ bit_xor (r % 2 ^ v * 2 + b) (r / 2 ^ v * polynomial)
  unfolding feed_bit
  feed_bit-eq b r hb hr = elim (bit_cases (r / 2 ^ v) (top-lt v r hr)) [
    | inl clear ↦
        let none_of : 0 * polynomial ≡ 0 = omega arith in
        rw (xor_polynomial-eq v r hr, clear, shifted, none_of) (sym (bit_xor-zero _))
    | inr set ↦
        let one_of : 1 * polynomial ≡ polynomial = omega arith in
        rw (xor_polynomial-eq v r hr, set, shifted, one_of) refl
  ]
    where
      shifted : bit_or (r * 2) b % 2 ^ suc v ≡ r % 2 ^ v * 2 + b
      shifted = omega (
        arith,
        ap (λ (t : ℕ). t % 2 ^ suc v) (bit_or_fields 1 r b hb),
        mod-two-pow-double v (r * 2 + b),
        ap (λ (t : ℕ). t % 2 ^ v) (half_of r b hb),
      )

  pub feed_bit-lt : (b r : ℕ) → b < 2 → r < 2 ^ suc v → feed_bit (suc v) polynomial b r < 2 ^ suc v
  feed_bit-lt b r hb hr = rw (feed_bit-eq b r hb hr) (
      bit_xor-lt (suc v) _ _ (omega (arith, pow-suc 2 v, mod-lt r (two-pow-pos v)))
        (elim (bit_cases (r / 2 ^ v) (top-lt v r hr)) [
          | inl clear ↦ rw clear (omega (arith, two-pow-pos (suc v)))
          | inr set ↦ rw set (omega arith)
        ]))

  pub feed_bit-xor :
      (a b r s : ℕ)
      → a < 2
      → b < 2
      → r < 2 ^ suc v
      → s < 2 ^ suc v
      → feed_bit (suc v) polynomial (bit_xor a b) (bit_xor r s)
        ≡ bit_xor (feed_bit (suc v) polynomial a r) (feed_bit (suc v) polynomial b s)
  feed_bit-xor a b r s ha hb hr hs =
      feed_bit-eq (bit_xor a b) (bit_xor r s) (bit_xor-lt 1 a b ha hb)
        (bit_xor-lt (suc v) r s hr hs)
      ∙ ap₂ bit_xor low high
      ∙ bit_xor_exchange (r % 2 ^ v * 2 + a) (s % 2 ^ v * 2 + b) (r / 2 ^ v * polynomial)
          (s / 2 ^ v * polynomial)
      ∙ sym (ap₂ bit_xor (feed_bit-eq a r ha hr) (feed_bit-eq b s hb hs))
    where
      low : bit_xor r s % 2 ^ v * 2 + bit_xor a b ≡ bit_xor (r % 2 ^ v * 2 + a) (s % 2 ^ v * 2 + b)
      low =
          ap (λ x. x * 2 + bit_xor a b) (bit_xor-mod v r s)
          ∙ sym (
              bit_xor_fields 1 (bit_xor (r % 2 ^ v) (s % 2 ^ v)) (bit_xor a b)
                (bit_xor-lt 1 a b ha hb))
          ∙ ap (λ x. bit_xor x (bit_xor a b)) (sym (bit_xor-shift_left 1 (r % 2 ^ v) (s % 2 ^ v)))
          ∙ bit_xor_exchange (r % 2 ^ v * 2) (s % 2 ^ v * 2) a b
          ∙ ap₂ bit_xor (bit_xor_fields 1 (r % 2 ^ v) a ha) (bit_xor_fields 1 (s % 2 ^ v) b hb)

      high :
          bit_xor r s / 2 ^ v * polynomial
          ≡ bit_xor (r / 2 ^ v * polynomial) (s / 2 ^ v * polynomial)
      high =
          ap (λ t. t * polynomial) (bit_xor-shift_right v r s)
          ∙ bit_times (r / 2 ^ v) (s / 2 ^ v) polynomial (top-lt v r hr) (top-lt v s hs)

  -- A clear top bit: the round is a shift.
  pub feed_bit_clear : (b r : ℕ) → b < 2 → r < 2 ^ v → feed_bit (suc v) polynomial b r ≡ r * 2 + b
  feed_bit_clear b r hb hr =
      let none_of : 0 * polynomial ≡ 0 = omega arith in
      feed_bit-eq b r hb (omega (arith, pow-suc 2 v))
      ∙ rw (div-eq_of_lt hr, mod-eq_of_lt hr, none_of) (bit_xor-zero _)
