-- ===== src/Crc/Bitwise.antt =====
-- `CRC::Bitwise_Calculator`.
use picolibrary.Common.{
  ℕ, zero, suc, ◌*◌, ◌/◌, ◌%◌, ◌^◌, bit_and, bit_or, bit_xor, if◌then◌else◌, List, [], ◌∷◌,
}
use picolibrary.Crc.{
  CalculationParameters, input_processor, output_processor, message_augment, xor_polynomial,
}

pub record BitwiseCalculator : Type 0 where
  pub polynomial : ℕ
  pub initial_remainder : ℕ
  pub process_input : ℕ → ℕ
  pub process_output : ℕ → ℕ
  pub xor_output : ℕ

module _ (digits : ℕ) where
  unfoldable pub bitwise_calculator : CalculationParameters → BitwiseCalculator
  bitwise_calculator p = record {
    polynomial = p.polynomial;
    initial_remainder = p.initial_remainder;
    process_input = input_processor p.input_is_reflected;
    process_output = output_processor digits p.output_is_reflected;
    xor_output = p.xor_output;
  }

  -- One round of the inner loop of `feed`, for the input bit `bit`.
  unfoldable pub feed_bit : ℕ → ℕ → ℕ → ℕ
  feed_bit polynomial bit remainder =
      let shifted = bit_or (remainder * 2) bit % 2 ^ digits in
      if xor_polynomial digits remainder then bit_xor shifted polynomial else shifted

  -- The inner loop, for the bits below `bits`, the highest first.
  unfoldable pub feed_bits : ℕ → ℕ → ℕ → ℕ → ℕ
  feed_bits polynomial zero processed_input remainder = remainder
  feed_bits polynomial (suc bit) processed_input remainder =
      feed_bits polynomial bit processed_input
        (feed_bit polynomial (bit_and (processed_input / 2 ^ bit) 1) remainder)

  unfoldable pub feed : BitwiseCalculator → ℕ → List ℕ → ℕ
  feed c remainder [] = remainder
  feed c remainder (byte ∷ bytes) =
      feed c (feed_bits c.polynomial 8 (c.process_input byte) remainder) bytes

  unfoldable pub calculate : BitwiseCalculator → List ℕ → ℕ
  calculate c message =
      bit_xor
        (c.process_output (feed c (feed c c.initial_remainder message) (message_augment digits)))
        c.xor_output
