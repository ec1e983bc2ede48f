-- ===== src/Crc/Augmented.antt =====
-- `CRC::Augmented_Byte_Indexed_Lookup_Table_Calculator` and its nibble indexed sibling: the
-- message is followed by zero bytes. A read beyond a table's end, which C++ leaves undefined, is
-- 0 here; the indices are below the sizes of the tables (Lookup).
use picolibrary.Common.{ℕ, ◌-◌, ◌*◌, ◌/◌, ◌%◌, ◌^◌, bit_or, bit_xor, List, [], ◌∷◌, get_or}
use picolibrary.Crc.{
  CalculationParameters, input_processor, output_processor, message_augment, get_byte_nibbles,
}
use picolibrary.Crc.Table.{generate_byte_indexed_lookup_table, generate_nibble_indexed_lookup_table}

pub record AugmentedCalculator : Type 0 where
  pub lookup_table : List ℕ
  pub initial_remainder : ℕ
  pub process_input : ℕ → ℕ
  pub process_output : ℕ → ℕ
  pub xor_output : ℕ

module _ (digits : ℕ) where
  unfoldable pub augmented_byte_calculator : CalculationParameters → AugmentedCalculator
  augmented_byte_calculator p = record {
    lookup_table = generate_byte_indexed_lookup_table digits p.polynomial;
    initial_remainder = p.initial_remainder;
    process_input = input_processor p.input_is_reflected;
    process_output = output_processor digits p.output_is_reflected;
    xor_output = p.xor_output;
  }

  unfoldable pub augmented_nibble_calculator : CalculationParameters → AugmentedCalculator
  augmented_nibble_calculator p = record {
    lookup_table = generate_nibble_indexed_lookup_table digits p.polynomial;
    initial_remainder = p.initial_remainder;
    process_input = input_processor p.input_is_reflected;
    process_output = output_processor digits p.output_is_reflected;
    xor_output = p.xor_output;
  }

  -- The body of the loop of the byte indexed `feed`.
  unfoldable pub feed_byte : List ℕ → ℕ → ℕ → ℕ
  feed_byte lookup_table processed_input remainder =
      let i = remainder / 2 ^ (digits - 8) % 2 ^ 8 in
      bit_xor (bit_or (remainder * 2 ^ 8) processed_input) (get_or lookup_table i 0) % 2 ^ digits

  unfoldable pub feed_bytes : AugmentedCalculator → ℕ → List ℕ → ℕ
  feed_bytes c remainder [] = remainder
  feed_bytes c remainder (byte ∷ bytes) =
      feed_bytes c (feed_byte c.lookup_table (c.process_input byte) remainder) bytes

  unfoldable pub calculate_bytes : AugmentedCalculator → List ℕ → ℕ
  calculate_bytes c message =
      bit_xor
        (c.process_output
          (feed_bytes c (feed_bytes c c.initial_remainder message) (message_augment digits)))
        c.xor_output

  -- The body of the inner loop of the nibble indexed `feed`. `i` is a `std::uint_fast8_t`, which
  -- holds the four bits that are left.
  unfoldable pub feed_nibble : List ℕ → ℕ → ℕ → ℕ
  feed_nibble lookup_table nibble remainder =
      let i = remainder / 2 ^ (digits - 4) % 2 ^ 8 in
      bit_xor (bit_or (remainder * 2 ^ 4) nibble) (get_or lookup_table i 0) % 2 ^ digits

  unfoldable pub feed_nibble_list : List ℕ → List ℕ → ℕ → ℕ
  feed_nibble_list lookup_table [] remainder = remainder
  feed_nibble_list lookup_table (nibble ∷ nibbles) remainder =
      feed_nibble_list lookup_table nibbles (feed_nibble lookup_table nibble remainder)

  unfoldable pub feed_nibbles : AugmentedCalculator → ℕ → List ℕ → ℕ
  feed_nibbles c remainder [] = remainder
  feed_nibbles c remainder (byte ∷ bytes) =
      let nibbles = get_byte_nibbles (c.process_input byte) in
      feed_nibbles c (feed_nibble_list c.lookup_table nibbles remainder) bytes

  unfoldable pub calculate_nibbles : AugmentedCalculator → List ℕ → ℕ
  calculate_nibbles c message =
      bit_xor
        (c.process_output
          (feed_nibbles c (feed_nibbles c c.initial_remainder message) (message_augment digits)))
        c.xor_output
