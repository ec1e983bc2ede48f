-- ===== src/Crc/Tests.antt =====
-- CRC-16 with the polynomial 0x1021 of a short message, by the five calculators, and the theorems
-- about them at these values.
use picolibrary.Common.{
  ℕ, ◌+◌, ◌^◌, ◌<◌, ◌≡◌, refl, true, false, bit_xor, List, [], ◌∷◌, ◌++◌, arith,
}
use picolibrary.Crc.{
  CalculationParameters, input_processor, output_processor, message_augment, xor_polynomial,
  get_byte_nibbles,
}
use picolibrary.Crc.Bitwise.{bitwise_calculator, feed_bit, feed_bits, feed, calculate}
use picolibrary.Crc.Table.{divide, fill_table, nibble_entry, generate_nibble_indexed_lookup_table}
use picolibrary.Crc.Augmented
use picolibrary.Crc.Augmented.{augmented_byte_calculator, augmented_nibble_calculator}
use picolibrary.Crc.Direct
use picolibrary.Crc.Direct.{
  direct_byte_calculator, direct_nibble_calculator, preprocess_nibbles, direct_nibble,
  direct_nibble_list, direct_nibbles,
}
use picolibrary.Crc.Remainder.{IsBits, product, message_value, calculate_lem}
use picolibrary.Crc.Equivalence.{
  augmented_bytes-eq-bitwise, augmented_nibbles-eq-bitwise, direct_bytes-eq-bitwise,
  direct_nibbles-eq-bitwise,
}

abbrev parameters : CalculationParameters
parameters = record {
  polynomial = 0x1021;
  initial_remainder = 0xffff;
  input_is_reflected = true;
  output_is_reflected = true;
  xor_output = 0xffff;
}

-- "123456789".
abbrev check_message : List ℕ
check_message = 0x31 ∷ 0x32 ∷ 0x33 ∷ 0x34 ∷ 0x35 ∷ 0x36 ∷ 0x37 ∷ 0x38 ∷ 0x39 ∷ []

-- CRC-16/XMODEM, whose initial remainder is zero, so that processing it changes nothing.
abbrev xmodem : CalculationParameters
xmodem = record {
  polynomial = 0x1021;
  initial_remainder = 0;
  input_is_reflected = false;
  output_is_reflected = false;
  xor_output = 0;
}

bitwise_check_value : calculate 16 (bitwise_calculator 16 xmodem) check_message ≡ 0x31c3
unfolding calculate feed feed_bits feed_bit bitwise_calculator input_processor output_processor
    message_augment xor_polynomial
bitwise_check_value = refl

direct_nibble_check_value :
    Direct.calculate_nibbles 16 (direct_nibble_calculator 16 xmodem) check_message ≡ 0x31c3
unfolding Direct.calculate_nibbles direct_nibble_calculator preprocess_nibbles direct_nibbles
    direct_nibble_list direct_nibble generate_nibble_indexed_lookup_table fill_table nibble_entry
    divide get_byte_nibbles input_processor output_processor xor_polynomial
direct_nibble_check_value = refl

augmented_bytes-eq-bitwise_example :
    Augmented.calculate_bytes 16 (augmented_byte_calculator 16 parameters) check_message
    ≡ calculate 16 (bitwise_calculator 16 parameters) check_message
augmented_bytes-eq-bitwise_example =
    augmented_bytes-eq-bitwise 1 parameters check_message (omega arith) (omega arith)

direct_bytes-eq-bitwise_example :
    Direct.calculate_bytes 16 (direct_byte_calculator 16 parameters) check_message
    ≡ calculate 16 (bitwise_calculator 16 parameters) check_message
direct_bytes-eq-bitwise_example =
    direct_bytes-eq-bitwise 1 parameters check_message (omega arith) (omega arith)

augmented_nibbles-eq-bitwise_example :
    Augmented.calculate_nibbles 16 (augmented_nibble_calculator 16 parameters) check_message
    ≡ calculate 16 (bitwise_calculator 16 parameters) check_message
augmented_nibbles-eq-bitwise_example =
    augmented_nibbles-eq-bitwise 1 parameters check_message (omega arith) (omega arith)

direct_nibbles-eq-bitwise_example :
    Direct.calculate_nibbles 16 (direct_nibble_calculator 16 parameters) check_message
    ≡ calculate 16 (bitwise_calculator 16 parameters) check_message
direct_nibbles-eq-bitwise_example =
    direct_nibbles-eq-bitwise 1 parameters check_message (omega arith) (omega arith)

calculate_lem_example :
    (quotient : List ℕ) × (remainder : ℕ) × IsBits quotient
    × (remainder < 2 ^ 16)
    × (bit_xor (product (2 ^ 16 + 0x1021) quotient) remainder
        ≡ message_value true 0xffff (check_message ++ message_augment 16))
    × (calculate 16 (bitwise_calculator 16 parameters) check_message
        ≡ bit_xor (output_processor 16 true remainder) 0xffff)
calculate_lem_example =
    calculate_lem 15 parameters (omega arith) check_message (omega arith) (omega arith)
