-- ===== src/Crc/Direct.antt =====
-- `CRC::Direct_Byte_Indexed_Lookup_Table_Calculator` and its nibble indexed sibling: the initial
-- remainder is processed ahead, and no zero bytes follow the message. Reads as in Augmented.
use picolibrary.Common.{ℕ, zero, suc, ◌-◌, ◌*◌, ◌/◌, ◌%◌, ◌^◌, bit_xor, List, [], ◌∷◌, get_or}
use picolibrary.Crc.{CalculationParameters, input_processor, output_processor, get_byte_nibbles}
use picolibrary.Crc.Table.{generate_byte_indexed_lookup_table, generate_nibble_indexed_lookup_table}

pub record DirectCalculator : Type 0 where
  pub lookup_table : List ℕ
  pub preprocessed_initial_remainder : ℕ
  pub process_input : ℕ → ℕ
  pub process_output : ℕ → ℕ
  pub xor_output : ℕ

module _ (digits : ℕ) where
  -- The loop of the byte indexed `preprocess_initial_remainder`, with its rounds left.
  unfoldable pub preprocess_bytes : List ℕ → ℕ → ℕ → ℕ
  preprocess_bytes lookup_table zero remainder = remainder
  preprocess_bytes lookup_table (suc rounds) remainder =
      let i = remainder / 2 ^ (digits - 8) % 2 ^ 8 in
      preprocess_bytes lookup_table rounds
        (bit_xor (remainder * 2 ^ 8) (get_or lookup_table i 0) % 2 ^ digits)

  unfoldable pub preprocess_nibbles : List ℕ → ℕ → ℕ → ℕ
  preprocess_nibbles lookup_table zero remainder = remainder
  preprocess_nibbles lookup_table (suc rounds) remainder =
      let i = remainder / 2 ^ (digits - 4) % 2 ^ 8 in
      preprocess_nibbles lookup_table rounds
        (bit_xor (remainder * 2 ^ 4) (get_or lookup_table i 0) % 2 ^ digits)

  unfoldable pub direct_byte_calculator : CalculationParameters → DirectCalculator
  direct_byte_calculator p =
      let lookup_table = generate_byte_indexed_lookup_table digits p.polynomial in
      record {
        lookup_table = lookup_table;
        preprocessed_initial_remainder =
            preprocess_bytes lookup_table (digits / 8) p.initial_remainder;
        process_input = input_processor p.input_is_reflected;
        process_output = output_processor digits p.output_is_reflected;
        xor_output = p.xor_output;
      }

  unfoldable pub direct_nibble_calculator : CalculationParameters → DirectCalculator
  direct_nibble_calculator p =
      let lookup_table = generate_nibble_indexed_lookup_table digits p.polynomial in
      record {
        lookup_table = lookup_table;
        preprocessed_initial_remainder =
            preprocess_nibbles lookup_table (digits / 4) p.initial_remainder;
        process_input = input_processor p.input_is_reflected;
        process_output = output_processor digits p.output_is_reflected;
        xor_output = p.xor_output;
      }

  unfoldable pub direct_byte : List ℕ → ℕ → ℕ → ℕ
  direct_byte lookup_table processed_input remainder =
      let i = bit_xor (remainder / 2 ^ (digits - 8) % 2 ^ 8) processed_input % 2 ^ 8 in
      bit_xor (remainder * 2 ^ 8) (get_or lookup_table i 0) % 2 ^ digits

  unfoldable pub direct_bytes : DirectCalculator → ℕ → List ℕ → ℕ
  direct_bytes c remainder [] = remainder
  direct_bytes c remainder (byte ∷ bytes) =
      direct_bytes c (direct_byte c.lookup_table (c.process_input byte) remainder) bytes

  unfoldable pub calculate_bytes : DirectCalculator → List ℕ → ℕ
  calculate_bytes c message =
      bit_xor (c.process_output (direct_bytes c c.preprocessed_initial_remainder message))
        c.xor_output

  unfoldable pub direct_nibble : List ℕ → ℕ → ℕ → ℕ
  direct_nibble lookup_table nibble remainder =
      let i = bit_xor (remainder / 2 ^ (digits - 4) % 2 ^ 8) nibble % 2 ^ 8 in
      bit_xor (remainder * 2 ^ 4) (get_or lookup_table i 0) % 2 ^ digits

  unfoldable pub direct_nibble_list : List ℕ → List ℕ → ℕ → ℕ
  direct_nibble_list lookup_table [] remainder = remainder
  direct_nibble_list lookup_table (nibble ∷ nibbles) remainder =
      direct_nibble_list lookup_table nibbles (direct_nibble lookup_table nibble remainder)

  unfoldable pub direct_nibbles : DirectCalculator → ℕ → List ℕ → ℕ
  direct_nibbles c remainder [] = remainder
  direct_nibbles c remainder (byte ∷ bytes) =
      let nibbles = get_byte_nibbles (c.process_input byte) in
      direct_nibbles c (direct_nibble_list c.lookup_table nibbles remainder) bytes

  unfoldable pub calculate_nibbles : DirectCalculator → List ℕ → ℕ
  calculate_nibbles c message =
      bit_xor (c.process_output (direct_nibbles c c.preprocessed_initial_remainder message))
        c.xor_output
