-- ===== src/Crc/Table.antt =====
-- The lookup tables. A table is indexed by the top bits of a remainder: eight of them, or four.
use picolibrary.Common.{
  ℕ, zero, suc, ◌+◌, ◌-◌, ◌*◌, ◌%◌, ◌^◌, bit_xor, if◌then◌else◌, List, set, replicate,
}
use picolibrary.Crc.{xor_polynomial}

module _ (digits polynomial : ℕ) where
  -- The inner loop of the generators: `rounds` steps of the division.
  unfoldable pub divide : ℕ → ℕ → ℕ
  divide zero remainder = remainder
  divide (suc rounds) remainder =
      let shifted = remainder * 2 % 2 ^ digits in
      divide rounds
        (if xor_polynomial digits remainder then bit_xor shifted polynomial else shifted)

  -- The outer loop from index `i` on. `entry` is its body before the store.
  unfoldable pub fill_table : (ℕ → ℕ) → ℕ → ℕ → List ℕ → List ℕ
  fill_table entry zero i lookup_table = lookup_table
  fill_table entry (suc rounds) i lookup_table =
      fill_table entry rounds (i + 1) (set lookup_table i (entry i))

  unfoldable pub byte_entry : ℕ → ℕ
  byte_entry byte = divide 8 (byte * 2 ^ (digits - 8) % 2 ^ digits)

  unfoldable pub nibble_entry : ℕ → ℕ
  nibble_entry nibble = divide 4 (nibble * 2 ^ (digits - 4) % 2 ^ digits)

  -- The array is not initialised before the loop; it is written whole, so zeros stand for it.
  unfoldable pub generate_byte_indexed_lookup_table : List ℕ
  generate_byte_indexed_lookup_table = fill_table byte_entry 256 0 (replicate 256 0)

  unfoldable pub generate_nibble_indexed_lookup_table : List ℕ
  generate_nibble_indexed_lookup_table = fill_table nibble_entry 16 0 (replicate 16 0)
