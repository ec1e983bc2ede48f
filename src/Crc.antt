-- ===== src/Crc.antt =====
-- include/picolibrary/crc.h. A register type of `digits` bits is a number below 2 ^ digits; a
-- conversion back to it is written as `% 2 ^ digits`. A message is the list of the bytes that
-- the iterators pass over. Here: the parameters and what the calculators share. The children
-- Bitwise, Table, Augmented and Direct are the calculators; the others are proofs about them.
pub mod Bitwise
pub mod Table
pub mod Augmented
pub mod Direct
pub mod Step
pub mod Chunk
pub mod Lookup
pub mod Feed
pub mod FeedNibbles
pub mod Remainder
pub mod Equivalence
mod Tests
use picolibrary.Common.{
  ℕ, ◌+◌, ◌-◌, ◌*◌, ◌/◌, ◌%◌, ◌^◌, Bool, not, bit_and, bit_or, bit_xor, ◌==◌, if◌then◌else◌, List,
  [], ◌∷◌, replicate,
}
use picolibrary.BitManipulation.{reflect}

pub record CalculationParameters : Type 0 where
  pub polynomial : ℕ
  pub initial_remainder : ℕ
  pub input_is_reflected : Bool
  pub output_is_reflected : Bool
  pub xor_output : ℕ

unfoldable pub input_processor : Bool → ℕ → ℕ
input_processor input_is_reflected byte = if input_is_reflected then reflect 8 byte else byte

unfoldable pub output_processor : ℕ → Bool → ℕ → ℕ
output_processor digits output_is_reflected remainder =
    if output_is_reflected then reflect digits remainder else remainder

-- `Message_Augment<Register>{}`: as many zero bytes as the register holds.
unfoldable pub message_augment : ℕ → List ℕ
message_augment digits = replicate (digits / 8) 0

-- `remainder & ~( std::numeric_limits<Register>::max() >> 1 )` as a truth value; `~` in the
-- register's width is the difference from the largest value.
unfoldable pub xor_polynomial : ℕ → ℕ → Bool
xor_polynomial digits remainder =
    not (bit_and remainder (2 ^ digits - 1 - (2 ^ digits - 1) / 2) == 0)

unfoldable pub get_byte_nibbles : ℕ → List ℕ
get_byte_nibbles byte = byte / 2 ^ 4 ∷ bit_and byte 0xf ∷ []
