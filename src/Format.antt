-- ===== src/Format.antt =====
-- include/picolibrary/format.h: the formatting of unsigned integers in the bases two, ten and
-- sixteen. A character is its code: '0' is 48, 'A' is 65, 'b' is 98 and 'x' is 120. Each formatter
-- fills an array from its end with a reverse iterator `i`; `text` is the part of the array that `i`
-- has passed, and `room` the number of places that it has not.
pub mod Digits
mod Tests
use picolibrary.Common.{
  ℕ, zero, suc, ◌+◌, ◌-◌, ◌/◌, ◌%◌, ◌^◌, Bool, true, false, bit_and, ltb, ◌==◌, if◌then◌else◌,
  Option, none, some, List, [], ◌∷◌,
}

unfoldable pub bin_digits : ℕ → ℕ → List ℕ → List ℕ
bin_digits zero unsigned_integer text = text
bin_digits (suc bits) unsigned_integer text =
    bin_digits bits (unsigned_integer / 2) ((48 + bit_and unsigned_integer 1) ∷ text)

-- `Output_Formatter<Format::Bin<Integer>>::format`, for `DIGITS` bits.
unfoldable pub format_bin : ℕ → ℕ → List ℕ
unfolding bin_digits
format_bin digits unsigned_integer = 48 ∷ 98 ∷ bin_digits digits unsigned_integer []

unfoldable pub hex_character : ℕ → ℕ
hex_character n = if ltb n 0xa then 48 + n else 65 + (n - 0xa)

unfoldable pub hex_digits : ℕ → ℕ → List ℕ → List ℕ
unfolding hex_character
hex_digits zero unsigned_integer text = text
hex_digits (suc nibbles) unsigned_integer text =
    hex_digits nibbles (unsigned_integer / 2 ^ 4)
      (hex_character (bit_and unsigned_integer 0xf) ∷ text)

-- `Output_Formatter<Format::Hex<Integer>>::format`, for `NIBBLES` nibbles.
unfoldable pub format_hex : ℕ → ℕ → List ℕ
unfolding hex_digits
format_hex nibbles unsigned_integer = 48 ∷ 120 ∷ hex_digits nibbles unsigned_integer []

-- The `do` loop of `Output_Formatter<Format::Dec<Integer>>::format` of an unsigned type. `none`: it
-- writes before the first place of the array.
unfoldable pub dec_digits : ℕ → ℕ → List ℕ → Option (List ℕ)
dec_digits zero integer text = none
dec_digits (suc room) integer text =
    let digit = 48 + integer % 10 in
    elim (integer / 10 == 0) [
      | true ↦ some (digit ∷ text)
      | false ↦ dec_digits room (integer / 10) (digit ∷ text)
    ]

unfoldable pub format_dec : ℕ → ℕ → Option (List ℕ)
unfolding dec_digits
format_dec array_size integer = dec_digits array_size integer []
