-- ===== src/MacAddress/Format.antt =====
-- A formatted MAC address against a reader of such texts.
use picolibrary.Common.{
  ℕ, ◌+◌, ◌-◌, ◌*◌, ◌/◌, ◌%◌, ◌^◌, ◌<◌, ◌≡◌, refl, ap, ap₂, ◌∙◌, ◌&&◌, bit_and, leb, ◌==◌, Option,
  none, some, if◌then◌else◌, List, [], ◌∷◌, length, arith,
}
use picolibrary.Common.Bits.{bit_and_mask}
use picolibrary.Common.BigEndian.{IsBytes}
use picolibrary.MacAddress.{
  from_byte_array, nibble_character, put_character, format_byte, format_bytes, format,
}

-- The value of an upper case hexadecimal digit.
unfoldable pub digit_value : ℕ → Option ℕ
digit_value c =
    if leb 48 c && leb c 57
    then some (c - 48)
    else if leb 65 c && leb c 70
    then some (c - 55)
    else none

pair_value : Option ℕ → Option ℕ → Option ℕ
pair_value none low = none
pair_value (some h) none = none
pair_value (some h) (some l) = some (h * 16 + l)

prepend : Option ℕ → Option (List ℕ) → Option (List ℕ)
prepend none rest = none
prepend (some b) none = none
prepend (some b) (some rest) = some (b ∷ rest)

-- Bytes of two digits each, with a dash between each two of them and nothing else.
unfoldable pub read_address : List ℕ → Option (List ℕ)
unfolding digit_value pair_value prepend
read_address [] = none
read_address (h ∷ []) = none
read_address (h ∷ l ∷ []) = prepend (pair_value (digit_value h) (digit_value l)) (some [])
read_address (h ∷ l ∷ dash ∷ text) =
    let rest = read_address text in
    if dash == 45 then prepend (pair_value (digit_value h) (digit_value l)) rest else none

digit_value-nibble_character : (n : ℕ) → n < 16 → digit_value (nibble_character n) ≡ some n
unfolding digit_value nibble_character
digit_value-nibble_character n h = ground arith

byte_digits :
    (b : ℕ)
    → b < 256
    → pair_value
        (digit_value (nibble_character (b / 2 ^ 4)))
        (digit_value (nibble_character (bit_and b 0xf)))
      ≡ some b
unfolding pair_value
byte_digits b h =
    ap₂ pair_value (digit_value-nibble_character (b / 2 ^ 4) (omega arith)) (
      ap (λ t. digit_value (nibble_character t)) (bit_and_mask 4 b)
      ∙ digit_value-nibble_character (b % 16) (omega arith))
    ∙ ap some (omega arith)

-- The formatted address of any six bytes has 17 characters, and reads as those bytes: two upper
-- case hexadecimal digits for each byte, the first byte first, with dashes between them.
pub read_address-format :
    (b0 b1 b2 b3 b4 b5 : ℕ)
    → IsBytes (b0 ∷ b1 ∷ b2 ∷ b3 ∷ b4 ∷ b5 ∷ [])
    → (length (format (from_byte_array b0 b1 b2 b3 b4 b5)) ≡ 17)
      × (read_address (format (from_byte_array b0 b1 b2 b3 b4 b5))
          ≡ some (b0 ∷ b1 ∷ b2 ∷ b3 ∷ b4 ∷ b5 ∷ []))
unfolding format format_bytes format_byte put_character from_byte_array read_address prepend
read_address-format b0 b1 b2 b3 b4 b5 h = (
  refl,
  rw
      (
        byte_digits b0 h.0,
        byte_digits b1 h.1.0,
        byte_digits b2 h.1.1.0,
        byte_digits b3 h.1.1.1.0,
        byte_digits b4 h.1.1.1.1.0,
        byte_digits b5 h.1.1.1.1.1.0,
      )
      refl,
)
