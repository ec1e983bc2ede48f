-- ===== src/Format/Digits.antt =====
-- The formatted integers against a reader of digits.
use native.Mathlib.Nat.{mod-eq_of_lt, mod-lt, pow-suc, div-add-mod', one-le-pow}
use native.Mathlib.Decide.{dec_lt}
use picolibrary.Common.{
  ℕ, zero, suc, ◌+◌, ◌-◌, ◌*◌, ◌/◌, ◌%◌, ◌^◌, ◌≤◌, ◌<◌, ◌≡◌, ◌⊎◌, inl, inr, refl, sym, ap, ◌∙◌,
  bit_and, ltb, leb, ◌==◌, ◌&&◌, if◌then◌else◌, Option, none, some, List, [], ◌∷◌, length, arith,
}
use picolibrary.Common.Bits.{bit_and_mask}
use picolibrary.Common.Modular.{mod-two-pow-double, mod-eq_of_mul-add}
use picolibrary.Format.{
  bin_digits, format_bin, hex_character, hex_digits, format_hex, dec_digits, format_dec,
}

-- The value of a digit of the base: '0' to '9' and upper case letters from 'A' on.
unfoldable pub digit : ℕ → ℕ → Option ℕ
digit base c =
    if leb 48 c && leb c 57 && ltb (c - 48) base
    then some (c - 48)
    else if leb 65 c && ltb (c - 55) base
    then some (c - 55)
    else none

-- The number that the digits of a text write behind `acc`. `none`: a character is not a digit of
-- the base.
unfoldable pub read : ℕ → ℕ → List ℕ → Option ℕ
unfolding digit
read base acc [] = some acc
read base acc (c ∷ text) = elim (digit base c) [
  | none ↦ none
  | some d ↦ read base (acc * base + d) text
]

-- '0', then the letter of the base, then digits of the base and nothing else.
unfoldable pub read_prefixed : ℕ → ℕ → List ℕ → Option ℕ
unfolding read
read_prefixed base letter [] = none
read_prefixed base letter (c ∷ []) = none
read_prefixed base letter (c ∷ mark ∷ text) =
    if c == 48 && mark == letter then read base 0 text else none

digit-bit : (v : ℕ) → digit 2 (48 + bit_and v 1) ≡ some (v % 2)
unfolding digit
digit-bit v = rw (bit_and_mask 1 v) (ground arith)

digit-hex_character : (v : ℕ) → digit 16 (hex_character (bit_and v 0xf)) ≡ some (v % 16)
unfolding digit hex_character
digit-hex_character v = rw (bit_and_mask 4 v) (ground arith)

digit-decimal : (v : ℕ) → digit 10 (48 + v % 10) ≡ some (v % 10)
unfolding digit
digit-decimal v = ground arith

read-digit :
    (base acc c d : ℕ) (text : List ℕ)
    → digit base c ≡ some d
    → read base acc (c ∷ text) ≡ read base (acc * base + d) text
unfolding read
read-digit base acc c d text h = rw (h, read) refl

length-bin_digits : (n v : ℕ) (text : List ℕ) → length (bin_digits n v text) ≡ n + length text
unfolding bin_digits
length-bin_digits zero v text = omega arith
length-bin_digits (suc n) v text =
    length-bin_digits n (v / 2) ((48 + bit_and v 1) ∷ text) ∙ omega arith

read-bin_digits :
    (n v : ℕ) (text : List ℕ) → read 2 0 (bin_digits n v text) ≡ read 2 (v % 2 ^ n) text
unfolding bin_digits
read-bin_digits zero v text = ap (λ a. read 2 a text) (omega arith)
read-bin_digits (suc n) v text =
    read-bin_digits n (v / 2) ((48 + bit_and v 1) ∷ text)
    ∙ read-digit 2 (v / 2 % 2 ^ n) (48 + bit_and v 1) (v % 2) text (digit-bit v)
    ∙ ap (λ a. read 2 a text) (sym (mod-two-pow-double n v))

length-hex_digits : (n v : ℕ) (text : List ℕ) → length (hex_digits n v text) ≡ n + length text
unfolding hex_digits
length-hex_digits zero v text = omega arith
length-hex_digits (suc n) v text =
    length-hex_digits n (v / 16) (hex_character (bit_and v 0xf) ∷ text) ∙ omega arith

mod-sixteen-pow-suc : (n v : ℕ) → v % 16 ^ suc n ≡ v / 16 % 16 ^ n * 16 + v % 16
mod-sixteen-pow-suc n v =
    mod-eq_of_mul-add v (v / 16 / 16 ^ n)
      (omega
        (arith, div-add-mod' (v / 16) (16 ^ n), ap (λ (t : ℕ). v / 16 / 16 ^ n * t) (pow-suc 16 n)))
      (omega (arith, pow-suc 16 n, mod-lt (v / 16) (one-le-pow n 16 (omega arith))))

read-hex_digits :
    (n v : ℕ) (text : List ℕ) → read 16 0 (hex_digits n v text) ≡ read 16 (v % 16 ^ n) text
unfolding hex_digits
read-hex_digits zero v text = ap (λ a. read 16 a text) (omega arith)
read-hex_digits (suc n) v text =
    read-hex_digits n (v / 16) (hex_character (bit_and v 0xf) ∷ text)
    ∙ read-digit 16 (v / 16 % 16 ^ n) (hex_character (bit_and v 0xf)) (v % 16) text
        (digit-hex_character v)
    ∙ ap (λ a. read 16 a text) (sym (mod-sixteen-pow-suc n v))

-- Formatting an unsigned integer of n bits in base two yields '0', 'b' and n digits, each '0' or
-- '1', which read as the integer.
pub read_prefixed-format_bin :
    (n v : ℕ)
    → v < 2 ^ n
    → (length (format_bin n v) ≡ 2 + n) × (read_prefixed 2 98 (format_bin n v) ≡ some v)
unfolding format_bin read_prefixed
read_prefixed-format_bin n v h = (
  omega (arith, length-bin_digits n v []),
  read-bin_digits n v [] ∙ (unfold read in ap some (mod-eq_of_lt h)),
)

-- Formatting an unsigned integer of n nibbles in base sixteen yields '0', 'x' and n digits, each
-- '0' to '9' or 'A' to 'F', which read as the integer.
pub read_prefixed-format_hex :
    (n v : ℕ)
    → v < 16 ^ n
    → (length (format_hex n v) ≡ 2 + n) × (read_prefixed 16 120 (format_hex n v) ≡ some v)
unfolding format_hex read_prefixed
read_prefixed-format_hex n v h = (
  omega (arith, length-hex_digits n v []),
  read-hex_digits n v [] ∙ (unfold read in ap some (mod-eq_of_lt h)),
)

dec_last :
    (room v : ℕ) (text : List ℕ)
    → v < 10
    → dec_digits (suc room) v text ≡ some ((48 + v % 10) ∷ text)
unfolding dec_digits
dec_last room v text h = ground arith

dec_more :
    (room v : ℕ) (text : List ℕ)
    → 10 ≤ v
    → dec_digits (suc room) v text ≡ dec_digits room (v / 10) ((48 + v % 10) ∷ text)
unfolding dec_digits
dec_more room v text h = ground arith

-- The first digit is '0' only where it is the number's one digit.
abbrev pub IsLeading : ℕ → List ℕ → Type 0
IsLeading v [] = ⊥
IsLeading v (c ∷ text) = (v ≡ 0) ⊎ (48 < c)

dec_digits_lem :
    (room v : ℕ) (text : List ℕ)
    → v < 10 ^ room
    → 0 < room
    → (result : List ℕ) × (dec_digits room v text ≡ some result)
      × (read 10 0 result ≡ read 10 v text)
      × (length result ≤ room + length text)
      × IsLeading v result
dec_digits_lem zero v text h pos = absurd (omega arith)
dec_digits_lem (suc room) v text h pos = elim (dec_lt v 10) [
  | yes small ↦ (
    (48 + v % 10) ∷ text,
    dec_last room v text small,
    read-digit 10 0 (48 + v % 10) (v % 10) text (digit-decimal v)
        ∙ ap (λ a. read 10 a text) (omega arith),
    omega arith,
    leading small,
  )
  | no large ↦
      let (result, found, value, size, first) =
        dec_digits_lem room (v / 10) ((48 + v % 10) ∷ text) (omega (arith, pow-suc 10 room))
          (fits large) in
      (
        result,
        dec_more room v text (omega arith) ∙ found,
        value
            ∙ read-digit 10 (v / 10) (48 + v % 10) (v % 10) text (digit-decimal v)
            ∙ ap (λ a. read 10 a text) (omega arith),
        omega arith,
        carry result large first,
      )
]
  where
    leading : v < 10 → (v ≡ 0) ⊎ (48 < 48 + v % 10)
    leading small = elim (dec_lt 0 v) [ yes p ↦ inr (omega arith) | no p ↦ inl (omega arith) ]

    fits : ¬ (v < 10) → 0 < room
    fits large = elim (dec_lt 0 room) [
      | yes p ↦ p
      | no p ↦
          let none_left : room ≡ 0 = omega arith in
          absurd (omega (arith, ap (λ (k : ℕ). 10 ^ suc k) none_left))
    ]

    carry : (result : List ℕ) → ¬ (v < 10) → IsLeading (v / 10) result → IsLeading v result
    carry [] large first = absurd first
    carry (c ∷ result) large (inl e) = absurd (omega arith)
    carry (c ∷ result) large (inr e) = inr e

-- Formatting an unsigned integer below 10 ^ n in base ten, into an array of n places where n is
-- positive, ends without writing before the array; the text is of decimal digits and nothing else,
-- reads as the integer, has at most n characters, and begins with the digit of a positive value
-- unless the integer is zero.
pub read-format_dec :
    (array_size v : ℕ)
    → v < 10 ^ array_size
    → 0 < array_size
    → (result : List ℕ) × (format_dec array_size v ≡ some result)
      × (read 10 0 result ≡ some v)
      × (length result ≤ array_size)
      × IsLeading v result
unfolding format_dec
read-format_dec array_size v h pos =
    let (result, found, value, size, first) = dec_digits_lem array_size v [] h pos in
    (result, found, value ∙ (unfold read in refl), omega arith, first)
