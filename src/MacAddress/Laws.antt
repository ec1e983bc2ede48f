-- ===== src/MacAddress/Laws.antt =====
-- MAC addresses against their unsigned integers, and their order.
use native.Mathlib.Nat.{mod-eq_of_lt}
use native.Mathlib.Decide.{dec_lt}
use picolibrary.Common.{
  ◌⊎◌, inl, inr, ℕ, ◌+◌, ◌*◌, ◌/◌, ◌%◌, ◌^◌, ◌≤◌, ◌<◌, ◌≡◌, ◌↔◌, refl, ap, ap₂, ◌∙◌, true, bit_or,
  List, [], ◌∷◌, ltb→lt, lt→ltb, arith,
}
use picolibrary.Common.BigEndian.{
  IsBytes, value_from, big_endian_bytes, value-bytes, bytes-value, IsBefore, value-lt_iff-IsBefore,
  or_shifted-eq, value-lt, big_endian_bytes-IsBytes,
}
use picolibrary.Expectation.{done, fatal, invalid_argument}
use picolibrary.MacAddress.{
  MacAddress, max_address, from_byte_array, from_unsigned_integer_bypass, from_unsigned_integer,
  as_unsigned_integer, less_than,
}

from_bytes : List ℕ → MacAddress
from_bytes bytes = record { m_address = bytes }

module _ (b0 b1 b2 b3 b4 b5 : ℕ) (h : IsBytes (b0 ∷ b1 ∷ b2 ∷ b3 ∷ b4 ∷ b5 ∷ [])) where
  or_bytes-eq :
      bit_or
        (bit_or
          (bit_or (bit_or (bit_or (b0 * 2 ^ 40) (b1 * 2 ^ 32)) (b2 * 2 ^ 24)) (b3 * 2 ^ 16))
          (b4 * 2 ^ 8))
        (b5 * 2 ^ 0)
      ≡ value_from 0 (b0 ∷ b1 ∷ b2 ∷ b3 ∷ b4 ∷ b5 ∷ [])
  unfolding value_from
  or_bytes-eq =
      or_shifted-eq b0 (b1 ∷ b2 ∷ b3 ∷ b4 ∷ b5 ∷ []) h.1
      ∙ ap (λ t. value_from t (b1 ∷ b2 ∷ b3 ∷ b4 ∷ b5 ∷ []))
          (let e : b0 ≡ 0 * 2 ^ 8 + b0 = omega arith in e)

  as_unsigned_integer-eq :
      as_unsigned_integer (from_byte_array b0 b1 b2 b3 b4 b5)
      ≡ value_from 0 (b0 ∷ b1 ∷ b2 ∷ b3 ∷ b4 ∷ b5 ∷ [])
  unfolding as_unsigned_integer from_byte_array
  as_unsigned_integer-eq =
      let s0 : b0 * 2 ^ 40 % 2 ^ 64 ≡ b0 * 2 ^ 40 = omega (arith, h.0) in
      let s1 : b1 * 2 ^ 32 % 2 ^ 64 ≡ b1 * 2 ^ 32 = omega (arith, h.1.0) in
      let s2 : b2 * 2 ^ 24 % 2 ^ 64 ≡ b2 * 2 ^ 24 = omega (arith, h.1.1.0) in
      let s3 : b3 * 2 ^ 16 % 2 ^ 64 ≡ b3 * 2 ^ 16 = omega (arith, h.1.1.1.0) in
      let s4 : b4 * 2 ^ 8 % 2 ^ 64 ≡ b4 * 2 ^ 8 = omega (arith, h.1.1.1.1.0) in
      let s5 : b5 * 2 ^ 0 % 2 ^ 64 ≡ b5 * 2 ^ 0 = omega (arith, h.1.1.1.1.1.0) in
      let below = value-lt (b0 ∷ b1 ∷ b2 ∷ b3 ∷ b4 ∷ b5 ∷ []) h in
      ap₂ (λ p q. bit_or p q % 2 ^ 64)
        (ap₂ bit_or (ap₂ bit_or (ap₂ bit_or (ap₂ bit_or s0 s1) s2) s3) s4) s5
      ∙ ap (λ t. t % 2 ^ 64) or_bytes-eq
      ∙ mod-eq_of_lt (omega (arith, below))

  bypass-as_unsigned_integer :
      from_unsigned_integer_bypass (as_unsigned_integer (from_byte_array b0 b1 b2 b3 b4 b5))
      ≡ from_byte_array b0 b1 b2 b3 b4 b5
  unfolding from_unsigned_integer_bypass from_byte_array from_bytes big_endian_bytes
  bypass-as_unsigned_integer =
      ap (λ t. from_bytes (big_endian_bytes 6 t)) as_unsigned_integer-eq
      ∙ ap from_bytes (bytes-value (b0 ∷ b1 ∷ b2 ∷ b3 ∷ b4 ∷ b5 ∷ []) h)

accepted : (a : ℕ) → a < 2 ^ 48 → from_unsigned_integer a ≡ done (from_unsigned_integer_bypass a)
unfolding from_unsigned_integer as_unsigned_integer max_address from_byte_array
accepted a h = ground arith

refused : (a : ℕ) → 2 ^ 48 ≤ a → from_unsigned_integer a ≡ fatal invalid_argument
unfolding from_unsigned_integer as_unsigned_integer max_address from_byte_array
refused a h = ground arith

value_back : (a : ℕ) → a < 2 ^ 48 → as_unsigned_integer (from_unsigned_integer_bypass a) ≡ a
unfolding from_unsigned_integer_bypass big_endian_bytes
value_back a h =
    as_unsigned_integer-eq (a / 2 ^ (5 * 8) % 2 ^ 8) (a / 2 ^ (4 * 8) % 2 ^ 8)
      (a / 2 ^ (3 * 8) % 2 ^ 8) (a / 2 ^ (2 * 8) % 2 ^ 8) (a / 2 ^ (1 * 8) % 2 ^ 8)
      (a / 2 ^ (0 * 8) % 2 ^ 8) (big_endian_bytes-IsBytes 6 a)
    ∙ value-bytes 6 0 a
    ∙ omega arith

-- Every 48-bit number makes an address whose unsigned integer it is; any larger number is the
-- fatal error of an invalid argument.
pub from_unsigned_integer_lem :
    (a : ℕ)
    → ((a < 2 ^ 48)
        × ((address : MacAddress) × (from_unsigned_integer a ≡ done address)
            × (as_unsigned_integer address ≡ a)))
      ⊎ ((2 ^ 48 ≤ a) × (from_unsigned_integer a ≡ fatal invalid_argument))
from_unsigned_integer_lem a = elim (dec_lt a (2 ^ 48)) [
  | yes h ↦ inl (h, (from_unsigned_integer_bypass a, accepted a h, value_back a h))
  | no h ↦ let large : 2 ^ 48 ≤ a = omega arith in inr (large, refused a large)
]

-- An address of any six bytes is what the constructor makes of its unsigned integer.
pub from_unsigned_integer-as_unsigned_integer_done :
    (b0 b1 b2 b3 b4 b5 : ℕ)
    → IsBytes (b0 ∷ b1 ∷ b2 ∷ b3 ∷ b4 ∷ b5 ∷ [])
    → from_unsigned_integer (as_unsigned_integer (from_byte_array b0 b1 b2 b3 b4 b5))
      ≡ done (from_byte_array b0 b1 b2 b3 b4 b5)
from_unsigned_integer-as_unsigned_integer_done b0 b1 b2 b3 b4 b5 h =
    accepted (as_unsigned_integer (from_byte_array b0 b1 b2 b3 b4 b5)) (
      omega (
        arith,
        as_unsigned_integer-eq b0 b1 b2 b3 b4 b5 h,
        value-lt (b0 ∷ b1 ∷ b2 ∷ b3 ∷ b4 ∷ b5 ∷ []) h,
      ))
    ∙ ap done (bypass-as_unsigned_integer b0 b1 b2 b3 b4 b5 h)

-- `<` orders the addresses of any six bytes by the first byte that differs.
pub less_than_iff-IsBefore_bytes :
    (x0 x1 x2 x3 x4 x5 y0 y1 y2 y3 y4 y5 : ℕ)
    → IsBytes (x0 ∷ x1 ∷ x2 ∷ x3 ∷ x4 ∷ x5 ∷ [])
    → IsBytes (y0 ∷ y1 ∷ y2 ∷ y3 ∷ y4 ∷ y5 ∷ [])
    → (less_than (from_byte_array x0 x1 x2 x3 x4 x5) (from_byte_array y0 y1 y2 y3 y4 y5) ≡ true)
      ↔ IsBefore (x0 ∷ x1 ∷ x2 ∷ x3 ∷ x4 ∷ x5 ∷ []) (y0 ∷ y1 ∷ y2 ∷ y3 ∷ y4 ∷ y5 ∷ [])
unfolding less_than
less_than_iff-IsBefore_bytes x0 x1 x2 x3 x4 x5 y0 y1 y2 y3 y4 y5 hx hy =
    let order =
      value-lt_iff-IsBefore (x0 ∷ x1 ∷ x2 ∷ x3 ∷ x4 ∷ x5 ∷ []) (y0 ∷ y1 ∷ y2 ∷ y3 ∷ y4 ∷ y5 ∷ [])
        refl hx hy in
    rw (as_unsigned_integer-eq x0 x1 x2 x3 x4 x5 hx, as_unsigned_integer-eq y0 y1 y2 y3 y4 y5 hy)
      (λ h. order.0 (ltb→lt _ _ h), λ b. lt→ltb _ _ (order.1 b))
