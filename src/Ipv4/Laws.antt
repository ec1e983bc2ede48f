-- ===== src/Ipv4/Laws.antt =====
-- IPv4 addresses against their unsigned integers, and their order.
use native.Mathlib.Nat.{mod-eq_of_lt}
use picolibrary.Common.{
  ℕ, ◌+◌, ◌*◌, ◌/◌, ◌%◌, ◌^◌, ◌<◌, ◌≡◌, ◌↔◌, refl, ap, ap₂, ◌∙◌, true, bit_or, List, [], ◌∷◌,
  ltb→lt, lt→ltb, arith,
}
use picolibrary.Common.BigEndian.{
  IsBytes, value_from, big_endian_bytes, value-bytes, bytes-value, IsBefore, value-lt_iff-IsBefore,
  or_shifted-eq, value-lt, big_endian_bytes-IsBytes,
}
use picolibrary.Ipv4.{
  Ipv4Address, from_byte_array, from_unsigned_integer, as_unsigned_integer, less_than,
}

from_bytes : List ℕ → Ipv4Address
from_bytes bytes = record { m_address = bytes }

module _ (b0 b1 b2 b3 : ℕ) (h : IsBytes (b0 ∷ b1 ∷ b2 ∷ b3 ∷ [])) where
  or_bytes-eq :
      bit_or (bit_or (bit_or (b0 * 2 ^ 24) (b1 * 2 ^ 16)) (b2 * 2 ^ 8)) (b3 * 2 ^ 0)
      ≡ value_from 0 (b0 ∷ b1 ∷ b2 ∷ b3 ∷ [])
  unfolding value_from
  or_bytes-eq =
      or_shifted-eq b0 (b1 ∷ b2 ∷ b3 ∷ []) h.1
      ∙ ap (λ t. value_from t (b1 ∷ b2 ∷ b3 ∷ [])) (let e : b0 ≡ 0 * 2 ^ 8 + b0 = omega arith in e)

  as_unsigned_integer-eq :
      as_unsigned_integer (from_byte_array b0 b1 b2 b3) ≡ value_from 0 (b0 ∷ b1 ∷ b2 ∷ b3 ∷ [])
  unfolding as_unsigned_integer from_byte_array
  as_unsigned_integer-eq =
      let s0 : b0 * 2 ^ 24 % 2 ^ 32 ≡ b0 * 2 ^ 24 = omega (arith, h.0) in
      let s1 : b1 * 2 ^ 16 % 2 ^ 32 ≡ b1 * 2 ^ 16 = omega (arith, h.1.0) in
      let s2 : b2 * 2 ^ 8 % 2 ^ 32 ≡ b2 * 2 ^ 8 = omega (arith, h.1.1.0) in
      let s3 : b3 * 2 ^ 0 % 2 ^ 32 ≡ b3 * 2 ^ 0 = omega (arith, h.1.1.1.0) in
      ap₂ (λ p q. bit_or p q % 2 ^ 32) (ap₂ bit_or (ap₂ bit_or s0 s1) s2) s3
      ∙ ap (λ t. t % 2 ^ 32) or_bytes-eq
      ∙ mod-eq_of_lt (value-lt (b0 ∷ b1 ∷ b2 ∷ b3 ∷ []) h)

  -- The address that is made of an address's unsigned integer is that address, for any four bytes.
  pub from_unsigned_integer-as_unsigned_integer :
      from_unsigned_integer (as_unsigned_integer (from_byte_array b0 b1 b2 b3))
      ≡ from_byte_array b0 b1 b2 b3
  unfolding from_unsigned_integer from_byte_array from_bytes big_endian_bytes
  from_unsigned_integer-as_unsigned_integer =
      ap (λ t. from_bytes (big_endian_bytes 4 t)) as_unsigned_integer-eq
      ∙ ap from_bytes (bytes-value (b0 ∷ b1 ∷ b2 ∷ b3 ∷ []) h)

-- Every 32-bit number is the unsigned integer of the address that is made of it.
pub as_unsigned_integer-from_unsigned_integer :
    (a : ℕ) → a < 2 ^ 32 → as_unsigned_integer (from_unsigned_integer a) ≡ a
unfolding from_unsigned_integer big_endian_bytes
as_unsigned_integer-from_unsigned_integer a h =
    as_unsigned_integer-eq (a / 2 ^ (3 * 8) % 2 ^ 8) (a / 2 ^ (2 * 8) % 2 ^ 8)
      (a / 2 ^ (1 * 8) % 2 ^ 8) (a / 2 ^ (0 * 8) % 2 ^ 8) (big_endian_bytes-IsBytes 4 a)
    ∙ value-bytes 4 0 a
    ∙ omega arith

-- `<` orders the addresses of any four bytes by the first byte that differs.
pub less_than_iff-IsBefore :
    (x0 x1 x2 x3 y0 y1 y2 y3 : ℕ)
    → IsBytes (x0 ∷ x1 ∷ x2 ∷ x3 ∷ [])
    → IsBytes (y0 ∷ y1 ∷ y2 ∷ y3 ∷ [])
    → ((less_than (from_byte_array x0 x1 x2 x3) (from_byte_array y0 y1 y2 y3) ≡ true)
        ↔ IsBefore (x0 ∷ x1 ∷ x2 ∷ x3 ∷ []) (y0 ∷ y1 ∷ y2 ∷ y3 ∷ []))
unfolding less_than
less_than_iff-IsBefore x0 x1 x2 x3 y0 y1 y2 y3 hx hy =
    let order =
      value-lt_iff-IsBefore (x0 ∷ x1 ∷ x2 ∷ x3 ∷ []) (y0 ∷ y1 ∷ y2 ∷ y3 ∷ []) refl hx hy in
    rw (as_unsigned_integer-eq x0 x1 x2 x3 hx, as_unsigned_integer-eq y0 y1 y2 y3 hy)
      (λ h. order.0 (ltb→lt _ _ h), λ b. lt→ltb _ _ (order.1 b))
