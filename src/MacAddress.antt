-- ===== src/MacAddress.antt =====
-- include/picolibrary/mac_address.h. A byte array is the list of its six bytes, and a formatted
-- address the list of its characters' codes.
pub mod Laws
pub mod Format
mod Tests
use picolibrary.Common.{
  ℕ, ◌+◌, ◌-◌, ◌*◌, ◌/◌, ◌%◌, ◌^◌, Bool, not, bit_and, bit_or, ltb, leb, ◌==◌, if◌then◌else◌, List,
  [], ◌∷◌, get_or, set, replicate,
}
use picolibrary.Expectation.{Checked, done, ◌>>=◌, ◌>>◌, expect, invalid_argument}
use picolibrary.BitManipulation.{mask}
use picolibrary.Algorithm.{equal}

pub record MacAddress : Type 0 where
  pub m_address : List ℕ

-- The constructor from a byte array.
unfoldable pub from_byte_array : ℕ → ℕ → ℕ → ℕ → ℕ → ℕ → MacAddress
from_byte_array b0 b1 b2 b3 b4 b5 = record { m_address = b0 ∷ b1 ∷ b2 ∷ b3 ∷ b4 ∷ b5 ∷ [] }

unfoldable pub min_address : MacAddress
unfolding from_byte_array
min_address = from_byte_array 0 0 0 0 0 0

unfoldable pub max_address : MacAddress
unfolding from_byte_array
max_address = from_byte_array 0xff 0xff 0xff 0xff 0xff 0xff

byte_at : MacAddress → ℕ → ℕ
byte_at a i = get_or a.m_address i 0

-- `Unsigned_Integer` is `std::uint_fast64_t`, of 64 bits.
unfoldable pub as_unsigned_integer : MacAddress → ℕ
unfolding byte_at
as_unsigned_integer a =
    bit_or
      (bit_or
        (bit_or
          (bit_or (bit_or (byte_at a 0 * 2 ^ (5 * 8) % 2 ^ 64) (byte_at a 1 * 2 ^ (4 * 8) % 2 ^ 64))
            (byte_at a 2 * 2 ^ (3 * 8) % 2 ^ 64))
          (byte_at a 3 * 2 ^ (2 * 8) % 2 ^ 64))
        (byte_at a 4 * 2 ^ (1 * 8) % 2 ^ 64))
      (byte_at a 5 * 2 ^ (0 * 8) % 2 ^ 64)
    % 2 ^ 64

-- The constructor from an unsigned integer that bypasses the expectation.
unfoldable pub from_unsigned_integer_bypass : ℕ → MacAddress
unfolding from_byte_array
from_unsigned_integer_bypass address =
    from_byte_array (address / 2 ^ (5 * 8) % 2 ^ 8) (address / 2 ^ (4 * 8) % 2 ^ 8)
      (address / 2 ^ (3 * 8) % 2 ^ 8) (address / 2 ^ (2 * 8) % 2 ^ 8)
      (address / 2 ^ (1 * 8) % 2 ^ 8) (address / 2 ^ (0 * 8) % 2 ^ 8)

unfoldable pub from_unsigned_integer : ℕ → Checked MacAddress
unfolding from_unsigned_integer_bypass as_unsigned_integer max_address
from_unsigned_integer address = do
  expect (leb address (as_unsigned_integer max_address)) invalid_argument
  done (from_unsigned_integer_bypass address)

abbrev ig_mask : ℕ
ig_mask = mask 8 1 0

abbrev ul_mask : ℕ
ul_mask = mask 8 1 (0 + 1)

unfoldable pub is_locally_administered : MacAddress → Bool
unfolding byte_at
is_locally_administered a = not (bit_and (byte_at a 0) ul_mask == 0)

unfoldable pub is_universally_administered : MacAddress → Bool
unfolding is_locally_administered
is_universally_administered a = not (is_locally_administered a)

unfoldable pub is_multicast : MacAddress → Bool
unfolding byte_at
is_multicast a = not (bit_and (byte_at a 0) ig_mask == 0)

unfoldable pub is_unicast : MacAddress → Bool
unfolding is_multicast
is_unicast a = not (is_multicast a)

unfoldable pub equals : MacAddress → MacAddress → Bool
equals lhs rhs = equal lhs.m_address rhs.m_address

unfoldable pub differs : MacAddress → MacAddress → Bool
unfolding equals
differs lhs rhs = not (equals lhs rhs)

unfoldable pub less_than : MacAddress → MacAddress → Bool
unfolding as_unsigned_integer
less_than lhs rhs = ltb (as_unsigned_integer lhs) (as_unsigned_integer rhs)

unfoldable pub greater_than : MacAddress → MacAddress → Bool
unfolding less_than
greater_than lhs rhs = less_than rhs lhs

unfoldable pub less_or_equal : MacAddress → MacAddress → Bool
unfolding greater_than
less_or_equal lhs rhs = not (greater_than lhs rhs)

unfoldable pub greater_or_equal : MacAddress → MacAddress → Bool
unfolding less_than
greater_or_equal lhs rhs = not (less_than lhs rhs)

-- '0' has the code 48 and 'A' the code 65.
unfoldable pub nibble_character : ℕ → ℕ
nibble_character nibble = if ltb nibble 0xa then 48 + nibble else 65 + (nibble - 0xa)

-- `formatted_address` and the position `i` in it.
abbrev pub Cursor : Type 0
Cursor = List ℕ × ℕ

abbrev formatted_address_size : ℕ
formatted_address_size = 6 * 2 + (6 - 1)

unfoldable pub put_character : Cursor → ℕ → Cursor
put_character (formatted, i) character = (set formatted i character, i + 1)

-- The body of the loop over the bytes. '-' has the code 45.
unfoldable pub format_byte : Cursor → ℕ → Cursor
unfolding put_character nibble_character
format_byte cursor byte =
    let high = put_character cursor (nibble_character (byte / 2 ^ 4)) in
    let low = put_character high (nibble_character (bit_and byte 0xf)) in
    if low.1 == formatted_address_size then low else put_character low 45

unfoldable pub format_bytes : Cursor → List ℕ → Cursor
unfolding format_byte
format_bytes cursor [] = cursor
format_bytes cursor (byte ∷ bytes) = format_bytes (format_byte cursor byte) bytes

unfoldable pub format : MacAddress → List ℕ
unfolding format_bytes
format address = (format_bytes (replicate formatted_address_size 0, 0) address.m_address).0
