-- ===== src/Ipv4.antt =====
-- include/picolibrary/ipv4.h: `Address`. A byte array is the list of its four bytes.
pub mod Laws
mod Tests
use picolibrary.Common.{
  ℕ, ◌*◌, ◌/◌, ◌%◌, ◌^◌, Bool, not, ◌&&◌, bit_or, ltb, leb, ◌==◌, List, [], ◌∷◌, get_or,
}
use picolibrary.Algorithm.{equal}

pub record Ipv4Address : Type 0 where
  pub m_address : List ℕ

-- The constructor from a byte array.
unfoldable pub from_byte_array : ℕ → ℕ → ℕ → ℕ → Ipv4Address
from_byte_array b0 b1 b2 b3 = record { m_address = b0 ∷ b1 ∷ b2 ∷ b3 ∷ [] }

unfoldable pub min_address : Ipv4Address
unfolding from_byte_array
min_address = from_byte_array 0 0 0 0

unfoldable pub max_address : Ipv4Address
unfolding from_byte_array
max_address = from_byte_array 255 255 255 255

unfoldable pub any : Ipv4Address
unfolding from_byte_array
any = from_byte_array 0 0 0 0

unfoldable pub loopback : Ipv4Address
unfolding from_byte_array
loopback = from_byte_array 127 0 0 1

unfoldable pub broadcast : Ipv4Address
unfolding from_byte_array
broadcast = from_byte_array 255 255 255 255

-- The constructor from an unsigned integer.
unfoldable pub from_unsigned_integer : ℕ → Ipv4Address
unfolding from_byte_array
from_unsigned_integer address =
    from_byte_array (address / 2 ^ (3 * 8) % 2 ^ 8) (address / 2 ^ (2 * 8) % 2 ^ 8)
      (address / 2 ^ (1 * 8) % 2 ^ 8) (address / 2 ^ (0 * 8) % 2 ^ 8)

byte_at : Ipv4Address → ℕ → ℕ
byte_at a i = get_or a.m_address i 0

unfoldable pub is_any : Ipv4Address → Bool
unfolding any
is_any a = equal a.m_address any.m_address

unfoldable pub is_loopback : Ipv4Address → Bool
unfolding byte_at
is_loopback a = byte_at a 0 == 127

unfoldable pub is_broadcast : Ipv4Address → Bool
unfolding broadcast
is_broadcast a = equal a.m_address broadcast.m_address

unfoldable pub is_multicast : Ipv4Address → Bool
unfolding byte_at
is_multicast a = leb 224 (byte_at a 0) && leb (byte_at a 0) 239

unfoldable pub as_unsigned_integer : Ipv4Address → ℕ
unfolding byte_at
as_unsigned_integer a =
    bit_or
      (bit_or (bit_or (byte_at a 0 * 2 ^ (3 * 8) % 2 ^ 32) (byte_at a 1 * 2 ^ (2 * 8) % 2 ^ 32))
        (byte_at a 2 * 2 ^ (1 * 8) % 2 ^ 32))
      (byte_at a 3 * 2 ^ (0 * 8) % 2 ^ 32)
    % 2 ^ 32

unfoldable pub equals : Ipv4Address → Ipv4Address → Bool
equals lhs rhs = equal lhs.m_address rhs.m_address

unfoldable pub differs : Ipv4Address → Ipv4Address → Bool
unfolding equals
differs lhs rhs = not (equals lhs rhs)

unfoldable pub less_than : Ipv4Address → Ipv4Address → Bool
unfolding as_unsigned_integer
less_than lhs rhs = ltb (as_unsigned_integer lhs) (as_unsigned_integer rhs)

unfoldable pub greater_than : Ipv4Address → Ipv4Address → Bool
unfolding less_than
greater_than lhs rhs = less_than rhs lhs

unfoldable pub less_or_equal : Ipv4Address → Ipv4Address → Bool
unfolding greater_than
less_or_equal lhs rhs = not (greater_than lhs rhs)

unfoldable pub greater_or_equal : Ipv4Address → Ipv4Address → Bool
unfolding less_than
greater_or_equal lhs rhs = not (less_than lhs rhs)
