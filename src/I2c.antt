-- ===== src/I2c.antt =====
-- include/picolibrary/i2c.h: the addresses of devices, as a number of seven bits and as the byte
-- that is transmitted, with the operation bit clear. `numeric` and `transmitted` in a name tell the
-- two classes apart.
pub mod Laws
mod Tests
use picolibrary.Common.{ℕ, ◌*◌, ◌/◌, ◌%◌, ◌^◌, Bool, not, ◌==◌, ltb, leb, bit_and}
use picolibrary.Expectation.{Checked, done, ◌>>=◌, ◌>>◌, expect, invalid_argument}

pub record AddressNumeric : Type 0 where
  pub m_address : ℕ

pub record AddressTransmitted : Type 0 where
  pub m_address : ℕ

abbrev pub max_numeric : AddressNumeric
max_numeric = record { m_address = 0b1111111 }

unfoldable pub numeric_as_unsigned_integer : AddressNumeric → ℕ
numeric_as_unsigned_integer address = address.m_address

unfoldable pub transmitted_as_unsigned_integer : AddressTransmitted → ℕ
transmitted_as_unsigned_integer address = address.m_address

unfoldable pub address_numeric : ℕ → Checked AddressNumeric
unfolding numeric_as_unsigned_integer
address_numeric address = do
  expect (leb address (numeric_as_unsigned_integer max_numeric)) invalid_argument
  done (record { m_address = address })

unfoldable pub address_transmitted : ℕ → Checked AddressTransmitted
address_transmitted address = do
  expect (bit_and address 0b1 == 0) invalid_argument
  done (record { m_address = address })

-- The constructors of each class from the other.
unfoldable pub numeric_from_transmitted : AddressTransmitted → AddressNumeric
unfolding transmitted_as_unsigned_integer
numeric_from_transmitted address = record {
  m_address = transmitted_as_unsigned_integer address / 2;
}

unfoldable pub transmitted_from_numeric : AddressNumeric → AddressTransmitted
unfolding numeric_as_unsigned_integer
transmitted_from_numeric address = record {
  m_address = numeric_as_unsigned_integer address * 2 % 2 ^ 8;
}

unfoldable pub numeric_less_than : AddressNumeric → AddressNumeric → Bool
unfolding numeric_as_unsigned_integer
numeric_less_than lhs rhs = ltb (numeric_as_unsigned_integer lhs) (numeric_as_unsigned_integer rhs)

unfoldable pub transmitted_less_than : AddressTransmitted → AddressTransmitted → Bool
unfolding transmitted_as_unsigned_integer
transmitted_less_than lhs rhs =
    ltb (transmitted_as_unsigned_integer lhs) (transmitted_as_unsigned_integer rhs)
