-- ===== src/MacAddress/Tests.antt =====
-- The addresses 00-08-DC-01-02-03 and 00-08-DC-01-02-FE.
use picolibrary.Common.{◌⊎◌, ◌^◌, ◌≤◌, ◌<◌, [], ◌∷◌, ◌≡◌, ◌↔◌, true, some, length, arith}
use picolibrary.Common.BigEndian.{IsBytes, IsBefore}
use picolibrary.Expectation.{done, fatal, invalid_argument}
use picolibrary.MacAddress.{
  MacAddress, from_byte_array, from_unsigned_integer, as_unsigned_integer, less_than, format,
}
use picolibrary.MacAddress.Laws.{
  from_unsigned_integer_lem, from_unsigned_integer-as_unsigned_integer_done,
  less_than_iff-IsBefore_bytes,
}
use picolibrary.MacAddress.Format.{read_address, read_address-format}

first-IsBytes : IsBytes (0x00 ∷ 0x08 ∷ 0xdc ∷ 0x01 ∷ 0x02 ∷ 0x03 ∷ [])
first-IsBytes =
    (omega arith, (omega arith, (omega arith, (omega arith, (omega arith, (omega arith, tt))))))

second-IsBytes : IsBytes (0x00 ∷ 0x08 ∷ 0xdc ∷ 0x01 ∷ 0x02 ∷ 0xfe ∷ [])
second-IsBytes =
    (omega arith, (omega arith, (omega arith, (omega arith, (omega arith, (omega arith, tt))))))

from_unsigned_integer_lem_example :
    ((0x8dc010203 < 2 ^ 48)
      × ((address : MacAddress) × (from_unsigned_integer 0x8dc010203 ≡ done address)
          × (as_unsigned_integer address ≡ 0x8dc010203)))
    ⊎ ((2 ^ 48 ≤ 0x8dc010203) × (from_unsigned_integer 0x8dc010203 ≡ fatal invalid_argument))
from_unsigned_integer_lem_example = from_unsigned_integer_lem 0x8dc010203

from_unsigned_integer-as_unsigned_integer_done_example :
    from_unsigned_integer (as_unsigned_integer (from_byte_array 0x00 0x08 0xdc 0x01 0x02 0x03))
    ≡ done (from_byte_array 0x00 0x08 0xdc 0x01 0x02 0x03)
from_unsigned_integer-as_unsigned_integer_done_example =
    from_unsigned_integer-as_unsigned_integer_done 0x00 0x08 0xdc 0x01 0x02 0x03 first-IsBytes

less_than_iff-IsBefore_bytes_example :
    (less_than
        (from_byte_array 0x00 0x08 0xdc 0x01 0x02 0x03)
        (from_byte_array 0x00 0x08 0xdc 0x01 0x02 0xfe)
      ≡ true)
    ↔ IsBefore
        (0x00 ∷ 0x08 ∷ 0xdc ∷ 0x01 ∷ 0x02 ∷ 0x03 ∷ [])
        (0x00 ∷ 0x08 ∷ 0xdc ∷ 0x01 ∷ 0x02 ∷ 0xfe ∷ [])
less_than_iff-IsBefore_bytes_example =
    less_than_iff-IsBefore_bytes 0x00 0x08 0xdc 0x01 0x02 0x03 0x00 0x08 0xdc 0x01 0x02 0xfe
      first-IsBytes second-IsBytes

read_address-format_example :
    (length (format (from_byte_array 0x00 0x08 0xdc 0x01 0x02 0xfe)) ≡ 17)
    × (read_address (format (from_byte_array 0x00 0x08 0xdc 0x01 0x02 0xfe))
        ≡ some (0x00 ∷ 0x08 ∷ 0xdc ∷ 0x01 ∷ 0x02 ∷ 0xfe ∷ []))
read_address-format_example = read_address-format 0x00 0x08 0xdc 0x01 0x02 0xfe second-IsBytes
