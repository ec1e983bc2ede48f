-- ===== src/Ipv4/Tests.antt =====
-- The addresses 192.168.1.9 and 192.168.2.0.
use picolibrary.Common.{[], ◌∷◌, ◌≡◌, ◌↔◌, true, refl, arith}
use picolibrary.Common.BigEndian.{IsBefore}
use picolibrary.Ipv4.{
  from_byte_array, from_unsigned_integer, as_unsigned_integer, less_than, is_multicast,
}
use picolibrary.Ipv4.Laws.{
  from_unsigned_integer-as_unsigned_integer, as_unsigned_integer-from_unsigned_integer,
  less_than_iff-IsBefore,
}

mdns_is_multicast : is_multicast (from_byte_array 224 0 0 251) ≡ true
unfolding is_multicast from_byte_array
mdns_is_multicast = refl

from_unsigned_integer-as_unsigned_integer_example :
    from_unsigned_integer (as_unsigned_integer (from_byte_array 192 168 1 9))
    ≡ from_byte_array 192 168 1 9
from_unsigned_integer-as_unsigned_integer_example =
    from_unsigned_integer-as_unsigned_integer 192 168 1 9
      (omega arith, (omega arith, (omega arith, (omega arith, tt))))

as_unsigned_integer-from_unsigned_integer_example :
    as_unsigned_integer (from_unsigned_integer 0xc0a80109) ≡ 0xc0a80109
as_unsigned_integer-from_unsigned_integer_example =
    as_unsigned_integer-from_unsigned_integer 0xc0a80109 (omega arith)

less_than_iff-IsBefore_example :
    (less_than (from_byte_array 192 168 1 9) (from_byte_array 192 168 2 0) ≡ true)
    ↔ IsBefore (192 ∷ 168 ∷ 1 ∷ 9 ∷ []) (192 ∷ 168 ∷ 2 ∷ 0 ∷ [])
less_than_iff-IsBefore_example =
    less_than_iff-IsBefore 192 168 1 9 192 168 2 0
      (omega arith, (omega arith, (omega arith, (omega arith, tt))))
      (omega arith, (omega arith, (omega arith, (omega arith, tt))))
