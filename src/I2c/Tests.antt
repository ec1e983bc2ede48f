-- ===== src/I2c/Tests.antt =====
-- The addresses of two devices, and a byte that is neither kind of address.
use picolibrary.Common.{◌≡◌, ◌%◌, ◌==◌, leb, ltb, if◌then◌else◌, refl, arith}
use picolibrary.Expectation.{done, fatal, invalid_argument}
use picolibrary.I2c.{
  address_transmitted, transmitted_from_numeric, numeric_less_than, transmitted_less_than,
}
use picolibrary.I2c.Laws.{numeric_round_trip, transmitted_round_trip, address_lem}

address_lem_example :
    (numeric_round_trip 0xb1
      ≡ (if leb 0xb1 127 then done (record { m_address = 0xb1 }) else fatal invalid_argument))
    × ((transmitted_round_trip 0xb1
          ≡ (if 0xb1 % 2 == 0 then done (record { m_address = 0xb1 }) else fatal invalid_argument))
        × ((transmitted_less_than
                (transmitted_from_numeric (record { m_address = 0x21 }))
                (transmitted_from_numeric (record { m_address = 0x70 }))
              ≡ ltb 0x21 0x70)
            × (numeric_less_than (record { m_address = 0x21 }) (record { m_address = 0x70 })
                ≡ ltb 0x21 0x70)))
address_lem_example = address_lem 0x21 0x70 0xb1 (omega arith) (omega arith) (omega arith)

odd_byte : address_transmitted 0x41 ≡ fatal invalid_argument
unfolding address_transmitted
odd_byte = refl
