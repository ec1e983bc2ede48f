-- ===== src/I2c/Laws.antt =====
-- The two forms of an address against each other.
use picolibrary.Common.{
  ℕ, ◌*◌, ◌/◌, ◌%◌, ◌^◌, ◌<◌, ◌≡◌, refl, ◌∙◌, inl, inr, true, false, Bool-cases, ◌==◌, leb, leb→le,
  ltb, if◌then◌else◌, bit_and, arith,
}
use picolibrary.Common.Bits.{bit_and_mask}
use picolibrary.Expectation.{Checked, done, fatal, invalid_argument, ◌>>=◌}
use picolibrary.I2c.{
  AddressNumeric, AddressTransmitted, numeric_as_unsigned_integer, transmitted_as_unsigned_integer,
  address_numeric, address_transmitted, numeric_from_transmitted, transmitted_from_numeric,
  numeric_less_than, transmitted_less_than,
}

-- What is made of a number, taken to the other class by its number and back.
abbrev pub numeric_round_trip : ℕ → Checked AddressNumeric
numeric_round_trip n = address_numeric n >>= λ a.
    address_transmitted (transmitted_as_unsigned_integer (transmitted_from_numeric a)) >>= λ t.
    done (numeric_from_transmitted t)

abbrev pub transmitted_round_trip : ℕ → Checked AddressTransmitted
transmitted_round_trip n = address_transmitted n >>= λ t.
    address_numeric (numeric_as_unsigned_integer (numeric_from_transmitted t)) >>= λ a.
    done (transmitted_from_numeric a)

numeric_back :
    (n : ℕ)
    → numeric_round_trip n
      ≡ (if leb n 127 then done (record { m_address = n }) else fatal invalid_argument)
unfolding address_numeric address_transmitted transmitted_from_numeric numeric_from_transmitted
    transmitted_as_unsigned_integer numeric_as_unsigned_integer
numeric_back n = elim (Bool-cases (leb n 127)) [
  | inl t ↦
      let low = leb→le n 127 t in
      let plain : n * 2 % 256 ≡ n * 2 = omega arith in
      let even : bit_and (n * 2) 1 ≡ 0 = bit_and_mask 1 (n * 2) ∙ omega arith in
      let half : n * 2 / 2 ≡ n = omega arith in rw (t, plain, even, half) refl
  | inr t ↦ rw t refl
]

transmitted_back :
    (n : ℕ)
    → n < 2 ^ 8
    → transmitted_round_trip n
      ≡ (if n % 2 == 0 then done (record { m_address = n }) else fatal invalid_argument)
unfolding address_numeric address_transmitted transmitted_from_numeric numeric_from_transmitted
    transmitted_as_unsigned_integer numeric_as_unsigned_integer
transmitted_back n h = elim (Bool-cases (bit_and n 1 == 0)) [
  | inl t ↦
      let low : bit_and n 1 ≡ n % 2 = bit_and_mask 1 n in
      let even : (n % 2 == 0) ≡ true = ground arith in
      let none_left : n % 2 ≡ 0 = ground arith in
      let fits : leb (n / 2) 127 ≡ true = ground arith in
      let whole : n / 2 * 2 % 256 ≡ n = omega arith in rw (t, even, fits, whole) refl
  | inr t ↦
      let low : bit_and n 1 ≡ n % 2 = bit_and_mask 1 n in
      let odd : (n % 2 == 0) ≡ false = ground arith in rw (t, odd) refl
]

-- For any byte, making a numeric address of it, taking that to the transmitted form by its number
-- and back yields the address of that number if it is at most 127, and otherwise the fatal error
-- `invalid_argument`; with the two forms exchanged it yields the address of that byte if its
-- lowest bit is clear, and otherwise the fatal error `invalid_argument`; and for any two numbers
-- of seven bits, `<` of their addresses is `<` of the numbers in either form.
pub address_lem :
    (m k n : ℕ)
    → m < 2 ^ 7
    → k < 2 ^ 7
    → n < 2 ^ 8
    → (numeric_round_trip n
        ≡ (if leb n 127 then done (record { m_address = n }) else fatal invalid_argument))
      × ((transmitted_round_trip n
            ≡ (if n % 2 == 0 then done (record { m_address = n }) else fatal invalid_argument))
          × ((transmitted_less_than
                  (transmitted_from_numeric (record { m_address = m }))
                  (transmitted_from_numeric (record { m_address = k }))
                ≡ ltb m k)
              × (numeric_less_than (record { m_address = m }) (record { m_address = k })
                  ≡ ltb m k)))
unfolding transmitted_less_than numeric_less_than transmitted_from_numeric
    transmitted_as_unsigned_integer numeric_as_unsigned_integer
address_lem m k n h l g =
    let one : m * 2 % 256 ≡ m * 2 = omega arith in
    let two : k * 2 % 256 ≡ k * 2 = omega arith in
    (numeric_back n, (transmitted_back n g, (rw (one, two) (ground arith), refl)))
