-- ===== src/Crc/Remainder.antt =====
-- The bitwise loop against the division of polynomials over two elements: a number stands for the
-- polynomial whose coefficients are its bits, so `^` adds and a shift multiplies by a power of x.
use native.Mathlib.Nat.{pow-suc, mod-lt, mod-eq_of_lt, mul-le-mul_right, div-add-mod'}
use picolibrary.Common.{
  ℕ, zero, suc, ◌+◌, ◌*◌, ◌/◌, ◌%◌, ◌^◌, ◌<◌, ◌≡◌, refl, sym, ap, ap₂, ◌∙◌, Bool, bit_and, bit_xor,
  List, [], ◌∷◌, ◌++◌, arith,
}
use picolibrary.Common.Bits.{
  bit_xor_exchange, bit_xor_fields, bit_xor_self, bit_xor-zero, bit_xor_assoc, bit_xor-shift_left,
  zero-bit_xor,
}
use picolibrary.Common.Modular.{two-pow-pos, mul-two-pow-suc, mod-two-pow-suc}
use picolibrary.Crc.{CalculationParameters, input_processor, output_processor, message_augment}
use picolibrary.Crc.Bitwise.{bitwise_calculator, feed_bit, feed_bits, feed, calculate}
use picolibrary.Crc.Step.{feed_bit-eq, feed_bit-lt, top-lt}
use picolibrary.Crc.Chunk.{bit_at, bit_at-lt, feed_bits-lt}
use picolibrary.Crc.Feed.{IsMessage, IsMessage-replicate, input_processor-lt, feed-lt}

-- The product of `divisor` with the polynomial whose coefficients, highest first, are `quotient`,
-- added to what `sum` becomes when it is shifted past them.
unfoldable pub add_product : ℕ → ℕ → List ℕ → ℕ
add_product divisor sum [] = sum
add_product divisor sum (t ∷ quotient) =
    add_product divisor (bit_xor (sum * 2) (t * divisor)) quotient

unfoldable pub product : ℕ → List ℕ → ℕ
product divisor quotient = add_product divisor 0 quotient

-- The bytes of a message, each reflected where the parameters say so, as one number, the first
-- byte highest.
unfoldable pub message_value : Bool → ℕ → List ℕ → ℕ
message_value reflected value [] = value
message_value reflected value (byte ∷ bytes) =
    message_value reflected (value * 2 ^ 8 + input_processor reflected byte) bytes

abbrev pub IsBits : List ℕ → Type 0
IsBits [] = Unit
IsBits (t ∷ bits) = (t < 2) × IsBits bits

module _ (v polynomial : ℕ) (fits : polynomial < 2 ^ suc v) where
  -- One round is one step of the long division.
  step_divides :
      (b r : ℕ)
      → b < 2
      → r < 2 ^ suc v
      → bit_xor (r / 2 ^ v * (2 ^ suc v + polynomial)) (feed_bit (suc v) polynomial b r) ≡ r * 2 + b
  step_divides b r hb hr =
      ap₂ bit_xor multiple (feed_bit-eq v polynomial fits b r hb hr)
      ∙ bit_xor_exchange (t * 2 ^ suc v) (t * polynomial) shifted (t * polynomial)
      ∙ ap (bit_xor (bit_xor (t * 2 ^ suc v) shifted)) (bit_xor_self (t * polynomial))
      ∙ bit_xor-zero (bit_xor (t * 2 ^ suc v) shifted)
      ∙ bit_xor_fields (suc v) t shifted shifted-lt
      ∙ omega (arith, mul-two-pow-suc t v, div-add-mod' r (2 ^ v))
    where
      t : ℕ
      t = r / 2 ^ v

      shifted : ℕ
      shifted = r % 2 ^ v * 2 + b

      shifted-lt : r % 2 ^ v * 2 + b < 2 ^ suc v
      shifted-lt = omega (arith, pow-suc 2 v, mod-lt r (two-pow-pos v))

      term-lt : r / 2 ^ v * polynomial < 2 ^ suc v
      term-lt = omega (
        arith,
        mul-le-mul_right {m = r / 2 ^ v} {n = 1} polynomial (omega (arith, top-lt v r hr)),
      )

      multiple :
          r / 2 ^ v * (2 ^ suc v + polynomial)
          ≡ bit_xor (r / 2 ^ v * 2 ^ suc v) (r / 2 ^ v * polynomial)
      multiple = omega (arith, bit_xor_fields (suc v) (r / 2 ^ v) (r / 2 ^ v * polynomial) term-lt)

  -- A round moves the dividend on by the input bit.
  dividend_moves :
      (b sum r : ℕ)
      → b < 2
      → r < 2 ^ suc v
      → bit_xor
          (bit_xor (sum * 2) (r / 2 ^ v * (2 ^ suc v + polynomial)))
          (feed_bit (suc v) polynomial b r)
        ≡ bit_xor sum r * 2 + b
  dividend_moves b sum r hb hr =
      bit_xor_assoc (sum * 2) (r / 2 ^ v * (2 ^ suc v + polynomial)) _
      ∙ ap (bit_xor (sum * 2)) (step_divides b r hb hr ∙ sym (bit_xor_fields 1 r b hb))
      ∙ sym (bit_xor_assoc (sum * 2) (r * 2) b)
      ∙ ap (λ s. bit_xor s b) (bit_xor-shift_left 1 sum r)
      ∙ bit_xor_fields 1 (bit_xor sum r) b hb

  rounds_divide :
      (k x sum r : ℕ)
      → r < 2 ^ suc v
      → (quotient : List ℕ) × IsBits quotient
        × (bit_xor
              (add_product (2 ^ suc v + polynomial) sum quotient)
              (feed_bits (suc v) polynomial k x r)
            ≡ bit_xor sum r * 2 ^ k + x % 2 ^ k)
  unfolding feed_bits add_product
  rounds_divide zero x sum r hr = ([], tt, omega arith)
  rounds_divide (suc k) x sum r hr =
      let b = bit_and (x / 2 ^ k) 1 in
      let t = r / 2 ^ v in
      let (quotient, bits, divides) =
        rounds_divide k x (bit_xor (sum * 2) (t * (2 ^ suc v + polynomial)))
          (feed_bit (suc v) polynomial b r)
          (feed_bit-lt v polynomial fits b r (bit_at-lt k x) hr) in
      (
        t ∷ quotient,
        (top-lt v r hr, bits),
        divides
            ∙ ap (λ s. s * 2 ^ k + x % 2 ^ k) (dividend_moves b sum r (bit_at-lt k x) hr)
            ∙ omega (
              arith,
              mul-two-pow-suc (bit_xor sum r) k,
              ap (λ (s : ℕ). s * 2 ^ k) (bit_at k x),
              mod-two-pow-suc k x,
            ),
      )

add_product-append :
    (divisor sum : ℕ) (q s : List ℕ)
    → add_product divisor sum (q ++ s) ≡ add_product divisor (add_product divisor sum q) s
unfolding add_product
add_product-append divisor sum [] s = refl
add_product-append divisor sum (t ∷ q) s =
    add_product-append divisor (bit_xor (sum * 2) (t * divisor)) q s

IsBits-append : (q s : List ℕ) → IsBits q → IsBits s → IsBits (q ++ s)
IsBits-append [] s hq hs = hs
IsBits-append (t ∷ q) s hq hs = (hq.0, IsBits-append q s hq.1 hs)

IsMessage-append : (m n : List ℕ) → IsMessage m → IsMessage n → IsMessage (m ++ n)
IsMessage-append [] n hm hn = hn
IsMessage-append (x ∷ m) n hm hn = (hm.0, IsMessage-append m n hm.1 hn)

module _ (v : ℕ) (p : CalculationParameters) (fits : p.polynomial < 2 ^ suc v) where
  feed_divides :
      (m : List ℕ) (sum r : ℕ)
      → IsMessage m
      → r < 2 ^ suc v
      → (quotient : List ℕ) × IsBits quotient
        × (bit_xor
              (add_product (2 ^ suc v + p.polynomial) sum quotient)
              (feed (suc v) (bitwise_calculator (suc v) p) r m)
            ≡ message_value p.input_is_reflected (bit_xor sum r) m)
  unfolding feed bitwise_calculator message_value
  feed_divides [] sum r hm hr = ([], tt, unfold add_product in refl)
  feed_divides (x ∷ m) sum r hm hr =
      let byte = input_processor p.input_is_reflected x in
      let divisor = 2 ^ suc v + p.polynomial in
      let (q, q_bits, head) = rounds_divide v p.polynomial fits 8 byte sum r hr in
      let (s, s_bits, rest) =
        feed_divides m (add_product divisor sum q) (feed_bits (suc v) p.polynomial 8 byte r) hm.1
          (feed_bits-lt v p.polynomial fits 8 byte r hr) in
      (
        q ++ s,
        IsBits-append q s q_bits s_bits,
        ap
              (λ z. bit_xor z (
                feed (suc v) (bitwise_calculator (suc v) p)
                  (feed_bits (suc v) p.polynomial 8 byte r) m))
              (add_product-append divisor sum q s)
            ∙ rest
            ∙ ap (λ z. message_value p.input_is_reflected z m)
                (head
                  ∙ ap (λ z. bit_xor sum r * 2 ^ 8 + z)
                      (mod-eq_of_lt (input_processor-lt p.input_is_reflected x hm.0))),
      )

  feed-append :
      (m n : List ℕ) (r : ℕ)
      → feed (suc v) (bitwise_calculator (suc v) p) r (m ++ n)
        ≡ feed
            (suc v)
            (bitwise_calculator (suc v) p)
            (feed (suc v) (bitwise_calculator (suc v) p) r m)
            n
  unfolding feed
  feed-append [] n r = refl
  feed-append (x ∷ m) n r = feed-append m n _

  -- For any register of at least one bit, parameters whose polynomial and initial remainder are
  -- values of it, and any message of bytes, the bitwise calculator's `calculate` returns, after
  -- the output processing and the final exclusive or, a remainder of degree below that of the
  -- divisor: the divisor, x ^ digits plus the polynomial, has a multiple that differs by this
  -- remainder from the message, its bytes reflected as the parameters say, with the initial
  -- remainder before it and the augment behind it.
  pub calculate_lem :
      (m : List ℕ)
      → IsMessage m
      → p.initial_remainder < 2 ^ suc v
      → (quotient : List ℕ) × (remainder : ℕ) × IsBits quotient
        × (remainder < 2 ^ suc v)
        × (bit_xor (product (2 ^ suc v + p.polynomial) quotient) remainder
            ≡ message_value p.input_is_reflected p.initial_remainder (m ++ message_augment (suc v)))
        × (calculate (suc v) (bitwise_calculator (suc v) p) m
            ≡ bit_xor (output_processor (suc v) p.output_is_reflected remainder) p.xor_output)
  unfolding calculate product bitwise_calculator
  calculate_lem m hm hr =
      let augmented = m ++ message_augment (suc v) in
      let c = bitwise_calculator (suc v) p in
      let remainder =
        feed (suc v) c (feed (suc v) c p.initial_remainder m) (message_augment (suc v)) in
      let (quotient, bits, divides) =
        feed_divides augmented 0 p.initial_remainder (IsMessage-append m _ hm augment-IsMessage)
          hr in
      (
        quotient,
        remainder,
        bits,
        feed-lt v p fits (message_augment (suc v)) _ (feed-lt v p fits m p.initial_remainder hr),
        ap (bit_xor (product (2 ^ suc v + p.polynomial) quotient))
              (sym (feed-append m (message_augment (suc v)) p.initial_remainder))
            ∙ divides
            ∙ ap (λ z. message_value p.input_is_reflected z augmented)
                (zero-bit_xor p.initial_remainder),
        refl,
      )
    where
      augment-IsMessage : IsMessage (message_augment (suc v))
      augment-IsMessage = unfold message_augment in IsMessage-replicate (suc v / 8)
