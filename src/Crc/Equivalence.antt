-- ===== src/Crc/Equivalence.antt =====
-- The four table calculators against the bitwise calculator.
use picolibrary.Common.{
  ℕ, suc, ◌+◌, ◌*◌, ◌/◌, ◌^◌, ◌<◌, ◌≡◌, refl, sym, ap, ◌∙◌, bit_xor, List, replicate, arith,
}
use picolibrary.Crc.{CalculationParameters, output_processor, message_augment}
use picolibrary.Crc.Bitwise.{bitwise_calculator, feed, calculate}
use picolibrary.Crc.Augmented
use picolibrary.Crc.Augmented.{
  AugmentedCalculator, augmented_byte_calculator, augmented_nibble_calculator, feed_byte,
  feed_bytes, feed_nibble, feed_nibble_list, feed_nibbles,
}
use picolibrary.Crc.Direct
use picolibrary.Crc.Direct.{
  DirectCalculator, direct_byte_calculator, direct_nibble_calculator, preprocess_bytes,
  preprocess_nibbles, direct_byte, direct_bytes, direct_nibble, direct_nibble_list, direct_nibbles,
}
use picolibrary.Crc.Chunk.{rounds}
use picolibrary.Crc.Feed.{
  IsMessage, IsFor, IsMessage-replicate, feed-lt, feed_augment, feed_bytes-eq, preprocess_bytes-eq,
  direct_bytes-eq,
}
use picolibrary.Crc.FeedNibbles.{feed_nibbles-eq, preprocess_nibbles-eq, direct_nibbles-eq}

-- A register of `n + 1` bytes. `v` is one less than its digits.
module _ (n v : ℕ) (e : suc v ≡ 8 * suc n) (p : CalculationParameters) (m : List ℕ)
    (params : IsFor (suc v) p) (bytes : IsMessage m) where
  augment : List ℕ
  augment = message_augment (suc v)

  augment-eq : message_augment (suc v) ≡ replicate (suc n) 0
  unfolding message_augment
  augment-eq = let e' : suc v / 8 ≡ suc n = omega arith in rw e' refl

  augment-IsMessage : IsMessage (message_augment (suc v))
  augment-IsMessage = rw augment-eq (IsMessage-replicate (suc n))

  room : v + 1 ≡ 8 * n + 8
  room = omega arith

  abbrev fed : ℕ
  fed = feed (suc v) (bitwise_calculator (suc v) p) p.initial_remainder m

  fed-lt : fed < 2 ^ suc v
  fed-lt = feed-lt v p params.0 m p.initial_remainder params.1

  -- What a direct calculator ends with is what the augment makes of the bitwise remainder.
  zeros-eq-augment :
      rounds v p.polynomial params.0 (suc v) 0 fed
      ≡ feed (suc v) (bitwise_calculator (suc v) p) fed (message_augment (suc v))
  zeros-eq-augment =
      ap (λ k. rounds v p.polynomial params.0 k 0 fed) e
      ∙ sym (feed_augment v p params.0 (suc n) fed)
      ∙ ap (feed (suc v) (bitwise_calculator (suc v) p) fed) (sym augment-eq)

  abbrev finish : ℕ → ℕ
  finish remainder = bit_xor (output_processor (suc v) p.output_is_reflected remainder) p.xor_output

  augmented_bytes_at :
      Augmented.calculate_bytes (suc v) (augmented_byte_calculator (suc v) p) m
      ≡ calculate (suc v) (bitwise_calculator (suc v) p) m
  unfolding Augmented.calculate_bytes calculate augmented_byte_calculator bitwise_calculator
  augmented_bytes_at = ap finish (
      ap (λ t. feed_bytes (suc v) (augmented_byte_calculator (suc v) p) t (message_augment (suc v)))
        (feed_bytes-eq v p params.0 (8 * n) room m p.initial_remainder bytes params.1)
      ∙ feed_bytes-eq v p params.0 (8 * n) room (message_augment (suc v)) fed augment-IsMessage
          fed-lt)

  augmented_nibbles_at :
      Augmented.calculate_nibbles (suc v) (augmented_nibble_calculator (suc v) p) m
      ≡ calculate (suc v) (bitwise_calculator (suc v) p) m
  unfolding Augmented.calculate_nibbles calculate augmented_nibble_calculator bitwise_calculator
  augmented_nibbles_at = ap finish (
      ap
        (λ t.
          feed_nibbles (suc v) (augmented_nibble_calculator (suc v) p) t (message_augment (suc v)))
        (feed_nibbles-eq v p params.0 (8 * n) room m p.initial_remainder bytes params.1)
      ∙ feed_nibbles-eq v p params.0 (8 * n) room (message_augment (suc v)) fed augment-IsMessage
          fed-lt)

  direct_bytes_at :
      Direct.calculate_bytes (suc v) (direct_byte_calculator (suc v) p) m
      ≡ calculate (suc v) (bitwise_calculator (suc v) p) m
  unfolding Direct.calculate_bytes calculate direct_byte_calculator bitwise_calculator
  direct_bytes_at = ap finish (
      ap (λ t. direct_bytes (suc v) (direct_byte_calculator (suc v) p) t m)
        (preprocess_bytes-eq v p params.0 (8 * n) room (suc v / 8) p.initial_remainder params.1
          ∙ ap (λ k. rounds v p.polynomial params.0 k 0 p.initial_remainder) eighths)
      ∙ direct_bytes-eq v p params.0 (8 * n) room m p.initial_remainder bytes params.1
      ∙ zeros-eq-augment)
    where
      eighths : 8 * (suc v / 8) ≡ suc v
      eighths = omega arith

  direct_nibbles_at :
      Direct.calculate_nibbles (suc v) (direct_nibble_calculator (suc v) p) m
      ≡ calculate (suc v) (bitwise_calculator (suc v) p) m
  unfolding Direct.calculate_nibbles calculate direct_nibble_calculator bitwise_calculator
  direct_nibbles_at = ap finish (
      ap (λ t. direct_nibbles (suc v) (direct_nibble_calculator (suc v) p) t m)
        (preprocess_nibbles-eq v p params.0 (8 * n) room (suc v / 4) p.initial_remainder params.1
          ∙ ap (λ k. rounds v p.polynomial params.0 k 0 p.initial_remainder) quarters)
      ∙ direct_nibbles-eq v p params.0 (8 * n) room m p.initial_remainder bytes params.1
      ∙ zeros-eq-augment)
    where
      quarters : 4 * (suc v / 4) ≡ suc v
      quarters = omega arith

module _ (n : ℕ) (p : CalculationParameters) (m : List ℕ) (params : IsFor (8 * suc n) p)
    (bytes : IsMessage m) where
  digits-eq : 8 * suc n ≡ suc (8 * n + 7)
  digits-eq = omega arith

  -- For a register of any positive number of bytes, parameters whose polynomial and initial
  -- remainder are values of it, and any message of bytes, the augmented byte indexed calculator
  -- returns what the bitwise one returns.
  pub augmented_bytes-eq-bitwise :
      Augmented.calculate_bytes (8 * suc n) (augmented_byte_calculator (8 * suc n) p) m
      ≡ calculate (8 * suc n) (bitwise_calculator (8 * suc n) p) m
  augmented_bytes-eq-bitwise =
      rw digits-eq
        (augmented_bytes_at n (8 * n + 7) (sym digits-eq) p m (rw digits-eq at params) bytes)

  -- For a register of any positive number of bytes, parameters whose polynomial and initial
  -- remainder are values of it, and any message of bytes, the direct byte indexed calculator
  -- returns what the bitwise one returns.
  pub direct_bytes-eq-bitwise :
      Direct.calculate_bytes (8 * suc n) (direct_byte_calculator (8 * suc n) p) m
      ≡ calculate (8 * suc n) (bitwise_calculator (8 * suc n) p) m
  direct_bytes-eq-bitwise =
      rw digits-eq
        (direct_bytes_at n (8 * n + 7) (sym digits-eq) p m (rw digits-eq at params) bytes)

  -- For a register of any positive number of bytes, parameters whose polynomial and initial
  -- remainder are values of it, and any message of bytes, the augmented nibble indexed calculator
  -- returns what the bitwise one returns.
  pub augmented_nibbles-eq-bitwise :
      Augmented.calculate_nibbles (8 * suc n) (augmented_nibble_calculator (8 * suc n) p) m
      ≡ calculate (8 * suc n) (bitwise_calculator (8 * suc n) p) m
  augmented_nibbles-eq-bitwise =
      rw digits-eq
        (augmented_nibbles_at n (8 * n + 7) (sym digits-eq) p m (rw digits-eq at params) bytes)

  -- For a register of any positive number of bytes, parameters whose polynomial and initial
  -- remainder are values of it, and any message of bytes, the direct nibble indexed calculator
  -- returns what the bitwise one returns.
  pub direct_nibbles-eq-bitwise :
      Direct.calculate_nibbles (8 * suc n) (direct_nibble_calculator (8 * suc n) p) m
      ≡ calculate (8 * suc n) (bitwise_calculator (8 * suc n) p) m
  direct_nibbles-eq-bitwise =
      rw digits-eq
        (direct_nibbles_at n (8 * n + 7) (sym digits-eq) p m (rw digits-eq at params) bytes)
