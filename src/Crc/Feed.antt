-- ===== src/Crc/Feed.antt =====
-- The loops of the table calculators against the bitwise loop, one byte after the other.
use picolibrary.Common.{
  ℕ, zero, suc, ◌+◌, ◌*◌, ◌^◌, ◌<◌, ◌≡◌, refl, sym, ap, ◌∙◌, Bool, true, false, List, [], ◌∷◌,
  replicate, arith,
}
use picolibrary.BitManipulation.{reflect}
use picolibrary.BitManipulation.Reflect.{reflect-lt}
use picolibrary.Crc.{CalculationParameters, input_processor}
use picolibrary.Crc.Bitwise.{BitwiseCalculator, bitwise_calculator, feed_bits, feed}
use picolibrary.Crc.Table.{generate_byte_indexed_lookup_table}
use picolibrary.Crc.Augmented.{augmented_byte_calculator, feed_byte, feed_bytes}
use picolibrary.Crc.Direct.{direct_byte_calculator, preprocess_bytes, direct_byte, direct_bytes}
use picolibrary.Crc.Chunk.{rounds, feed_bits-lt, feed_zeros-add, absorb_lem}
use picolibrary.Crc.Lookup.{
  IsTable, byte_indexed-IsTable, augmented_step, preprocess_step, direct_step,
}

-- The elements of a message are bytes.
abbrev pub IsMessage : List ℕ → Type 0
IsMessage [] = Unit
IsMessage (byte ∷ bytes) = (byte < 256) × IsMessage bytes

-- The parameters that the remainders depend on are values of the register type.
abbrev pub IsFor : ℕ → CalculationParameters → Type 0
IsFor digits p = (p.polynomial < 2 ^ digits) × (p.initial_remainder < 2 ^ digits)

pub input_processor-lt : (b : Bool) (byte : ℕ) → byte < 256 → input_processor b byte < 2 ^ 8
unfolding input_processor
input_processor-lt true byte h = reflect-lt 7 byte h
input_processor-lt false byte h = h

input_processor-zero : (b : Bool) → input_processor b 0 ≡ 0
unfolding input_processor reflect
input_processor-zero true = refl
input_processor-zero false = refl

pub IsMessage-replicate : (n : ℕ) → IsMessage (replicate n 0)
IsMessage-replicate zero = tt
IsMessage-replicate (suc n) = (omega arith, IsMessage-replicate n)

module _ (v : ℕ) (p : CalculationParameters) (fits : p.polynomial < 2 ^ suc v) where
  abbrev bitwise : BitwiseCalculator
  unfolding bitwise_calculator
  bitwise = bitwise_calculator (suc v) p

  abbrev pub bits : ℕ → ℕ → ℕ → ℕ
  bits = rounds v p.polynomial fits

  abbrev processed : ℕ → ℕ
  processed = input_processor p.input_is_reflected

  pub feed-lt :
      (m : List ℕ) (r : ℕ)
      → r < 2 ^ suc v
      → feed (suc v) (bitwise_calculator (suc v) p) r m < 2 ^ suc v
  unfolding feed bitwise_calculator
  feed-lt [] r h = h
  feed-lt (x ∷ m) r h = feed-lt m _ (feed_bits-lt v p.polynomial fits 8 (processed x) r h)

  -- The augment feeds as many zero bits as the register has.
  pub feed_augment :
      (n r : ℕ) → feed (suc v) (bitwise_calculator (suc v) p) r (replicate n 0) ≡ bits (8 * n) 0 r
  unfolding feed bitwise_calculator
  feed_augment zero r = unfold feed_bits in refl
  feed_augment (suc n) r =
      ap (λ t. feed (suc v) (bitwise_calculator (suc v) p) (bits 8 t r) (replicate n 0))
        (input_processor-zero p.input_is_reflected)
      ∙ feed_augment n (bits 8 0 r)
      ∙ sym (feed_zeros-add v p.polynomial fits 8 (8 * n) r)
      ∙ ap (λ k. bits k 0 r) (omega arith)

  module _ (d : ℕ) (e : v + 1 ≡ d + 8) where
    abbrev byte_table : List ℕ
    byte_table = generate_byte_indexed_lookup_table (suc v) p.polynomial

    byte_table_is : IsTable v p.polynomial 8 d byte_table
    byte_table_is = byte_indexed-IsTable v p.polynomial d e

    -- The augmented byte indexed calculator keeps the remainder of the bitwise one.
    pub feed_bytes-eq :
        (m : List ℕ) (r : ℕ)
        → IsMessage m
        → r < 2 ^ suc v
        → feed_bytes (suc v) (augmented_byte_calculator (suc v) p) r m
          ≡ feed (suc v) (bitwise_calculator (suc v) p) r m
    unfolding feed_bytes feed_byte feed augmented_byte_calculator bitwise_calculator
    feed_bytes-eq [] r hm hr = refl
    feed_bytes-eq (x ∷ m) r hm hr =
        ap (λ t. feed_bytes (suc v) (augmented_byte_calculator (suc v) p) t m)
          (augmented_step v p.polynomial fits 8 d e (omega arith) byte_table byte_table_is
            (processed x) r (input_processor-lt p.input_is_reflected x hm.0) hr)
        ∙ feed_bytes-eq m (bits 8 (processed x) r) hm.1
            (feed_bits-lt v p.polynomial fits 8 (processed x) r hr)

    pub preprocess_bytes-eq :
        (n z : ℕ)
        → z < 2 ^ suc v
        → preprocess_bytes (suc v) (generate_byte_indexed_lookup_table (suc v) p.polynomial) n z
          ≡ bits (8 * n) 0 z
    unfolding preprocess_bytes
    preprocess_bytes-eq zero z hz = unfold feed_bits in refl
    preprocess_bytes-eq (suc n) z hz =
        ap (preprocess_bytes (suc v) byte_table n)
          (preprocess_step v p.polynomial fits 8 d e (omega arith) byte_table byte_table_is z hz)
        ∙ preprocess_bytes-eq n (bits 8 0 z) (feed_bits-lt v p.polynomial fits 8 0 z hz)
        ∙ sym (feed_zeros-add v p.polynomial fits 8 (8 * n) z)
        ∙ ap (λ k. bits k 0 z) (omega arith)

    -- The direct byte indexed calculator keeps the bitwise remainder with a register's worth of
    -- zero bits fed ahead.
    pub direct_bytes-eq :
        (m : List ℕ) (r : ℕ)
        → IsMessage m
        → r < 2 ^ suc v
        → direct_bytes (suc v) (direct_byte_calculator (suc v) p) (bits (suc v) 0 r) m
          ≡ bits (suc v) 0 (feed (suc v) (bitwise_calculator (suc v) p) r m)
    unfolding direct_bytes direct_byte feed direct_byte_calculator bitwise_calculator
    direct_bytes-eq [] r hm hr = refl
    direct_bytes-eq (x ∷ m) r hm hr =
        let byte-lt = input_processor-lt p.input_is_reflected x hm.0 in
        ap (λ t. direct_bytes (suc v) (direct_byte_calculator (suc v) p) t m)
          (direct_step v p.polynomial fits 8 d e (omega arith) byte_table byte_table_is
              (processed x) (bits (suc v) 0 r) byte-lt
              (feed_bits-lt v p.polynomial fits (suc v) 0 r hr)
            ∙ absorb_lem v p.polynomial fits 8 d (processed x) r e byte-lt hr)
        ∙ direct_bytes-eq m (bits 8 (processed x) r) hm.1
            (feed_bits-lt v p.polynomial fits 8 (processed x) r hr)
