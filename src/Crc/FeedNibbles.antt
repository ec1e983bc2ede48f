-- ===== src/Crc/FeedNibbles.antt =====
-- The loops of the nibble indexed calculators against the bitwise loop.
use picolibrary.Common.{
  ℕ, zero, suc, ◌+◌, ◌*◌, ◌/◌, ◌^◌, ◌<◌, ◌≡◌, refl, sym, ap, ◌∙◌, bit_and, List, [], ◌∷◌, arith,
}
use picolibrary.Common.Bits.{bit_and_mask}
use picolibrary.Crc.{CalculationParameters, input_processor, get_byte_nibbles}
use picolibrary.Crc.Bitwise.{bitwise_calculator, feed_bits, feed}
use picolibrary.Crc.Table.{generate_nibble_indexed_lookup_table}
use picolibrary.Crc.Augmented.{
  augmented_nibble_calculator, feed_nibble, feed_nibble_list, feed_nibbles,
}
use picolibrary.Crc.Direct.{
  direct_nibble_calculator, preprocess_nibbles, direct_nibble, direct_nibble_list, direct_nibbles,
}
use picolibrary.Crc.Chunk.{
  rounds, feed_bits-lt, feed_bits-add, feed_zeros-add, feed_bits-mod, absorb_lem,
}
use picolibrary.Crc.Lookup.{
  IsTable, nibble_indexed-IsTable, augmented_step, preprocess_step, direct_step,
}
use picolibrary.Crc.Feed.{IsMessage, input_processor-lt}

module _ (v : ℕ) (p : CalculationParameters) (fits : p.polynomial < 2 ^ suc v) (d : ℕ)
    (e : v + 1 ≡ d + 8) where
  abbrev bits : ℕ → ℕ → ℕ → ℕ
  bits = rounds v p.polynomial fits

  abbrev processed : ℕ → ℕ
  processed = input_processor p.input_is_reflected

  abbrev nibble_table : List ℕ
  nibble_table = generate_nibble_indexed_lookup_table (suc v) p.polynomial

  room : v + 1 ≡ (d + 4) + 4
  room = omega arith

  nibble_table_is : IsTable v p.polynomial 4 (d + 4) nibble_table
  nibble_table_is = nibble_indexed-IsTable v p.polynomial (d + 4) room

  low-lt : (x : ℕ) → bit_and x 0xf < 2 ^ 4
  low-lt x = omega (arith, bit_and_mask 4 x)

  -- A byte is its high nibble and then its low one.
  two_nibbles :
      (x r : ℕ) → r < 2 ^ suc v → bits 4 (bit_and x 0xf) (bits 4 (x / 2 ^ 4) r) ≡ bits 8 x r
  two_nibbles x r hr =
      ap (λ t. bits 4 t (bits 4 (x / 2 ^ 4) r)) (bit_and_mask 4 x)
      ∙ feed_bits-mod v p.polynomial fits 4 (d + 4) x (bits 4 (x / 2 ^ 4) r) room
          (feed_bits-lt v p.polynomial fits 4 (x / 2 ^ 4) r hr)
      ∙ sym (feed_bits-add v p.polynomial fits 4 4 x r)

  feed_nibble_list-eq :
      (x r : ℕ)
      → x < 2 ^ 8
      → r < 2 ^ suc v
      → feed_nibble_list (suc v) nibble_table (get_byte_nibbles x) r ≡ bits 8 x r
  unfolding feed_nibble_list feed_nibble get_byte_nibbles
  feed_nibble_list-eq x r hx hr =
      ap (feed_nibble (suc v) nibble_table (bit_and x 0xf)) (
        augmented_step v p.polynomial fits 4 (d + 4) room (omega arith) nibble_table nibble_table_is
          (x / 2 ^ 4) r (omega arith) hr)
      ∙ augmented_step v p.polynomial fits 4 (d + 4) room (omega arith) nibble_table nibble_table_is
          (bit_and x 0xf) (bits 4 (x / 2 ^ 4) r) (low-lt x)
          (feed_bits-lt v p.polynomial fits 4 (x / 2 ^ 4) r hr)
      ∙ two_nibbles x r hr

  -- The augmented nibble indexed calculator keeps the remainder of the bitwise one.
  pub feed_nibbles-eq :
      (m : List ℕ) (r : ℕ)
      → IsMessage m
      → r < 2 ^ suc v
      → feed_nibbles (suc v) (augmented_nibble_calculator (suc v) p) r m
        ≡ feed (suc v) (bitwise_calculator (suc v) p) r m
  unfolding feed_nibbles feed augmented_nibble_calculator bitwise_calculator
  feed_nibbles-eq [] r hm hr = refl
  feed_nibbles-eq (x ∷ m) r hm hr =
      ap (λ t. feed_nibbles (suc v) (augmented_nibble_calculator (suc v) p) t m)
        (feed_nibble_list-eq (processed x) r (input_processor-lt p.input_is_reflected x hm.0) hr)
      ∙ feed_nibbles-eq m (bits 8 (processed x) r) hm.1
          (feed_bits-lt v p.polynomial fits 8 (processed x) r hr)

  pub preprocess_nibbles-eq :
      (n z : ℕ)
      → z < 2 ^ suc v
      → preprocess_nibbles (suc v) (generate_nibble_indexed_lookup_table (suc v) p.polynomial) n z
        ≡ bits (4 * n) 0 z
  unfolding preprocess_nibbles
  preprocess_nibbles-eq zero z hz = unfold feed_bits in refl
  preprocess_nibbles-eq (suc n) z hz =
      ap (preprocess_nibbles (suc v) nibble_table n) (
        preprocess_step v p.polynomial fits 4 (d + 4) room (omega arith) nibble_table
          nibble_table_is z hz)
      ∙ preprocess_nibbles-eq n (bits 4 0 z) (feed_bits-lt v p.polynomial fits 4 0 z hz)
      ∙ sym (feed_zeros-add v p.polynomial fits 4 (4 * n) z)
      ∙ ap (λ k. bits k 0 z) (omega arith)

  direct_nibble-eq :
      (x r : ℕ)
      → x < 2 ^ 4
      → r < 2 ^ suc v
      → direct_nibble (suc v) nibble_table x (bits (suc v) 0 r) ≡ bits (suc v) 0 (bits 4 x r)
  unfolding direct_nibble
  direct_nibble-eq x r hx hr =
      direct_step v p.polynomial fits 4 (d + 4) room (omega arith) nibble_table nibble_table_is x
        (bits (suc v) 0 r) hx (feed_bits-lt v p.polynomial fits (suc v) 0 r hr)
      ∙ absorb_lem v p.polynomial fits 4 (d + 4) x r room hx hr

  direct_nibble_list-eq :
      (x r : ℕ)
      → x < 2 ^ 8
      → r < 2 ^ suc v
      → direct_nibble_list (suc v) nibble_table (get_byte_nibbles x) (bits (suc v) 0 r)
        ≡ bits (suc v) 0 (bits 8 x r)
  unfolding direct_nibble_list get_byte_nibbles
  direct_nibble_list-eq x r hx hr =
      ap (direct_nibble (suc v) nibble_table (bit_and x 0xf))
        (direct_nibble-eq (x / 2 ^ 4) r (omega arith) hr)
      ∙ direct_nibble-eq (bit_and x 0xf) (bits 4 (x / 2 ^ 4) r) (low-lt x)
          (feed_bits-lt v p.polynomial fits 4 (x / 2 ^ 4) r hr)
      ∙ ap (bits (suc v) 0) (two_nibbles x r hr)

  -- The direct nibble indexed calculator keeps the bitwise remainder with zero bits fed ahead.
  pub direct_nibbles-eq :
      (m : List ℕ) (r : ℕ)
      → IsMessage m
      → r < 2 ^ suc v
      → direct_nibbles (suc v) (direct_nibble_calculator (suc v) p) (bits (suc v) 0 r) m
        ≡ bits (suc v) 0 (feed (suc v) (bitwise_calculator (suc v) p) r m)
  unfolding direct_nibbles feed direct_nibble_calculator bitwise_calculator
  direct_nibbles-eq [] r hm hr = refl
  direct_nibbles-eq (x ∷ m) r hm hr =
      ap (λ t. direct_nibbles (suc v) (direct_nibble_calculator (suc v) p) t m)
        (direct_nibble_list-eq (processed x) r (input_processor-lt p.input_is_reflected x hm.0) hr)
      ∙ direct_nibbles-eq m (bits 8 (processed x) r) hm.1
          (feed_bits-lt v p.polynomial fits 8 (processed x) r hr)
