-- ===== src/Crc/Lookup.antt =====
-- The tables hold, at each index, what the division makes of the index in the top bits; a step of
-- a table calculator is as many rounds of the bitwise one as its index has bits.
use native.Mathlib.Nat.{
  mod-eq_of_lt, add_comm, pow-le-pow_right, mul-div_left, mul-mod_left, zero-mod,
}
use native.Mathlib.Decide.{ℕ_discrete}
use picolibrary.Common.{
  ℕ, zero, suc, ◌+◌, ◌-◌, ◌*◌, ◌/◌, ◌%◌, ◌^◌, ◌≤◌, ◌<◌, ◌≡◌, refl, sym, ap, ap₂, ◌∙◌, bit_or,
  bit_xor, List, length, get_or, set, replicate, length-set, length-replicate, get_or-set_self,
  get_or-set_ne, arith,
}
use picolibrary.Common.Bits.{
  bit_or_fields, bit_or-zero, bit_xor-lt, bit_xor-mod, bit_xor-shift_right, bit_xor-zero,
}
use picolibrary.Common.Modular.{
  two-pow-pos, shift_right-lt, shift_left-lt, shift_left-mod, shift_left-add-mod,
}
use picolibrary.Crc.Table.{
  divide, fill_table, byte_entry, nibble_entry, generate_byte_indexed_lookup_table,
  generate_nibble_indexed_lookup_table,
}
use picolibrary.Crc.Chunk.{rounds, feed_bits-lt, divide-eq-feed_bits, chunk_lem}

module _ (digits polynomial : ℕ) (entry : ℕ → ℕ) where
  -- Indices before the loop's are left alone, and the others are written.
  fill_table_lem :
      (n i : ℕ) (t : List ℕ) (j : ℕ)
      → i + n ≤ length t
      → ((j < i) → get_or (fill_table digits polynomial entry n i t) j 0 ≡ get_or t j 0)
        × ((i ≤ j) → (j < i + n) → get_or (fill_table digits polynomial entry n i t) j 0 ≡ entry j)
  unfolding fill_table
  fill_table_lem zero i t j h = (λ _. refl, λ p q. absurd (omega arith))
  fill_table_lem (suc n) i t j h =
      let (before, inside) =
        fill_table_lem n (i + 1) (set t i (entry i)) j (omega (arith, length-set t i (entry i))) in
      (
        λ p. before (omega arith) ∙ get_or-set_ne t (entry i) 0 (omega arith),
        λ p q. elim (ℕ_discrete i j) [
          | yes e ↦ before (omega arith) ∙ rw (← e) (get_or-set_self t i (entry i) 0 (omega arith))
          | no ne ↦ inside (omega arith) (omega arith)
        ],
      )

pub byte_table_lem :
    (digits polynomial i : ℕ)
    → i < 256
    → get_or (generate_byte_indexed_lookup_table digits polynomial) i 0
      ≡ byte_entry digits polynomial i
unfolding generate_byte_indexed_lookup_table
byte_table_lem digits polynomial i h =
    (fill_table_lem digits polynomial (byte_entry digits polynomial) 256 0 (replicate 256 0) i
        (omega (arith, length-replicate {A = ℕ} 256 0))).1
      (omega arith) (omega arith)

pub nibble_table_lem :
    (digits polynomial i : ℕ)
    → i < 16
    → get_or (generate_nibble_indexed_lookup_table digits polynomial) i 0
      ≡ nibble_entry digits polynomial i
unfolding generate_nibble_indexed_lookup_table
nibble_table_lem digits polynomial i h =
    (fill_table_lem digits polynomial (nibble_entry digits polynomial) 16 0 (replicate 16 0) i
        (omega (arith, length-replicate {A = ℕ} 16 0))).1
      (omega arith) (omega arith)

-- A table for chunks of `c` bits, as the calculators read it.
abbrev pub IsTable : ℕ → ℕ → ℕ → ℕ → List ℕ → Type 0
IsTable v polynomial c d t =
    (i : ℕ) → i < 2 ^ c → get_or t i 0 ≡ divide (suc v) polynomial c (i * 2 ^ d)

shift_of : (v c d : ℕ) → v + 1 ≡ d + c → suc v - c ≡ d
shift_of v c d e = omega arith

width_of : (v c d : ℕ) → v + 1 ≡ d + c → 2 ^ suc v ≡ 2 ^ (d + c)
width_of v c d e = ap (λ t. 2 ^ t) (omega arith)

pub byte_indexed-IsTable :
    (v polynomial d : ℕ)
    → v + 1 ≡ d + 8
    → IsTable v polynomial 8 d (generate_byte_indexed_lookup_table (suc v) polynomial)
unfolding byte_entry
byte_indexed-IsTable v polynomial d e i h =
    byte_table_lem (suc v) polynomial i h
    ∙ rw (shift_of v 8 d e) (
        ap (divide (suc v) polynomial 8)
          (mod-eq_of_lt (rw (width_of v 8 d e, add_comm d 8) (shift_left-lt d 8 i h))))

pub nibble_indexed-IsTable :
    (v polynomial d : ℕ)
    → v + 1 ≡ d + 4
    → IsTable v polynomial 4 d (generate_nibble_indexed_lookup_table (suc v) polynomial)
unfolding nibble_entry
nibble_indexed-IsTable v polynomial d e i h =
    nibble_table_lem (suc v) polynomial i h
    ∙ rw (shift_of v 4 d e) (
        ap (divide (suc v) polynomial 4)
          (mod-eq_of_lt (rw (width_of v 4 d e, add_comm d 4) (shift_left-lt d 4 i h))))

module _ (v polynomial : ℕ) (fits : polynomial < 2 ^ suc v) (c d : ℕ) (e : v + 1 ≡ d + c)
    (small : c ≤ 8) (t : List ℕ) (table : IsTable v polynomial c d t) where
  top_chunk-lt : (r : ℕ) → r < 2 ^ suc v → r / 2 ^ d < 2 ^ c
  top_chunk-lt r h = shift_right-lt c d r (rw (← width_of v c d e) h)

  top_index : (r : ℕ) → r < 2 ^ suc v → r / 2 ^ (suc v - c) % 2 ^ 8 ≡ r / 2 ^ d
  top_index r h =
      rw (shift_of v c d e) (
        mod-eq_of_lt
          (omega (arith, top_chunk-lt r h, pow-le-pow_right {n = 2} (omega arith) small)))

  index_shifted-lt : (i : ℕ) → i < 2 ^ c → i * 2 ^ d < 2 ^ suc v
  index_shifted-lt i h = rw (width_of v c d e, add_comm d c) (shift_left-lt d c i h)

  entry-lt : (i : ℕ) → i < 2 ^ c → get_or t i 0 < 2 ^ suc v
  entry-lt i h =
      rw (table i h, divide-eq-feed_bits v polynomial fits)
        (feed_bits-lt v polynomial fits c 0 (i * 2 ^ d) (index_shifted-lt i h))

  -- A step of an augmented calculator.
  pub augmented_step :
      (x r : ℕ)
      → x < 2 ^ c
      → r < 2 ^ suc v
      → bit_xor (bit_or (r * 2 ^ c) x) (get_or t (r / 2 ^ (suc v - c) % 2 ^ 8) 0) % 2 ^ suc v
        ≡ rounds v polynomial fits c x r
  augmented_step x r hx hr =
      rw (top_index r hr, bit_or_fields c r x hx, bit_xor-mod (suc v))
        (ap₂ bit_xor low (high) ∙ sym (chunk_lem v polynomial fits c d x r e hr))
    where
      low : (r * 2 ^ c + x) % 2 ^ suc v ≡ r % 2 ^ d * 2 ^ c + x % 2 ^ c
      low = rw (width_of v c d e, mod-eq_of_lt hx) (shift_left-add-mod c d r x hx)

      high : get_or t (r / 2 ^ d) 0 % 2 ^ suc v ≡ divide (suc v) polynomial c (r / 2 ^ d * 2 ^ d)
      high =
          mod-eq_of_lt (entry-lt (r / 2 ^ d) (top_chunk-lt r hr))
          ∙ table (r / 2 ^ d) (top_chunk-lt r hr)

  -- A step of the preprocessing of an initial remainder.
  pub preprocess_step :
      (z : ℕ)
      → z < 2 ^ suc v
      → bit_xor (z * 2 ^ c) (get_or t (z / 2 ^ (suc v - c) % 2 ^ 8) 0) % 2 ^ suc v
        ≡ rounds v polynomial fits c 0 z
  preprocess_step z hz =
      ap (λ s. bit_xor s (get_or t (z / 2 ^ (suc v - c) % 2 ^ 8) 0) % 2 ^ suc v)
        (sym (bit_or-zero (z * 2 ^ c)))
      ∙ augmented_step 0 z (two-pow-pos c) hz

  -- A step of a direct calculator: the chunk of input is added to the top of the remainder.
  pub direct_step :
      (x z : ℕ)
      → x < 2 ^ c
      → z < 2 ^ suc v
      → bit_xor (z * 2 ^ c) (get_or t (bit_xor (z / 2 ^ (suc v - c) % 2 ^ 8) x % 2 ^ 8) 0)
          % 2 ^ suc v
        ≡ rounds v polynomial fits c 0 (bit_xor z (x * 2 ^ d))
  direct_step x z hx hz =
      rw (index, bit_xor-mod (suc v))
        (ap₂ bit_xor low high
          ∙ sym (chunk_lem v polynomial fits c d 0 (bit_xor z (x * 2 ^ d)) e sum-lt))
    where
      sum-lt : bit_xor z (x * 2 ^ d) < 2 ^ suc v
      sum-lt = bit_xor-lt (suc v) z (x * 2 ^ d) hz (index_shifted-lt x hx)

      chunk-lt : bit_xor (z / 2 ^ d) x < 2 ^ c
      chunk-lt = bit_xor-lt c (z / 2 ^ d) x (top_chunk-lt z hz) hx

      index : bit_xor (z / 2 ^ (suc v - c) % 2 ^ 8) x % 2 ^ 8 ≡ bit_xor (z / 2 ^ d) x
      index =
          ap (λ s. bit_xor s x % 2 ^ 8) (top_index z hz)
          ∙ mod-eq_of_lt (omega (arith, chunk-lt, pow-le-pow_right {n = 2} (omega arith) small))

      top_of_sum : bit_xor z (x * 2 ^ d) / 2 ^ d ≡ bit_xor (z / 2 ^ d) x
      top_of_sum =
          bit_xor-shift_right d z (x * 2 ^ d)
          ∙ ap (bit_xor (z / 2 ^ d)) (mul-div_left x (two-pow-pos d))

      rest_of_sum : bit_xor z (x * 2 ^ d) % 2 ^ d ≡ z % 2 ^ d
      rest_of_sum =
          bit_xor-mod d z (x * 2 ^ d)
          ∙ ap (bit_xor (z % 2 ^ d)) (mul-mod_left x (2 ^ d))
          ∙ bit_xor-zero (z % 2 ^ d)

      low : z * 2 ^ c % 2 ^ suc v ≡ bit_xor z (x * 2 ^ d) % 2 ^ d * 2 ^ c + 0 % 2 ^ c
      low = rw (width_of v c d e, rest_of_sum, zero-mod) (shift_left-mod c d z ∙ omega arith)

      high :
          get_or t (bit_xor (z / 2 ^ d) x) 0 % 2 ^ suc v
          ≡ divide (suc v) polynomial c (bit_xor z (x * 2 ^ d) / 2 ^ d * 2 ^ d)
      high = rw top_of_sum (
          mod-eq_of_lt (entry-lt (bit_xor (z / 2 ^ d) x) chunk-lt)
          ∙ table (bit_xor (z / 2 ^ d) x) chunk-lt)
