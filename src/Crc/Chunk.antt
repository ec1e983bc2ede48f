-- ===== src/Crc/Chunk.antt =====
-- Several bits of input at a time.
use native.Mathlib.Nat.{
  pow-suc, pow-le-pow_right, zero-div, zero-mod, mod-mod, add_comm, mod-le, div-mul-le_self,
  div-add-mod', mod-lt, mod-eq_of_lt,
}
use picolibrary.Common.{
  ℕ, zero, suc, ◌+◌, ◌*◌, ◌/◌, ◌%◌, ◌^◌, ◌<◌, ◌≡◌, refl, sym, ap, ap₂, ◌∙◌, bit_and, bit_xor, arith,
}
use picolibrary.Common.Bits.{
  bit_and_mask, bit_or-zero, bit_xor_comm, bit_xor_fields, bit_xor-mod, bit_xor-shift_right,
  bit_xor-zero, bit_xor_self, zero-bit_xor,
}
use picolibrary.Common.Modular.{
  two-pow-pos, mod-two-pow-suc, shift_right-add, shift_left-lt, mul-two-pow-suc,
}
use picolibrary.Crc.Bitwise.{feed_bit, feed_bits}
use picolibrary.Crc.Table.{divide}
use picolibrary.Crc.Step.{feed_bit-lt, feed_bit-xor, feed_bit_clear}

-- The input bit that a round takes.
pub bit_at : (bit x : ℕ) → bit_and (x / 2 ^ bit) 1 ≡ x / 2 ^ bit % 2
bit_at bit x = bit_and_mask 1 (x / 2 ^ bit)

pub bit_at-lt : (bit x : ℕ) → bit_and (x / 2 ^ bit) 1 < 2
bit_at-lt bit x = rw (bit_at bit x) (omega arith)

bit_at-xor :
    (bit x y : ℕ)
    → bit_and (bit_xor x y / 2 ^ bit) 1
      ≡ bit_xor (bit_and (x / 2 ^ bit) 1) (bit_and (y / 2 ^ bit) 1)
bit_at-xor bit x y =
    bit_at bit (bit_xor x y)
    ∙ ap (λ t. t % 2) (bit_xor-shift_right bit x y)
    ∙ bit_xor-mod 1 (x / 2 ^ bit) (y / 2 ^ bit)
    ∙ sym (ap₂ bit_xor (bit_at bit x) (bit_at bit y))

module _ (v polynomial : ℕ) (fits : polynomial < 2 ^ suc v) where
  abbrev pub rounds : ℕ → ℕ → ℕ → ℕ
  rounds n x r = feed_bits (suc v) polynomial n x r

  pub feed_bits-lt : (n x r : ℕ) → r < 2 ^ suc v → rounds n x r < 2 ^ suc v
  unfolding feed_bits
  feed_bits-lt zero x r h = h
  feed_bits-lt (suc n) x r h =
      feed_bits-lt n x _ (feed_bit-lt v polynomial fits _ r (bit_at-lt n x) h)

  pub feed_bits-xor :
      (n x y r s : ℕ)
      → r < 2 ^ suc v
      → s < 2 ^ suc v
      → rounds n (bit_xor x y) (bit_xor r s) ≡ bit_xor (rounds n x r) (rounds n y s)
  unfolding feed_bits
  feed_bits-xor zero x y r s hr hs = refl
  feed_bits-xor (suc n) x y r s hr hs =
      ap (rounds n (bit_xor x y)) (
        ap (λ b. feed_bit (suc v) polynomial b (bit_xor r s)) (bit_at-xor n x y)
        ∙ feed_bit-xor v polynomial fits _ _ r s (bit_at-lt n x) (bit_at-lt n y) hr hs)
      ∙ feed_bits-xor n x y _ _ (feed_bit-lt v polynomial fits _ r (bit_at-lt n x) hr)
          (feed_bit-lt v polynomial fits _ s (bit_at-lt n y) hs)

  -- While there is room for the input, it is only shifted in.
  pub feed_bits_room :
      (k d x r : ℕ) → v + 1 ≡ d + k → r < 2 ^ d → rounds k x r ≡ r * 2 ^ k + x % 2 ^ k
  unfolding feed_bits
  feed_bits_room zero d x r e h = omega arith
  feed_bits_room (suc k) d x r e h =
      ap (rounds k x) clear
      ∙ feed_bits_room k (suc d) x (r * 2 + x / 2 ^ k % 2) (omega arith)
          (omega (arith, pow-suc 2 d))
      ∙ omega (arith, mul-two-pow-suc r k, mod-two-pow-suc k x)
    where
      clear : feed_bit (suc v) polynomial (bit_and (x / 2 ^ k) 1) r ≡ r * 2 + x / 2 ^ k % 2
      clear =
          feed_bit_clear v polynomial fits _ r (bit_at-lt k x)
            (omega (arith, pow-le-pow_right {n = 2} (omega arith) {i = d} {j = v} (omega arith)))
          ∙ ap (λ b. r * 2 + b) (bit_at k x)

  -- The rounds for `a + b` bits are those for the top `a` and then those for the other `b`.
  pub feed_bits-add : (a b x r : ℕ) → rounds (a + b) x r ≡ rounds b x (rounds a (x / 2 ^ b) r)
  unfolding feed_bits
  feed_bits-add zero b x r = let e : 0 + b ≡ b = omega arith in rw e refl
  feed_bits-add (suc a) b x r =
      let e : suc a + b ≡ suc (a + b) = omega arith in
      let here : x / 2 ^ (a + b) ≡ x / 2 ^ b / 2 ^ a =
        ap (λ t. x / 2 ^ t) (omega arith) ∙ sym (shift_right-add b a x) in
      rw e (
        ap (λ t. rounds (a + b) x (feed_bit (suc v) polynomial (bit_and t 1) r)) here
        ∙ feed_bits-add a b x _)

  -- The generators' loop is a feed of zero bits.
  pub divide-eq-feed_bits : (n r : ℕ) → divide (suc v) polynomial n r ≡ rounds n 0 r
  unfolding divide feed_bits feed_bit
  divide-eq-feed_bits zero r = refl
  divide-eq-feed_bits (suc n) r =
      let no_bit : bit_and (0 / 2 ^ n) 1 ≡ 0 = rw (zero-div, bit_and_mask 1 0) refl in
      rw (divide-eq-feed_bits n, no_bit, bit_or-zero) refl

  pub feed_zeros-add : (a b r : ℕ) → rounds (a + b) 0 r ≡ rounds b 0 (rounds a 0 r)
  feed_zeros-add a b r =
      feed_bits-add a b 0 r ∙ ap (λ t. rounds b 0 (rounds a t r)) (zero-div (2 ^ b))

  -- Zero bits after zero bits, in either order.
  pub feed_zeros_comm : (a b r : ℕ) → rounds a 0 (rounds b 0 r) ≡ rounds b 0 (rounds a 0 r)
  feed_zeros_comm a b r =
      sym (feed_zeros-add b a r) ∙ ap (λ t. rounds t 0 r) (add_comm b a) ∙ feed_zeros-add a b r

  -- A chunk of `c` bits: the register's other bits move up beside the chunk, and what its top `c`
  -- bits alone would become is added.
  pub chunk_lem :
      (c d x r : ℕ)
      → v + 1 ≡ d + c
      → r < 2 ^ suc v
      → rounds c x r
        ≡ bit_xor (r % 2 ^ d * 2 ^ c + x % 2 ^ c) (divide (suc v) polynomial c (r / 2 ^ d * 2 ^ d))
  chunk_lem c d x r e hr =
      ap₂ (rounds c) (sym (bit_xor-zero x)) (sym parts)
      ∙ feed_bits-xor c x 0 (r % 2 ^ d) (r / 2 ^ d * 2 ^ d) below above
      ∙ ap₂ bit_xor (feed_bits_room c d x (r % 2 ^ d) e (mod-lt r (two-pow-pos d)))
          (sym (divide-eq-feed_bits c (r / 2 ^ d * 2 ^ d)))
    where
      parts : bit_xor (r % 2 ^ d) (r / 2 ^ d * 2 ^ d) ≡ r
      parts =
          bit_xor_comm _ _
          ∙ bit_xor_fields d (r / 2 ^ d) (r % 2 ^ d) (mod-lt r (two-pow-pos d))
          ∙ div-add-mod' r (2 ^ d)

      below : r % 2 ^ d < 2 ^ suc v
      below = omega (arith, mod-le r (2 ^ d))

      above : r / 2 ^ d * 2 ^ d < 2 ^ suc v
      above = omega (arith, div-mul-le_self r (2 ^ d))

  -- Only the lowest `c` bits of a chunk matter.
  pub feed_bits-mod :
      (c d x r : ℕ) → v + 1 ≡ d + c → r < 2 ^ suc v → rounds c (x % 2 ^ c) r ≡ rounds c x r
  feed_bits-mod c d x r e hr =
      chunk_lem c d (x % 2 ^ c) r e hr
      ∙ ap (λ t. bit_xor (r % 2 ^ d * 2 ^ c + t) (divide (suc v) polynomial c (r / 2 ^ d * 2 ^ d)))
          (mod-mod x (2 ^ c))
      ∙ sym (chunk_lem c d x r e hr)

  -- Feeding a chunk and then a register's worth of zero bits is the same as feeding the zero bits
  -- first and the chunk then added to the top of the register.
  pub absorb_lem :
      (c d x r : ℕ)
      → v + 1 ≡ d + c
      → x < 2 ^ c
      → r < 2 ^ suc v
      → rounds c 0 (bit_xor (rounds (suc v) 0 r) (x * 2 ^ d)) ≡ rounds (suc v) 0 (rounds c x r)
  absorb_lem c d x r e hx hr =
      ap (λ t. rounds c t (bit_xor (rounds (suc v) 0 r) (x * 2 ^ d))) (sym (bit_xor_self 0))
      ∙ feed_bits-xor c 0 0 (rounds (suc v) 0 r) (x * 2 ^ d) (feed_bits-lt (suc v) 0 r hr)
          shifted-lt
      ∙ ap₂ bit_xor (feed_zeros_comm c (suc v) r) shifted_chunk
      ∙ sym (feed_bits-xor (suc v) 0 0 (rounds c 0 r) x (feed_bits-lt c 0 r hr) chunk-lt)
      ∙ ap₂ (rounds (suc v)) (bit_xor_self 0) (sym split)
    where
      chunk-lt : x < 2 ^ suc v
      chunk-lt =
          omega (arith, pow-le-pow_right {n = 2} (omega arith) {i = c} {j = suc v} (omega arith))

      shifted-lt : x * 2 ^ d < 2 ^ suc v
      shifted-lt = let width : suc v ≡ c + d = omega arith in rw width (shift_left-lt d c x hx)

      split : rounds c x r ≡ bit_xor (rounds c 0 r) x
      split =
          ap₂ (rounds c) (sym (zero-bit_xor x)) (sym (bit_xor-zero r))
          ∙ feed_bits-xor c 0 x r 0 hr (two-pow-pos (suc v))
          ∙ ap (bit_xor (rounds c 0 r))
              (feed_bits_room c d x 0 e (two-pow-pos d) ∙ omega (arith, mod-eq_of_lt hx))

      shifted_chunk : rounds c 0 (x * 2 ^ d) ≡ rounds (suc v) 0 x
      shifted_chunk =
          let width : suc v ≡ d + c = omega arith in
          let room : v + 1 ≡ c + d = omega arith in
          ap (rounds c 0) (sym (feed_bits_room d c 0 x room hx ∙ omega (arith, zero-mod (2 ^ d))))
          ∙ sym (
              ap (λ n. rounds n 0 x) width
              ∙ feed_bits-add d c 0 x
              ∙ ap (λ t. rounds c 0 (rounds d t x)) (zero-div (2 ^ c)))
