-- ===== src/BitManipulation/Reflect.antt =====
-- `reflect` against the reversal of a bit string.
use native.Mathlib.Nat.{pow-suc, mod-eq_of_lt, mul-le-mul_right, div-add-mod'}
use picolibrary.Common.{
  ℕ, zero, suc, ◌+◌, ◌-◌, ◌*◌, ◌/◌, ◌%◌, ◌^◌, ◌≤◌, ◌<◌, ◌≡◌, refl, sym, ap, ◌∙◌, ◌==◌, ==_iff,
  Bool-cases, inl, inr, bit_and, bit_or, arith,
}
use picolibrary.Common.Bits.{bit_or_fields, bit_and_mask}
use picolibrary.Common.Modular.{
  mul-two-pow-suc, mod-mul-add-mod, mul-add-mod, shift_left-mod, mod-two-pow-double,
  div-two-pow-suc, mul-add-div_of_lt, mod-eq_of_mul-add,
}
use picolibrary.BitManipulation.{reflect_loop, reflect}

-- The lowest `n` bits of a number in the opposite order.
unfoldable pub reverse_bits : ℕ → ℕ → ℕ
reverse_bits zero v = 0
reverse_bits (suc n) v = v % 2 * 2 ^ n + reverse_bits n (v / 2)

reverse_bits-zero : (n : ℕ) → reverse_bits n 0 ≡ 0
unfolding reverse_bits
reverse_bits-zero zero = refl
reverse_bits-zero (suc n) = omega (arith, reverse_bits-zero n)

pub reverse_bits-lt : (n v : ℕ) → reverse_bits n v < 2 ^ n
unfolding reverse_bits
reverse_bits-lt zero v = omega arith
reverse_bits-lt (suc n) v = omega (
  arith,
  pow-suc 2 n,
  reverse_bits-lt n (v / 2),
  mul-le-mul_right {m = v % 2} {n = 1} (2 ^ n) (omega arith),
)

-- One round of the loop moves a bit from `value` to `result`.
round_result : (d r v : ℕ) → bit_or (r * 2 % 2 ^ suc d) (bit_and v 1) ≡ r * 2 % 2 ^ suc d + v % 2
round_result d r v =
    rw (doubled, bit_and_mask 1 v) (bit_or_fields 1 (r % 2 ^ d) (v % 2) (omega arith))
  where
    doubled : r * 2 % 2 ^ suc d ≡ r % 2 ^ d * 2
    doubled = let e : suc d ≡ d + 1 = omega arith in rw e (shift_left-mod 1 d r)

round_lem :
    (d r v s : ℕ)
    → (bit_or (r * 2 % 2 ^ suc d) (bit_and v 1) * 2 ^ s + reverse_bits s (v / 2)) % 2 ^ suc d
      ≡ (r * 2 ^ suc s + (v % 2 * 2 ^ s + reverse_bits s (v / 2))) % 2 ^ suc d
round_lem d r v s =
    ap (λ t. t % 2 ^ suc d) regroup
    ∙ mod-mul-add-mod (r * 2) (2 ^ s) (v % 2 * 2 ^ s + reverse_bits s (v / 2)) (2 ^ suc d)
    ∙ ap (λ t. t % 2 ^ suc d) (omega (arith, mul-two-pow-suc r s))
  where
    regroup :
        bit_or (r * 2 % 2 ^ suc d) (bit_and v 1) * 2 ^ s + reverse_bits s (v / 2)
        ≡ r * 2 % 2 ^ suc d * 2 ^ s + (v % 2 * 2 ^ s + reverse_bits s (v / 2))
    regroup = rw (round_result d r v) (omega arith)

-- The loop ends with `value` used up; it has put the reversed bits below those of `result`.
reflect_loop_lem :
    (d fuel s r v : ℕ)
    → s ≤ fuel
    → v < 2 ^ s
    → let (result, value, shifts) = reflect_loop (suc d) fuel r v s in
      (value ≡ 0) × (result * 2 ^ shifts % 2 ^ suc d ≡ (r * 2 ^ s + reverse_bits s v) % 2 ^ suc d)
unfolding reflect_loop reverse_bits
reflect_loop_lem d zero zero r v p q = (omega arith, ap (λ t. t % 2 ^ suc d) (omega arith))
reflect_loop_lem d zero (suc s) r v p q = absurd (omega arith)
reflect_loop_lem d (suc fuel) zero r v p q =
    let e : v ≡ 0 = omega arith in rw e (refl, ap (λ t. t % 2 ^ suc d) (omega arith))
reflect_loop_lem d (suc fuel) (suc s) r v p q = elim (Bool-cases (v == 0)) [
  | inl done ↦
      let e : v ≡ 0 = (==_iff v 0).0 done in
      rw e (refl, ap (λ t. t % 2 ^ suc d) (omega (arith, reverse_bits-zero s)))
  | inr more ↦
      let e : suc s - 1 ≡ s = omega arith in
      let (used, result) =
        reflect_loop_lem d fuel s (bit_or (r * 2 % 2 ^ suc d) (bit_and v 1)) (v / 2) (omega arith)
          (omega (arith, pow-suc 2 s)) in
      rw (more, e, reflect_loop) (used, result ∙ round_lem d r v s)
]

-- The reversal read from the other end.
reverse_bits-suc : (n v : ℕ) → reverse_bits (suc n) v ≡ reverse_bits n v * 2 + v / 2 ^ n % 2
unfolding reverse_bits
reverse_bits-suc zero v = omega arith
reverse_bits-suc (suc n) v = omega (
  arith,
  reverse_bits-suc n (v / 2),
  mul-two-pow-suc (v % 2) n,
  ap (λ (t : ℕ). t % 2) (div-two-pow-suc n v),
)

reverse_bits-mod : (n v : ℕ) → reverse_bits n (v % 2 ^ n) ≡ reverse_bits n v
unfolding reverse_bits
reverse_bits-mod zero v = refl
reverse_bits-mod (suc n) v = rw (low, rest, reverse_bits-mod n (v / 2)) refl
  where
    low : v % 2 ^ suc n % 2 ≡ v % 2
    low = omega (arith, mod-two-pow-double n v)

    rest : v % 2 ^ suc n / 2 ≡ v / 2 % 2 ^ n
    rest = omega (arith, mod-two-pow-double n v)

pub reverse_bits_twice : (n v : ℕ) → reverse_bits n (reverse_bits n v) ≡ v % 2 ^ n
reverse_bits_twice zero v = unfold reverse_bits in omega arith
reverse_bits_twice (suc n) v =
    reverse_bits-suc n (reverse_bits (suc n) v)
    ∙ omega (
      arith,
      sym (reverse_bits-mod n (reverse_bits (suc n) v)),
      ap (reverse_bits n) low,
      reverse_bits_twice n (v / 2),
      high,
      mod-two-pow-double n v,
    )
  where
    low : reverse_bits (suc n) v % 2 ^ n ≡ reverse_bits n (v / 2)
    low = unfold reverse_bits in mul-add-mod (v % 2) (reverse_bits-lt n (v / 2))

    high : reverse_bits (suc n) v / 2 ^ n ≡ v % 2
    high = unfold reverse_bits in mul-add-div_of_lt (v % 2) (reverse_bits-lt n (v / 2))

-- For every unsigned type and every value of it, `reflect` returns the value's bits in the
-- opposite order.
pub reflect-eq-reverse_bits : (d v : ℕ) → v < 2 ^ suc d → reflect (suc d) v ≡ reverse_bits (suc d) v
unfolding reflect reverse_bits
reflect-eq-reverse_bits d v h =
    let e : suc d - 1 ≡ d = omega arith in
    rw e (
      (reflect_loop_lem d (suc d) d v (v / 2) (omega arith) (omega (arith, pow-suc 2 d))).1
      ∙ mod-eq_of_mul-add (v * 2 ^ d + reverse_bits d (v / 2)) (v / 2) parts
          (reverse_bits-lt (suc d) v))
  where
    parts :
        v * 2 ^ d + reverse_bits d (v / 2)
        ≡ v / 2 * 2 ^ suc d + (v % 2 * 2 ^ d + reverse_bits d (v / 2))
    parts = omega (
      arith,
      ap (λ (t : ℕ). t * 2 ^ d) (div-add-mod' v 2),
      ap (λ (t : ℕ). v / 2 * t) (pow-suc 2 d),
    )

pub reflect-lt : (d v : ℕ) → v < 2 ^ suc d → reflect (suc d) v < 2 ^ suc d
reflect-lt d v h = rw (reflect-eq-reverse_bits d v h) (reverse_bits-lt (suc d) v)

-- Reflecting twice gives the value back, for every unsigned type and every value of it.
pub reflect_twice : (d v : ℕ) → v < 2 ^ suc d → reflect (suc d) (reflect (suc d) v) ≡ v
reflect_twice d v h =
    reflect-eq-reverse_bits d (reflect (suc d) v) (reflect-lt d v h)
    ∙ ap (reverse_bits (suc d)) (reflect-eq-reverse_bits d v h)
    ∙ reverse_bits_twice (suc d) v
    ∙ mod-eq_of_lt h
