-- ===== src/CircularBuffer/Index.antt =====
-- Positions round a ring of `n` slots, counted from a position `r`.
use native.Mathlib.Nat.{mod-add-mod, mod-eq_of_lt, pow-suc, pow-le-pow_right}
use native.Mathlib.Decide.{dec_lt}
use picolibrary.Common.{
  ℕ, suc, ◌+◌, ◌-◌, ◌%◌, ◌^◌, ◌≤◌, ◌<◌, ◌≡◌, ◌≢◌, ap, ◌∙◌, bit_and, true, arith,
}
use picolibrary.Common.Bits.{bit_and_mask}
use picolibrary.Common.Modular.{two-pow-pos, mod_wrapped}
use picolibrary.BitManipulation.{is_power_of_two}
use picolibrary.BitManipulation.PowerOfTwo.{is_power_of_two_iff}

-- Going on from the next position is going one further.
pub index_next : (n r k : ℕ) → ((r + 1) % n + k) % n ≡ (r + suc k) % n
index_next n r k = mod-add-mod (r + 1) n k ∙ ap (λ t. t % n) (omega arith)

-- Fewer than `n` steps lead to different positions.
pub index_ne : (n r j k : ℕ) → r < n → j < n → k < n → j ≢ k → (r + j) % n ≢ (r + k) % n
index_ne n r j k hr hj hk ne same = elim (dec_lt (r + j) n) [
  | yes p ↦ elim (dec_lt (r + k) n) [
    | yes q ↦ ne (omega (arith, mod-eq_of_lt p, mod-eq_of_lt q))
    | no q ↦ omega (arith, mod-eq_of_lt p, mod_wrapped n (r + k) (omega arith) (omega arith))
  ]
  | no p ↦ elim (dec_lt (r + k) n) [
    | yes q ↦ omega (arith, mod-eq_of_lt q, mod_wrapped n (r + j) (omega arith) (omega arith))
    | no q ↦ ne (
        omega (
          arith,
          mod_wrapped n (r + j) (omega arith) (omega arith),
          mod_wrapped n (r + k) (omega arith) (omega arith),
        ))
  ]
]

-- The wrap around mask of a capacity that is a power of two is the remainder by the capacity.
pub mask-mod :
    (capacity i : ℕ) → is_power_of_two capacity ≡ true → bit_and i (capacity - 1) ≡ i % capacity
mask-mod capacity i h = let (k, e) = (is_power_of_two_iff capacity).0 h in rw e (bit_and_mask k i)

pub capacity-pos : (capacity : ℕ) → is_power_of_two capacity ≡ true → 0 < capacity
capacity-pos capacity h = let (k, e) = (is_power_of_two_iff capacity).0 h in rw e (two-pow-pos k)

pub advance-mod :
    (digits capacity i : ℕ)
    → is_power_of_two capacity ≡ true
    → capacity < 2 ^ digits
    → i < capacity
    → bit_and ((i + 1) % 2 ^ digits) (capacity - 1) ≡ (i + 1) % capacity
advance-mod digits capacity i h small below =
    ap (λ t. bit_and t (capacity - 1)) (mod-eq_of_lt (omega arith)) ∙ mask-mod capacity (i + 1) h

-- `Size_Type` holds twice the capacity: the sums of two indices do not wrap around more than once.
pub capacity-double :
    (digits capacity : ℕ)
    → is_power_of_two capacity ≡ true
    → capacity < 2 ^ digits
    → capacity + capacity ≤ 2 ^ digits
capacity-double digits capacity h small =
    let (k, e) = (is_power_of_two_iff capacity).0 h in exponent k e
  where
    exponent : (k : ℕ) → capacity ≡ 2 ^ k → capacity + capacity ≤ 2 ^ digits
    exponent k e = elim (dec_lt k digits) [
      | yes p ↦
          omega (
            arith,
            e,
            pow-suc 2 k,
            pow-le-pow_right {n = 2} (omega arith) {i = suc k} {j = digits} p,
          )
      | no q ↦
          omega
            (arith, e, pow-le-pow_right {n = 2} (omega arith) {i = digits} {j = k} (omega arith))
    ]
