-- ===== src/Common/Bits/Xor.antt =====
-- `bit_xor` is addition of bit vectors: a commutative group in which every element is its own
-- inverse, and which shifts, quotients and remainders by powers of two distribute over.
use Prim.Native.Nat.{ℕ, zero, suc, ◌+◌, ◌*◌, ◌/◌, ◌%◌, ◌^◌, ◌≤◌, ◌<◌, bit_xor, bit_xor-bitwise}
use mathlib.Core.Path.{◌≡◌, refl, sym, ap, ap₂, ◌∙◌}
use native.Mathlib.Nat.{pow-suc, mod-lt, div-add-mod'}
use native.Mathlib.Omega.{arith}
use picolibrary.Common.Bits.Step.{bit_xor_step}
use picolibrary.Common.Modular.{mul-two-pow-suc, mul-add-mod, mul-add-div_of_lt, two-pow-pos}

pub bit_xor-half : (a b : ℕ) → bit_xor a b / 2 ≡ bit_xor (a / 2) (b / 2)
bit_xor-half a b = omega (arith, bit_xor_step a b)

pub bit_xor-parity : (a b : ℕ) → bit_xor a b % 2 ≡ (a % 2 + b % 2) % 2
bit_xor-parity a b = omega (arith, bit_xor_step a b)

pub zero-bit_xor : (b : ℕ) → bit_xor 0 b ≡ b
zero-bit_xor b = bit_xor-bitwise 0 b

-- Each law below goes from the halves of its numbers to the numbers; `n` bounds them all.
bit_xor_comm_below : (n a b : ℕ) → a ≤ n → b ≤ n → bit_xor a b ≡ bit_xor b a
bit_xor_comm_below zero a b p q =
    let ea : a ≡ 0 = omega arith in let eb : b ≡ 0 = omega arith in rw (ea, eb) refl
bit_xor_comm_below (suc n) a b p q = omega (
  arith,
  bit_xor_step a b,
  bit_xor_step b a,
  bit_xor_comm_below n (a / 2) (b / 2) (omega arith) (omega arith),
)

pub bit_xor_comm : (a b : ℕ) → bit_xor a b ≡ bit_xor b a
bit_xor_comm a b = bit_xor_comm_below (a + b) a b (omega arith) (omega arith)

pub bit_xor-zero : (a : ℕ) → bit_xor a 0 ≡ a
bit_xor-zero a = bit_xor_comm a 0 ∙ zero-bit_xor a

bit_xor_self_below : (n a : ℕ) → a ≤ n → bit_xor a a ≡ 0
bit_xor_self_below zero a p = let ea : a ≡ 0 = omega arith in rw ea refl
bit_xor_self_below (suc n) a p =
    omega (arith, bit_xor_step a a, bit_xor_self_below n (a / 2) (omega arith))

pub bit_xor_self : (a : ℕ) → bit_xor a a ≡ 0
bit_xor_self a = bit_xor_self_below a a (omega arith)

bit_xor_assoc_below :
    (n a b c : ℕ) → a ≤ n → b ≤ n → c ≤ n → bit_xor (bit_xor a b) c ≡ bit_xor a (bit_xor b c)
bit_xor_assoc_below zero a b c p q r =
    let ea : a ≡ 0 = omega arith in
    let eb : b ≡ 0 = omega arith in let ec : c ≡ 0 = omega arith in rw (ea, eb, ec) refl
bit_xor_assoc_below (suc n) a b c p q r =
    bit_xor_step (bit_xor a b) c
    ∙ joined
        (bit_xor_assoc_below n (a / 2) (b / 2) (c / 2) (omega arith) (omega arith) (omega arith))
    ∙ sym (bit_xor_step a (bit_xor b c))
  where
    joined :
        bit_xor (bit_xor (a / 2) (b / 2)) (c / 2) ≡ bit_xor (a / 2) (bit_xor (b / 2) (c / 2))
        → bit_xor (bit_xor a b / 2) (c / 2) * 2 + (bit_xor a b % 2 + c % 2) % 2
          ≡ bit_xor (a / 2) (bit_xor b c / 2) * 2 + (a % 2 + bit_xor b c % 2) % 2
    joined ih =
        rw (bit_xor-half a b, bit_xor-half b c)
          (omega (arith, bit_xor-parity a b, bit_xor-parity b c))

pub bit_xor_assoc : (a b c : ℕ) → bit_xor (bit_xor a b) c ≡ bit_xor a (bit_xor b c)
bit_xor_assoc a b c =
    bit_xor_assoc_below (a + b + c) a b c (omega arith) (omega arith) (omega arith)

pub bit_xor_left_comm : (a b c : ℕ) → bit_xor a (bit_xor b c) ≡ bit_xor b (bit_xor a c)
bit_xor_left_comm a b c =
    sym (bit_xor_assoc a b c) ∙ ap (λ x. bit_xor x c) (bit_xor_comm a b) ∙ bit_xor_assoc b a c

-- Exchange of the middle terms of a sum of four.
pub bit_xor_exchange :
    (a b c d : ℕ) → bit_xor (bit_xor a b) (bit_xor c d) ≡ bit_xor (bit_xor a c) (bit_xor b d)
bit_xor_exchange a b c d =
    bit_xor_assoc a b (bit_xor c d)
    ∙ ap (bit_xor a) (bit_xor_left_comm b c d)
    ∙ sym (bit_xor_assoc a c (bit_xor b d))

pub bit_xor_cancel : (a b : ℕ) → bit_xor a (bit_xor a b) ≡ b
bit_xor_cancel a b =
    sym (bit_xor_assoc a a b) ∙ ap (λ x. bit_xor x b) (bit_xor_self a) ∙ zero-bit_xor b

-- Doubling, and a low bit beside it.
pub bit_xor-double : (a b : ℕ) → bit_xor (a * 2) (b * 2) ≡ bit_xor a b * 2
bit_xor-double a b = ground (arith, bit_xor_step (a * 2) (b * 2))

pub bit_xor-shift_left : (k a b : ℕ) → bit_xor (a * 2 ^ k) (b * 2 ^ k) ≡ bit_xor a b * 2 ^ k
bit_xor-shift_left zero a b = ground arith
bit_xor-shift_left (suc k) a b =
    rw (mul-two-pow-suc a k, mul-two-pow-suc b k, mul-two-pow-suc (bit_xor a b) k, bit_xor-double)
      (ap (λ x. x * 2) (bit_xor-shift_left k a b))

-- Numbers below a power of two stay below it.
pub bit_xor-lt : (k a b : ℕ) → a < 2 ^ k → b < 2 ^ k → bit_xor a b < 2 ^ k
bit_xor-lt zero a b p q =
    let ea : a ≡ 0 = omega arith in let eb : b ≡ 0 = omega arith in rw (ea, eb) (omega arith)
bit_xor-lt (suc k) a b p q = omega (
  arith,
  pow-suc 2 k,
  bit_xor_step a b,
  bit_xor-lt k (a / 2) (b / 2) (omega (arith, pow-suc 2 k)) (omega (arith, pow-suc 2 k)),
)

-- Disjoint fields: the sum, the exclusive or and (in Masks) the inclusive or agree.
pub bit_xor_fields : (k q r : ℕ) → r < 2 ^ k → bit_xor (q * 2 ^ k) r ≡ q * 2 ^ k + r
bit_xor_fields zero q r h = let er : r ≡ 0 = omega arith in rw (er, bit_xor-zero) (omega arith)
bit_xor_fields (suc k) q r h = ground (
  arith,
  bit_xor_step (q * 2 ^ suc k) r,
  mul-two-pow-suc q k,
  pow-suc 2 k,
  bit_xor_fields k q (r / 2) (omega (arith, pow-suc 2 k)),
)

split_at : (k a : ℕ) → bit_xor (a / 2 ^ k * 2 ^ k) (a % 2 ^ k) ≡ a
split_at k a =
    bit_xor_fields k (a / 2 ^ k) (a % 2 ^ k) (mod-lt a (two-pow-pos k)) ∙ div-add-mod' a (2 ^ k)

bit_xor-split :
    (k a b : ℕ)
    → bit_xor a b ≡ bit_xor (a / 2 ^ k) (b / 2 ^ k) * 2 ^ k + bit_xor (a % 2 ^ k) (b % 2 ^ k)
bit_xor-split k a b =
    ap₂ bit_xor (sym (split_at k a)) (sym (split_at k b))
    ∙ bit_xor_exchange (a / 2 ^ k * 2 ^ k) (a % 2 ^ k) (b / 2 ^ k * 2 ^ k) (b % 2 ^ k)
    ∙ ap (λ x. bit_xor x (bit_xor (a % 2 ^ k) (b % 2 ^ k)))
        (bit_xor-shift_left k (a / 2 ^ k) (b / 2 ^ k))
    ∙ bit_xor_fields k (bit_xor (a / 2 ^ k) (b / 2 ^ k)) (bit_xor (a % 2 ^ k) (b % 2 ^ k))
        (low_parts-lt k a b)
  where
    low_parts-lt : (k a b : ℕ) → bit_xor (a % 2 ^ k) (b % 2 ^ k) < 2 ^ k
    low_parts-lt k a b =
        bit_xor-lt k (a % 2 ^ k) (b % 2 ^ k) (mod-lt a (two-pow-pos k)) (mod-lt b (two-pow-pos k))

pub bit_xor-mod : (k a b : ℕ) → bit_xor a b % 2 ^ k ≡ bit_xor (a % 2 ^ k) (b % 2 ^ k)
bit_xor-mod k a b =
    ap (λ x. x % 2 ^ k) (bit_xor-split k a b)
    ∙ mul-add-mod (bit_xor (a / 2 ^ k) (b / 2 ^ k))
        (bit_xor-lt k (a % 2 ^ k) (b % 2 ^ k) (mod-lt a (two-pow-pos k)) (mod-lt b (two-pow-pos k)))

pub bit_xor-shift_right : (k a b : ℕ) → bit_xor a b / 2 ^ k ≡ bit_xor (a / 2 ^ k) (b / 2 ^ k)
bit_xor-shift_right k a b =
    ap (λ x. x / 2 ^ k) (bit_xor-split k a b)
    ∙ mul-add-div_of_lt (bit_xor (a / 2 ^ k) (b / 2 ^ k))
        (bit_xor-lt k (a % 2 ^ k) (b % 2 ^ k) (mod-lt a (two-pow-pos k)) (mod-lt b (two-pow-pos k)))
