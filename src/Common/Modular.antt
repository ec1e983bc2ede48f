-- ===== src/Common/Modular.antt =====
-- Quotients and remainders by a variable modulus, mostly a power of two.
use Prim.Native.Nat.{◌≤◌, ◌-◌, ℕ, zero, suc, ◌+◌, ◌*◌, ◌/◌, ◌%◌, ◌^◌, ◌<◌}
use mathlib.Core.Path.{◌≡◌, sym, ap, ◌∙◌}
use native.Mathlib.Nat.{
  pow-suc, one-le-pow, mod-lt, mod-eq_of_lt, mod-eq-sub-mod, div-eq_of_lt, mul-add-mod_self_right,
  mul-add-div_right, div-add-mod', add-zero, mul_assoc, mul_comm, div-lt_iff_lt-mul,
  mul-lt-mul_of_pos_right, mul-le-mul_right, add-mul-mod_self_right, div-div-eq-div-mul, pow-succ',
}
use native.Mathlib.Omega.{arith}

pub two-pow-pos : (k : ℕ) → 0 < 2 ^ k
two-pow-pos k = omega (arith, one-le-pow k 2)

pub mul-add-mod : (q : ℕ) {r m : ℕ} → r < m → (q * m + r) % m ≡ r
mul-add-mod q {r} {m} h = mul-add-mod_self_right q m r ∙ mod-eq_of_lt h

pub mul-add-div_of_lt : (q : ℕ) {r m : ℕ} → r < m → (q * m + r) / m ≡ q
mul-add-div_of_lt q {r} {m} h =
    mul-add-div_right (omega arith) q r ∙ ap (λ x. q + x) (div-eq_of_lt h) ∙ add-zero q

pub mul-two-pow-suc : (q k : ℕ) → q * 2 ^ suc k ≡ q * 2 ^ k * 2
mul-two-pow-suc q k = omega (arith, ap (λ (t : ℕ). q * t) (pow-suc 2 k))

-- Powers of two multiply by adding exponents.
pub two-pow-add : (a b : ℕ) → 2 ^ (a + b) ≡ 2 ^ a * 2 ^ b
two-pow-add a zero = ground arith
two-pow-add a (suc b) =
    let e : a + suc b ≡ suc (a + b) = omega arith in
    rw e (
      omega (
        arith,
        pow-suc 2 (a + b),
        ap (λ (t : ℕ). 2 ^ a * t) (pow-suc 2 b),
        two-pow-add a b,
        mul_assoc (2 ^ a) (2 ^ b) 2,
      ))

-- The remainder is what is left of a number below the modulus beside a multiple of it.
pub mod-eq_of_mul-add : (a q : ℕ) {r m : ℕ} → a ≡ q * m + r → r < m → a % m ≡ r
mod-eq_of_mul-add a q e h = rw e (mul-add-mod q h)

-- A left shift by `c` in a word of `d + c` bits drops the top `c` bits.
pub shift_left-lt : (c d a : ℕ) → a < 2 ^ d → a * 2 ^ c < 2 ^ (d + c)
shift_left-lt c d a h = rw two-pow-add (mul-lt-mul_of_pos_right h (two-pow-pos c))

pub shift_left-mod : (c d a : ℕ) → a * 2 ^ c % 2 ^ (d + c) ≡ a % 2 ^ d * 2 ^ c
shift_left-mod c d a =
    mod-eq_of_mul-add (a * 2 ^ c) (a / 2 ^ d) parts
      (shift_left-lt c d (a % 2 ^ d) (mod-lt a (two-pow-pos d)))
  where
    parts : a * 2 ^ c ≡ a / 2 ^ d * 2 ^ (d + c) + a % 2 ^ d * 2 ^ c
    parts = omega (
      arith,
      ap (λ (t : ℕ). t * 2 ^ c) (div-add-mod' a (2 ^ d)),
      ap (λ (t : ℕ). a / 2 ^ d * t) (two-pow-add d c),
    )

pub shift_right-lt : (c d a : ℕ) → a < 2 ^ (d + c) → a / 2 ^ d < 2 ^ c
shift_right-lt c d a h =
    (div-lt_iff_lt-mul (two-pow-pos d)).1 (omega (arith, two-pow-add d c, mul_comm (2 ^ c) (2 ^ d)))

-- Shifts compose.
pub shift_right-add : (b c x : ℕ) → x / 2 ^ b / 2 ^ c ≡ x / 2 ^ (b + c)
shift_right-add b c x =
    div-div-eq-div-mul x (2 ^ b) (2 ^ c) ∙ ap (λ t. x / t) (sym (two-pow-add b c))

pub div-two-pow-suc : (k x : ℕ) → x / 2 ^ suc k ≡ x / 2 / 2 ^ k
div-two-pow-suc k x = ap (λ t. x / t) (pow-succ' 2 k) ∙ sym (div-div-eq-div-mul x 2 (2 ^ k))

-- The lowest `k + 1` bits are bit `k` and the lowest `k`, or the lowest bit and the next `k`.
pub mod-two-pow-suc : (k x : ℕ) → x % 2 ^ suc k ≡ x / 2 ^ k % 2 * 2 ^ k + x % 2 ^ k
mod-two-pow-suc k x = mod-eq_of_mul-add x (x / 2 ^ k / 2) parts (
    omega (
      arith,
      pow-suc 2 k,
      mod-lt x (two-pow-pos k),
      mul-le-mul_right {m = x / 2 ^ k % 2} {n = 1} (2 ^ k) (omega arith),
    ))
  where
    parts : x ≡ x / 2 ^ k / 2 * 2 ^ suc k + (x / 2 ^ k % 2 * 2 ^ k + x % 2 ^ k)
    parts = omega (
      arith,
      div-add-mod' x (2 ^ k),
      ap (λ (t : ℕ). t * 2 ^ k) (div-add-mod' (x / 2 ^ k) 2),
      ap (λ (t : ℕ). x / 2 ^ k / 2 * t) (pow-suc 2 k),
    )

pub mod-two-pow-double : (k x : ℕ) → x % 2 ^ suc k ≡ x / 2 % 2 ^ k * 2 + x % 2
mod-two-pow-double k x =
    mod-eq_of_mul-add x (x / 2 / 2 ^ k) parts
      (omega (arith, pow-suc 2 k, mod-lt (x / 2) (two-pow-pos k)))
  where
    parts : x ≡ x / 2 / 2 ^ k * 2 ^ suc k + (x / 2 % 2 ^ k * 2 + x % 2)
    parts =
        omega (arith, div-add-mod' (x / 2) (2 ^ k), ap (λ (t : ℕ). x / 2 / 2 ^ k * t) (pow-suc 2 k))

-- A low part of a low part.
pub mod-mod-two-pow : (j k x : ℕ) → x % 2 ^ (j + k) % 2 ^ k ≡ x % 2 ^ k
mod-mod-two-pow j k x = sym (
    mod-eq_of_mul-add x (x / 2 ^ (j + k) * 2 ^ j + x % 2 ^ (j + k) / 2 ^ k) parts
      (mod-lt (x % 2 ^ (j + k)) (two-pow-pos k)))
  where
    parts :
        x ≡ (x / 2 ^ (j + k) * 2 ^ j + x % 2 ^ (j + k) / 2 ^ k) * 2 ^ k + x % 2 ^ (j + k) % 2 ^ k
    parts = omega (
      arith,
      div-add-mod' x (2 ^ (j + k)),
      div-add-mod' (x % 2 ^ (j + k)) (2 ^ k),
      ap (λ (t : ℕ). x / 2 ^ (j + k) * t) (two-pow-add j k),
    )

-- Reducing a factor first changes nothing modulo the same modulus.
pub mod-mul-add-mod : (a k c m : ℕ) → (a % m * k + c) % m ≡ (a * k + c) % m
mod-mul-add-mod a k c m =
    sym (add-mul-mod_self_right (a % m * k + c) (a / m * k) m) ∙ ap (λ t. t % m) parts
  where
    parts : a % m * k + c + a / m * k * m ≡ a * k + c
    parts = omega (arith, ap (λ (t : ℕ). t * k) (div-add-mod' a m))

-- A word shifted left by `c` with a field put into the bits that became free.
pub shift_left-add-mod :
    (c d a x : ℕ) → x < 2 ^ c → (a * 2 ^ c + x) % 2 ^ (d + c) ≡ a % 2 ^ d * 2 ^ c + x
shift_left-add-mod c d a x h = mod-eq_of_mul-add (a * 2 ^ c + x) (a / 2 ^ d) parts below
  where
    parts : a * 2 ^ c + x ≡ a / 2 ^ d * 2 ^ (d + c) + (a % 2 ^ d * 2 ^ c + x)
    parts = omega (
      arith,
      ap (λ (t : ℕ). t * 2 ^ c) (div-add-mod' a (2 ^ d)),
      ap (λ (t : ℕ). a / 2 ^ d * t) (two-pow-add d c),
    )

    below : a % 2 ^ d * 2 ^ c + x < 2 ^ (d + c)
    below = omega (
      arith,
      mul-le-mul_right {m = suc (a % 2 ^ d)} (2 ^ c) (mod-lt a (two-pow-pos d)),
      two-pow-add d c,
    )

pub mod_wrapped : (n a : ℕ) → a < n + n → n ≤ a → a % n ≡ a - n
mod_wrapped n a below above = mod-eq-sub-mod {n = a} {m = n} above ∙ mod-eq_of_lt (omega arith)
