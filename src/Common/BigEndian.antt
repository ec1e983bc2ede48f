-- ===== src/Common/BigEndian.antt =====
-- Sequences of bytes as numbers, the first byte highest.
use native.Mathlib.Nat.{mod-eq_of_lt, mod-lt, div-add-mod', mul-le-mul_right, mul-add-div_right}
use native.Mathlib.Decide.{dec_lt}
use Prim.Native.Nat.{ℕ, zero, suc, ◌+◌, ◌*◌, ◌/◌, ◌%◌, ◌^◌, ◌<◌, bit_or}
use mathlib.Core.Path.{◌≡◌, refl, sym, ap, ap₂, ◌∙◌}
use mathlib.Core.Logic.{◌⊎◌, inl, inr, ◌↔◌}
use mathlib.Core.List.{List, [], ◌∷◌}
use native.Mathlib.Omega.{arith}
use picolibrary.Common.Lists.{length}
use picolibrary.Common.Bits.{bit_or_fields}
use picolibrary.Common.Modular.{mod-eq_of_mul-add, two-pow-pos, two-pow-add, mul-add-div_of_lt}

abbrev pub IsBytes : List ℕ → Type 0
IsBytes [] = Unit
IsBytes (b ∷ bytes) = (b < 256) × IsBytes bytes

unfoldable pub value_from : ℕ → List ℕ → ℕ
value_from acc [] = acc
value_from acc (b ∷ bytes) = value_from (acc * 2 ^ 8 + b) bytes

unfoldable pub big_endian_value : List ℕ → ℕ
unfolding value_from
big_endian_value bytes = value_from 0 bytes

unfoldable pub big_endian_bytes : ℕ → ℕ → List ℕ
big_endian_bytes zero v = []
big_endian_bytes (suc n) v = v / 2 ^ (8 * n) % 2 ^ 8 ∷ big_endian_bytes n v

eight-suc : (n : ℕ) → 2 ^ (8 * suc n) ≡ 2 ^ (8 * n) * 256
eight-suc n = ap (λ k. 2 ^ k) (omega arith) ∙ two-pow-add (8 * n) 8

value_from-eq :
    (acc : ℕ) (bytes : List ℕ)
    → value_from acc bytes ≡ acc * 2 ^ (8 * length bytes) + value_from 0 bytes
unfolding value_from
value_from-eq acc [] = omega arith
value_from-eq acc (b ∷ bytes) =
    value_from-eq (acc * 2 ^ 8 + b) bytes
    ∙ omega (
      arith,
      value_from-eq (0 * 2 ^ 8 + b) bytes,
      ap (λ (t : ℕ). acc * t) (eight-suc (length bytes)),
    )

value_cons :
    (b : ℕ) (bytes : List ℕ)
    → value_from 0 (b ∷ bytes) ≡ b * 2 ^ (8 * length bytes) + value_from 0 bytes
unfolding value_from
value_cons b bytes =
    let e : 0 * 2 ^ 8 + b ≡ b = omega arith in
    ap (λ a. value_from a bytes) e ∙ value_from-eq b bytes

pub value-lt : (bytes : List ℕ) → IsBytes bytes → value_from 0 bytes < 2 ^ (8 * length bytes)
value-lt [] h = unfold value_from in omega arith
value-lt (b ∷ bytes) h =
    let below = value-lt bytes h.1 in
    omega (
      arith,
      value_cons b bytes,
      eight-suc (length bytes),
      mul-le-mul_right {m = b} {n = 255} (2 ^ (8 * length bytes)) (omega (arith, h.0)),
    )

byte_split : (n v : ℕ) → v % 2 ^ (8 * suc n) ≡ v / 2 ^ (8 * n) % 256 * 2 ^ (8 * n) + v % 2 ^ (8 * n)
byte_split n v = mod-eq_of_mul-add v (v / 2 ^ (8 * n) / 256) parts (
    omega (
      arith,
      eight-suc n,
      mod-lt v (two-pow-pos (8 * n)),
      mul-le-mul_right {m = v / 2 ^ (8 * n) % 256} {n = 255} (2 ^ (8 * n)) (omega arith),
    ))
  where
    parts :
        v
        ≡ v / 2 ^ (8 * n) / 256 * 2 ^ (8 * suc n)
          + (v / 2 ^ (8 * n) % 256 * 2 ^ (8 * n) + v % 2 ^ (8 * n))
    parts = omega (
      arith,
      div-add-mod' v (2 ^ (8 * n)),
      ap (λ (t : ℕ). t * 2 ^ (8 * n)) (div-add-mod' (v / 2 ^ (8 * n)) 256),
      ap (λ (t : ℕ). v / 2 ^ (8 * n) / 256 * t) (eight-suc n),
    )

-- Reading the bytes of a number.
pub value-bytes :
    (n acc v : ℕ) → value_from acc (big_endian_bytes n v) ≡ acc * 2 ^ (8 * n) + v % 2 ^ (8 * n)
unfolding value_from big_endian_bytes
value-bytes zero acc v = omega arith
value-bytes (suc n) acc v =
    value-bytes n (acc * 2 ^ 8 + v / 2 ^ (8 * n) % 2 ^ 8) v
    ∙ omega (arith, byte_split n v, ap (λ (t : ℕ). acc * t) (eight-suc n))

bytes-mod : (n q r : ℕ) → big_endian_bytes n (q * 2 ^ (8 * n) + r) ≡ big_endian_bytes n r
unfolding big_endian_bytes
bytes-mod zero q r = refl
bytes-mod (suc n) q r =
    ap₂ (λ h t. h ∷ t)
      (ap (λ t. t % 256)
          (ap (λ t. t / 2 ^ (8 * n)) moved ∙ mul-add-div_right (two-pow-pos (8 * n)) (q * 256) r)
        ∙ omega arith)
      (ap (big_endian_bytes n) moved ∙ bytes-mod n (q * 256) r)
  where
    moved : q * 2 ^ (8 * suc n) + r ≡ q * 256 * 2 ^ (8 * n) + r
    moved = omega (arith, ap (λ (t : ℕ). q * t) (eight-suc n))

-- The bytes of the number that a sequence of bytes stands for.
pub bytes-value :
    (bytes : List ℕ) → IsBytes bytes → big_endian_bytes (length bytes) (value_from 0 bytes) ≡ bytes
unfolding big_endian_bytes
bytes-value [] h = refl
bytes-value (b ∷ bytes) h =
    ap₂ (λ x xs. x ∷ xs)
      (ap (λ t. t / 2 ^ (8 * length bytes) % 256) parts
        ∙ ap (λ t. t % 256) (mul-add-div_of_lt b (value-lt bytes h.1))
        ∙ mod-eq_of_lt h.0)
      (ap (big_endian_bytes (length bytes)) parts
        ∙ bytes-mod (length bytes) b (value_from 0 bytes)
        ∙ bytes-value bytes h.1)
  where
    parts : value_from 0 (b ∷ bytes) ≡ b * 2 ^ (8 * length bytes) + value_from 0 bytes
    parts = value_cons b bytes

-- The order of two sequences byte by byte, the first byte first.
unfoldable pub IsBefore : List ℕ → List ℕ → Type 0
IsBefore [] ys = ⊥
IsBefore (x ∷ xs) [] = ⊥
IsBefore (x ∷ xs) (y ∷ ys) = (x < y) ⊎ ((x ≡ y) × IsBefore xs ys)

-- The first field decides, where it differs.
field-lt : (p x y vx vy : ℕ) → vx < p → x < y → x * p + vx < y * p + vy
field-lt p x y vx vy hv h = omega (arith, mul-le-mul_right {m = x + 1} {n = y} p (omega arith))

-- It is the order of the numbers, for sequences of the same length.
pub value-lt_iff-IsBefore :
    (xs ys : List ℕ)
    → length xs ≡ length ys
    → IsBytes xs
    → IsBytes ys
    → (value_from 0 xs < value_from 0 ys) ↔ IsBefore xs ys
unfolding IsBefore
value-lt_iff-IsBefore [] [] e hx hy = (λ h. absurd (omega arith), λ h. absurd h)
value-lt_iff-IsBefore [] (y ∷ ys) e hx hy = absurd (omega arith)
value-lt_iff-IsBefore (x ∷ xs) [] e hx hy = absurd (omega arith)
value-lt_iff-IsBefore (x ∷ xs) (y ∷ ys) e hx hy =
    let p = 2 ^ (8 * length ys) in
    let same : length xs ≡ length ys = omega arith in
    let left : value_from 0 (x ∷ xs) ≡ x * p + value_from 0 xs =
      value_cons x xs ∙ ap (λ n. x * 2 ^ (8 * n) + value_from 0 xs) same in
    let below : value_from 0 xs < p = rw (sym same) (value-lt xs hx.1) in
    let rest = value-lt_iff-IsBefore xs ys same hx.1 hy.1 in
    rw (left, value_cons y ys)
      (
        λ h. elim (dec_lt x y) [
          | yes q ↦ inl q
          | no q ↦ elim (dec_lt y x) [
            | yes r ↦ absurd (
                omega
                  (arith, field-lt p y x (value_from 0 ys) (value_from 0 xs) (value-lt ys hy.1) r))
            | no r ↦
                let e' : x ≡ y = omega arith in
                inr (e', rest.0 (omega (arith, ap (λ (t : ℕ). t * p) e')))
          ]
        ],
        λ t. elim t [
          | inl q ↦ field-lt p x y (value_from 0 xs) (value_from 0 ys) below q
          | inr (e', b) ↦ omega (arith, rest.1 b, ap (λ (t : ℕ). t * p) e')
        ],
      )

-- One more byte put below a number that ends at bit `k + 8`.
pub or_byte : (k q b : ℕ) → b < 256 → bit_or (q * 2 ^ (k + 8)) (b * 2 ^ k) ≡ (q * 2 ^ 8 + b) * 2 ^ k
or_byte k q b h =
    bit_or_fields (k + 8) q (b * 2 ^ k) (
      omega (
        arith,
        two-pow-add k 8,
        mul-le-mul_right {m = b} {n = 255} (2 ^ k) (omega arith),
        two-pow-pos k,
      ))
    ∙ omega (arith, ap (λ (t : ℕ). q * t) (two-pow-add k 8))

-- Shifted bytes put together by `|`, the first already in `word`.
abbrev pub or_shifted : ℕ → List ℕ → ℕ
or_shifted word [] = word
or_shifted word (b ∷ bytes) = or_shifted (bit_or word (b * 2 ^ (8 * length bytes))) bytes

pub or_shifted-eq :
    (acc : ℕ) (bytes : List ℕ)
    → IsBytes bytes
    → or_shifted (acc * 2 ^ (8 * length bytes)) bytes ≡ value_from acc bytes
unfolding value_from
or_shifted-eq acc [] h = omega arith
or_shifted-eq acc (b ∷ bytes) h =
    let e : 8 * suc (length bytes) ≡ 8 * length bytes + 8 = omega arith in
    ap (λ k. or_shifted (bit_or (acc * 2 ^ k) (b * 2 ^ (8 * length bytes))) bytes) e
    ∙ ap (λ w. or_shifted w bytes) (or_byte (8 * length bytes) acc b h.0)
    ∙ or_shifted-eq (acc * 2 ^ 8 + b) bytes h.1

pub big_endian_bytes-IsBytes : (n v : ℕ) → IsBytes (big_endian_bytes n v)
unfolding big_endian_bytes
big_endian_bytes-IsBytes zero v = tt
big_endian_bytes-IsBytes (suc n) v = (omega arith, big_endian_bytes-IsBytes n v)
