-- ===== src/Common/Bits/At.antt =====
-- One bit of a number.
use Prim.Native.Nat.{ℕ, zero, suc, ◌+◌, ◌-◌, ◌/◌, ◌%◌, ◌^◌, ◌<◌, min, max, bit_and, bit_or, bit_xor}
use mathlib.Core.Path.{◌≡◌, ap, ◌∙◌}
use mathlib.Core.Bool.{Bool, true, not, ◌&&◌, ◌||◌}
use native.Mathlib.Nat.{pow-suc}
use native.Mathlib.Omega.{arith}
use picolibrary.Common.{◌==◌}
use picolibrary.Common.Modular.{two-pow-pos}
use picolibrary.Common.Bits.Step.{bit_and_step, bit_or_step, bit_xor_step}

unfoldable pub bit_at : ℕ → ℕ → Bool
bit_at zero a = a % 2 == 1
bit_at (suc i) a = bit_at i (a / 2)

pub bit_at-bit_and : (i a b : ℕ) → bit_at i (bit_and a b) ≡ (bit_at i a && bit_at i b)
unfolding bit_at
bit_at-bit_and zero a b =
    let step = bit_and_step a b in
    let low : bit_and a b % 2 ≡ min (a % 2) (b % 2) = omega (arith, step) in rw low (ground arith)
bit_at-bit_and (suc i) a b =
    let step = bit_and_step a b in
    let half : bit_and a b / 2 ≡ bit_and (a / 2) (b / 2) = omega (arith, step) in
    ap (bit_at i) half ∙ bit_at-bit_and i (a / 2) (b / 2)

pub bit_at-bit_or : (i a b : ℕ) → bit_at i (bit_or a b) ≡ (bit_at i a || bit_at i b)
unfolding bit_at
bit_at-bit_or zero a b =
    let step = bit_or_step a b in
    let low : bit_or a b % 2 ≡ max (a % 2) (b % 2) = omega (arith, step) in rw low (ground arith)
bit_at-bit_or (suc i) a b =
    let step = bit_or_step a b in
    let half : bit_or a b / 2 ≡ bit_or (a / 2) (b / 2) = omega (arith, step) in
    ap (bit_at i) half ∙ bit_at-bit_or i (a / 2) (b / 2)

pub bit_at-mask : (i d : ℕ) → i < d → bit_at i (2 ^ d - 1) ≡ true
unfolding bit_at
bit_at-mask i zero h = absurd (omega arith)
bit_at-mask zero (suc d) h = let double = pow-suc 2 d in let pos = two-pow-pos d in ground arith
bit_at-mask (suc i) (suc d) h =
    let double = pow-suc 2 d in
    let pos = two-pow-pos d in
    let half : (2 ^ suc d - 1) / 2 ≡ 2 ^ d - 1 = omega arith in
    ap (bit_at i) half ∙ bit_at-mask i d (omega arith)

pub bit_at-complement : (i d a : ℕ) → i < d → bit_at i (bit_xor a (2 ^ d - 1)) ≡ not (bit_at i a)
unfolding bit_at
bit_at-complement i zero a h = absurd (omega arith)
bit_at-complement zero (suc d) a h =
    let step = bit_xor_step a (2 ^ suc d - 1) in
    let double = pow-suc 2 d in
    let pos = two-pow-pos d in
    let odd : (2 ^ suc d - 1) % 2 ≡ 1 = omega arith in
    let low : bit_xor a (2 ^ suc d - 1) % 2 ≡ (a % 2 + 1) % 2 = omega arith in rw low (ground arith)
bit_at-complement (suc i) (suc d) a h =
    let step = bit_xor_step a (2 ^ suc d - 1) in
    let double = pow-suc 2 d in
    let pos = two-pow-pos d in
    let half : (2 ^ suc d - 1) / 2 ≡ 2 ^ d - 1 = omega arith in
    let upper : bit_xor a (2 ^ suc d - 1) / 2 ≡ bit_xor (a / 2) ((2 ^ suc d - 1) / 2) =
      omega arith in
    ap (bit_at i) (upper ∙ ap (bit_xor (a / 2)) half) ∙ bit_at-complement i d (a / 2) (omega arith)
