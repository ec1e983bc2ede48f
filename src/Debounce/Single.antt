-- ===== src/Debounce/Single.antt =====
-- The single signal debouncer against its history of samples, newest first, behind which stand as
-- many samples as the debouncer takes of the initial state.
use native.Mathlib.Nat.{pow-suc}
use mathlib.Core.Bool.{true≢false}
use picolibrary.Common.{
  ℕ, zero, suc, ◌+◌, ◌-◌, ◌*◌, ◌/◌, ◌%◌, ◌^◌, ◌≤◌, ◌<◌, ◌≡◌, refl, sym, ap, ap₂, ◌∙◌, Bool, true,
  false, bit_and, bit_or, bit_of, ◌==◌, if◌then◌else◌, List, [], ◌∷◌, ◌++◌, length, replicate,
  length-replicate, length-append, arith,
}
use picolibrary.Common.Bits.{bit_and_mask, bit_or_fields}
use picolibrary.Common.Modular.{two-pow-pos, mod-two-pow-double, mod-mul-add-mod, mod-mod-two-pow}
use picolibrary.BitManipulation.Field.{mask_lem}
use picolibrary.Debounce.{
  SingleSignalDebouncer, samples_mask, new_single_signal_debouncer, debounce, is_high,
}

-- The `n` newest samples of a history are all `level`.
unfoldable pub all_of : Bool → ℕ → List Bool → Bool
all_of level zero history = true
all_of level (suc n) [] = false
all_of true (suc n) (x ∷ history) = if x then all_of true n history else false
all_of false (suc n) (x ∷ history) = if x then false else all_of false n history

-- The state that the samples settle: the level of the newest run of `n` equal samples.
unfoldable pub settled : ℕ → Bool → List Bool → Bool
unfolding all_of
settled n initial [] = initial
settled n initial (x ∷ older) =
    let before = settled n initial older in
    if all_of true n (x ∷ older ++ replicate n initial)
    then true
    else if all_of false n (x ∷ older ++ replicate n initial)
    then false
    else before

-- The samples as a number, the newest lowest.
number : List Bool → ℕ
number [] = 0
number (x ∷ history) = number history * 2 + bit_of x

bit_of-lt : (x : Bool) → bit_of x < 2
bit_of-lt true = omega arith
bit_of-lt false = omega arith

number_halves :
    (x : Bool) (history : List Bool) (n : ℕ)
    → number (x ∷ history) % 2 ^ suc n ≡ number history % 2 ^ n * 2 + bit_of x
unfolding number
number_halves x history n =
    let b = bit_of-lt x in
    let half : (number history * 2 + bit_of x) / 2 ≡ number history = omega arith in
    let low : (number history * 2 + bit_of x) % 2 ≡ bit_of x = omega arith in
    mod-two-pow-double n (number history * 2 + bit_of x) ∙ ap₂ (λ i j. i % 2 ^ n * 2 + j) half low

number-replicate :
    (n : ℕ) (level : Bool) → number (replicate n level) % 2 ^ n ≡ (if level then 2 ^ n - 1 else 0)
unfolding number
number-replicate zero true = omega arith
number-replicate zero false = omega arith
number-replicate (suc n) true =
    number_halves true (replicate n true) n
    ∙ omega (arith, number-replicate n true, pow-suc 2 n, two-pow-pos n)
number-replicate (suc n) false =
    number_halves false (replicate n false) n ∙ omega (arith, number-replicate n false)

odd_highest : (x p : ℕ) → 0 < p → (x * 2 + 1 == p * 2 - 1) ≡ (x == p - 1)
odd_highest x p h = ground arith

even_highest : (x p : ℕ) → 0 < p → (x * 2 + 0 == p * 2 - 1) ≡ false
even_highest x p h = ground arith

odd_zero : (x : ℕ) → (x * 2 + 1 == 0) ≡ false
odd_zero x = ground arith

even_zero : (x : ℕ) → (x * 2 + 0 == 0) ≡ (x == 0)
even_zero x = ground arith

all_high :
    (n : ℕ) (history : List Bool)
    → n ≤ length history
    → (number history % 2 ^ n == 2 ^ n - 1) ≡ all_of true n history
unfolding all_of
all_high zero history h = ground arith
all_high (suc n) [] h = absurd (omega arith)
all_high (suc n) (true ∷ history) h =
    ap₂ (λ i j. i == j - 1) (number_halves true history n) (pow-suc 2 n)
    ∙ odd_highest (number history % 2 ^ n) (2 ^ n) (two-pow-pos n)
    ∙ all_high n history (omega arith)
all_high (suc n) (false ∷ history) h =
    ap₂ (λ i j. i == j - 1) (number_halves false history n) (pow-suc 2 n)
    ∙ even_highest (number history % 2 ^ n) (2 ^ n) (two-pow-pos n)

all_low :
    (n : ℕ) (history : List Bool)
    → n ≤ length history
    → (number history % 2 ^ n == 0) ≡ all_of false n history
unfolding all_of
all_low zero history h = ground arith
all_low (suc n) [] h = absurd (omega arith)
all_low (suc n) (true ∷ history) h =
    ap (λ i. i == 0) (number_halves true history n) ∙ odd_zero (number history % 2 ^ n)
all_low (suc n) (false ∷ history) h =
    ap (λ i. i == 0) (number_halves false history n)
    ∙ even_zero (number history % 2 ^ n)
    ∙ all_low n history (omega arith)

-- Runs of both levels exclude each other.
not_both :
    (n : ℕ) (history : List Bool)
    → 0 < n
    → all_of true n history ≡ true
    → all_of false n history ≡ false
unfolding all_of
not_both zero history pos h = absurd (omega arith)
not_both (suc n) [] pos h = refl
not_both (suc n) (true ∷ history) pos h = refl
not_both (suc n) (false ∷ history) pos h = absurd (true≢false (sym h))

-- The order of two tests that exclude each other.
either_order :
    (hi lo before : Bool)
    → (hi ≡ true → lo ≡ false)
    → (if lo then false else if hi then true else before)
      ≡ (if hi then true else if lo then false else before)
either_order true true before h = sym (h refl)
either_order true false before h = refl
either_order false lo before h = refl

module _ (digits n : ℕ) (initial : Bool) where
  -- The debouncer after a history of samples.
  unfoldable pub debounce_history : List Bool → SingleSignalDebouncer
  debounce_history [] = new_single_signal_debouncer digits n initial
  debounce_history (x ∷ older) = debounce digits n (debounce_history older) x

  module _ (pos : 0 < n) (fits : n ≤ digits) (small : digits ≤ 64) where
    mask_is : samples_mask digits n ≡ 2 ^ n - 1
    unfolding samples_mask
    mask_is = mask_lem digits n 0 small (omega arith) (omega arith) ∙ omega arith

    stream_is :
        (m : ℕ) (x : Bool)
        → bit_and (bit_or (m * 2) (bit_of x) % 2 ^ digits) (2 ^ n - 1) ≡ (m * 2 + bit_of x) % 2 ^ n
    stream_is m x =
        bit_and_mask n (bit_or (m * 2) (bit_of x) % 2 ^ digits)
        ∙ ap₂ (λ i j. i % 2 ^ j % 2 ^ n) (bit_or_fields 1 m (bit_of x) (bit_of-lt x)) (omega arith)
        ∙ mod-mod-two-pow (digits - n) n (m * 2 + bit_of x)

    samples_are :
        (history : List Bool)
        → (debounce_history history).m_samples ≡ number (history ++ replicate n initial) % 2 ^ n
    unfolding debounce_history debounce new_single_signal_debouncer number
    samples_are [] = rw mask_is (sym (number-replicate n initial))
    samples_are (x ∷ older) =
        rw (mask_is, stream_is (debounce_history older).m_samples x, samples_are older)
          (mod-mul-add-mod (number (older ++ replicate n initial)) 2 (bit_of x) (2 ^ n))

    step :
        (older : List Bool) (x : Bool)
        → is_high (debounce digits n (debounce_history older) x) ≡ (
            if all_of true n (x ∷ older ++ replicate n initial)
            then true
            else if all_of false n (x ∷ older ++ replicate n initial)
            then false
            else is_high (debounce_history older))
    unfolding is_high debounce debounce_history
    step older x =
        ap₂
          (λ i j.
            if i == 0 then false else if i == j then true else (debounce_history older).m_is_high)
          (samples_are (x ∷ older)) mask_is
        ∙ ap₂
            (λ lo hi. if lo then false else if hi then true else (debounce_history older).m_is_high)
            (all_low n history enough) (all_high n history enough)
        ∙ either_order _ _ _ (not_both n history pos)
      where
        history : List Bool
        history = x ∷ older ++ replicate n initial

        enough : n ≤ length (x ∷ older ++ replicate n initial)
        enough =
            omega (arith, length-append older (replicate n initial), length-replicate n initial)

    -- After any samples, for one to `digits` samples of a type of at most 64 bits, the debounced
    -- state is the level of the newest run of `n` equal samples, where `n` samples of the initial
    -- state stand before the first.
    pub is_high-eq-settled :
        (history : List Bool) → is_high (debounce_history history) ≡ settled n initial history
    unfolding is_high debounce_history new_single_signal_debouncer settled
    is_high-eq-settled [] = refl
    is_high-eq-settled (x ∷ older) =
        step older x
        ∙ ap
            (λ b.
              if all_of true n (x ∷ older ++ replicate n initial)
              then true
              else if all_of false n (x ∷ older ++ replicate n initial)
              then false
              else b)
            (is_high-eq-settled older)
