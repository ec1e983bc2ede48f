-- ===== src/Debounce/Multiple/Signals.antt =====
-- Each signal of the debouncer against the history of its samples.
use mathlib.Core.Bool.{true≢false}
use mathlib.Core.List.{map-append, reverse, reverse-cons}
use picolibrary.Common.{
  ℕ, zero, suc, ◌<◌, ◌≡◌, refl, sym, ap, ap₂, ◌∙◌, inl, inr, Bool, true, false, not, ◌&&◌, ◌||◌,
  Bool-cases, if◌then◌else◌, bit_and, bit_or, List, [], ◌∷◌, ◌++◌, map, length, length-append,
  replicate, set, arith,
}
use picolibrary.Common.Bits.{bit_at, bit_at-bit_and, bit_at-bit_or, bit_at-mask, bit_at-complement}
use picolibrary.Debounce.Multiple.{
  MultipleSignalsDebouncer, max_state, complement, gather, new_multiple_signals_debouncer, debounce,
  debounce_samples, state,
}
use picolibrary.Debounce.Multiple.Ring.{Ring, new-Ring, set-Ring}
use picolibrary.Debounce.Single.{all_of, settled}

abbrev is_level : Bool → Bool → Bool
is_level true x = x
is_level false x = not x

-- All samples have the signal `f` at a level.
abbrev every : (ℕ → Bool) → Bool → List ℕ → Bool
every f level [] = true
every f level (x ∷ xs) = is_level level (f x) && every f level xs

and_assoc : (a b c : Bool) → ((a && b) && c) ≡ (a && (b && c))
and_assoc true b c = refl
and_assoc false b c = refl

and_comm : (a b : Bool) → (a && b) ≡ (b && a)
and_comm true true = refl
and_comm true false = refl
and_comm false true = refl
and_comm false false = refl

and_true : (a : Bool) → (a && true) ≡ a
and_true true = refl
and_true false = refl

and_false : (a : Bool) → (a && false) ≡ false
and_false true = refl
and_false false = refl

every-append :
    (f : ℕ → Bool) (level : Bool) (xs ys : List ℕ)
    → every f level (xs ++ ys) ≡ (every f level xs && every f level ys)
every-append f level [] ys = refl
every-append f level (x ∷ xs) ys =
    ap (λ t. is_level level (f x) && t) (every-append f level xs ys)
    ∙ sym (and_assoc (is_level level (f x)) (every f level xs) (every f level ys))

every-reverse :
    (f : ℕ → Bool) (level : Bool) (xs : List ℕ) → every f level (reverse xs) ≡ every f level xs
every-reverse f level [] = refl
every-reverse f level (x ∷ xs) =
    ap (every f level) (reverse-cons x xs)
    ∙ every-append f level (reverse xs) (x ∷ [])
    ∙ ap₂ (λ a b. a && b) (every-reverse f level xs) (and_true (is_level level (f x)))
    ∙ and_comm (every f level xs) (is_level level (f x))

map-replicate : (f : ℕ → Bool) (n x : ℕ) → map f (replicate n x) ≡ replicate n (f x)
map-replicate f zero x = refl
map-replicate f (suc n) x = ap (λ t. f x ∷ t) (map-replicate f n x)

all_of-every :
    (f : ℕ → Bool) (level : Bool) (n : ℕ) (xs rest : List ℕ)
    → length xs ≡ n
    → all_of level n (map f (xs ++ rest)) ≡ every f level xs
unfolding all_of
all_of-every f level zero [] rest e = refl
all_of-every f level zero (x ∷ xs) rest e = absurd (omega arith)
all_of-every f level (suc n) [] rest e = absurd (omega arith)
all_of-every f true (suc n) (x ∷ xs) rest e = elim (Bool-cases (f x)) [
  | inl t ↦ rw t (all_of-every f true n xs rest (omega arith))
  | inr t ↦ rw t refl
]
all_of-every f false (suc n) (x ∷ xs) rest e = elim (Bool-cases (f x)) [
  | inl t ↦ rw t refl
  | inr t ↦ rw t (all_of-every f false n xs rest (omega arith))
]

length-reverse : (xs : List ℕ) → length (reverse xs) ≡ length xs
length-reverse [] = refl
length-reverse (x ∷ xs) =
    ap length (reverse-cons x xs)
    ∙ omega (arith, length-append (reverse xs) (x ∷ []), length-reverse xs)

-- The samples of a ring are as many of the newest in the history.
all_of-Ring :
    (f : ℕ → Bool) (level : Bool) (n : ℕ) (sampled history : List ℕ) (i : ℕ)
    → Ring n sampled i history
    → all_of level n (map f history) ≡ every f level sampled
all_of-Ring f level n sampled history i r =
    let newest = r.oldest ∷ (r.after ++ r.before) in
    let swap = every-append f level r.after r.before in
    ap (λ t. all_of level n (map f t)) r.recent
    ∙ all_of-every f level n (reverse newest) r.trail
        (length-reverse newest ∙ omega (arith, r.count, length-append r.after r.before))
    ∙ every-reverse f level newest
    ∙ ap (λ t. is_level level (f r.oldest) && t) swap
    ∙ sym (and_assoc (is_level level (f r.oldest)) (every f level r.after) (every f level r.before))
    ∙ and_comm (is_level level (f r.oldest) && every f level r.after) (every f level r.before)
    ∙ sym (every-append f level r.before (r.oldest ∷ r.after))
    ∙ ap (every f level) (sym r.laid)

one_level :
    (f : ℕ → Bool) (n : ℕ) (sampled history : List ℕ) (i : ℕ)
    → Ring n sampled i history
    → every f true sampled ≡ true
    → every f false sampled ≡ false
one_level f n sampled history i r h =
    let split = λ (level : Bool).
      ap (every f level) r.laid ∙ every-append f level r.before (r.oldest ∷ r.after) in
    elim (Bool-cases (f r.oldest)) [
      | inl t ↦
          split false
          ∙ ap (λ b. every f false r.before && (not b && every f false r.after)) t
          ∙ and_false (every f false r.before)
      | inr t ↦ absurd (
          true≢false (
            sym h
            ∙ split true
            ∙ ap (λ b. every f true r.before && (b && every f true r.after)) t
            ∙ and_false (every f true r.before)))
    ]

combine :
    (before high low : Bool)
    → (high ≡ true → low ≡ false)
    → ((before || high) && not low) ≡ (if high then true else if low then false else before)
combine before true true h = absurd (true≢false (h refl))
combine true true false h = refl
combine false true false h = refl
combine true false true h = refl
combine false false true h = refl
combine true false false h = refl
combine false false false h = refl

module _ (digits i : ℕ) (within : i < digits) where
  gather_high :
      (sampled : List ℕ) (high low : ℕ)
      → bit_at i (gather digits sampled (high, low)).0
        ≡ (bit_at i high && every (bit_at i) true sampled)
  unfolding gather
  gather_high [] high low = sym (and_true (bit_at i high))
  gather_high (x ∷ sampled) high low =
      gather_high sampled (bit_and high x) (bit_and low (complement digits x))
      ∙ ap (λ t. t && every (bit_at i) true sampled) (bit_at-bit_and i high x)
      ∙ and_assoc (bit_at i high) (bit_at i x) (every (bit_at i) true sampled)

  gather_low :
      (sampled : List ℕ) (high low : ℕ)
      → bit_at i (gather digits sampled (high, low)).1
        ≡ (bit_at i low && every (bit_at i) false sampled)
  unfolding gather
  gather_low [] high low = sym (and_true (bit_at i low))
  gather_low (x ∷ sampled) high low =
      gather_low sampled (bit_and high x) (bit_and low (complement digits x))
      ∙ ap (λ t. t && every (bit_at i) false sampled)
          (bit_at-bit_and i low (complement digits x)
            ∙ ap (λ t. bit_at i low && t) (bit_at-complement i digits x within))
      ∙ and_assoc (bit_at i low) (not (bit_at i x)) (every (bit_at i) false sampled)

  module _ (n initial : ℕ) where
    -- The samples so far, before which stand as many of the initial state as a debouncer takes.
    abbrev extended : List ℕ → List ℕ
    extended history = history ++ replicate (suc n) initial

    debounced : List ℕ → MultipleSignalsDebouncer
    debounced history = debounce_samples digits (suc n) initial history

    samples-Ring :
        (history : List ℕ)
        → Ring
            (suc n)
            (debounced history).m_samples
            (debounced history).m_samples_i
            (extended history)
    unfolding debounced debounce_samples new_multiple_signals_debouncer debounce
    samples-Ring [] = new-Ring n initial
    samples-Ring (x ∷ older) =
        set-Ring (suc n) (debounced older).m_samples (extended older) (debounced older).m_samples_i
          x (samples-Ring older)

    state_bit :
        (x : ℕ) (older : List ℕ)
        → bit_at i (state (debounced (x ∷ older))) ≡ (
            (bit_at i (state (debounced older))
              || every (bit_at i) true (debounced (x ∷ older)).m_samples)
            && not (every (bit_at i) false (debounced (x ∷ older)).m_samples))
    unfolding debounced debounce_samples debounce state gather
    state_bit x older =
        let before = state (debounced older) in
        let sampled = set (debounced older).m_samples (debounced older).m_samples_i x in
        let top = max_state digits in
        let levels = gather digits sampled (top, top) in
        bit_at-bit_and i (bit_or before levels.0) (complement digits levels.1)
        ∙ ap₂ (λ a b. a && b)
            (bit_at-bit_or i before levels.0
              ∙ ap (λ t. bit_at i before || t)
                  (gather_high sampled top top
                    ∙ ap (λ t. t && every (bit_at i) true sampled) (bit_at-mask i digits within)))
            (bit_at-complement i digits levels.1 within
              ∙ ap not (
                  gather_low sampled top top
                  ∙ ap (λ t. t && every (bit_at i) false sampled) (bit_at-mask i digits within)))

    map-extended :
        (history : List ℕ)
        → map (bit_at i) (extended history)
          ≡ map (bit_at i) history ++ replicate (suc n) (bit_at i initial)
    map-extended history =
        map-append (bit_at i) history (replicate (suc n) initial)
        ∙ ap (λ t. map (bit_at i) history ++ t) (map-replicate (bit_at i) (suc n) initial)

    level-eq :
        (level : Bool) (history : List ℕ)
        → every (bit_at i) level (debounced history).m_samples
          ≡ all_of level (suc n) (map (bit_at i) history ++ replicate (suc n) (bit_at i initial))
    level-eq level history =
        sym (
          all_of-Ring (bit_at i) level (suc n) (debounced history).m_samples (extended history)
            (debounced history).m_samples_i (samples-Ring history))
        ∙ ap (all_of level (suc n)) (map-extended history)

    -- After any samples, for at least one sample and a state type of any width, each bit of the
    -- debounced state is what a single signal is debounced to: the level of the newest run of
    -- `samples` equal samples of that bit, where as many samples of the initial state stand before
    -- the first.
    pub state_bit-eq-settled :
        (history : List ℕ)
        → bit_at i (state (debounce_samples digits (suc n) initial history))
          ≡ settled (suc n) (bit_at i initial) (map (bit_at i) history)
    unfolding debounced debounce_samples new_multiple_signals_debouncer state settled
    state_bit-eq-settled [] = refl
    state_bit-eq-settled (x ∷ older) =
        let sampled = (debounced (x ∷ older)).m_samples in
        state_bit x older
        ∙ combine (bit_at i (state (debounced older))) (every (bit_at i) true sampled)
            (every (bit_at i) false sampled)
            (one_level (bit_at i) (suc n) sampled (extended (x ∷ older))
              (debounced (x ∷ older)).m_samples_i (samples-Ring (x ∷ older)))
        ∙ ap₂ (λ t e. if t then true else if e then false else bit_at i (state (debounced older)))
            (level-eq true (x ∷ older)) (level-eq false (x ∷ older))
        ∙ ap
            (λ b.
              if all_of true (suc n)
                (map (bit_at i) (x ∷ older) ++ replicate (suc n) (bit_at i initial))
              then true
              else if all_of false (suc n)
                  (map (bit_at i) (x ∷ older) ++ replicate (suc n) (bit_at i initial))
              then false
              else b)
            (state_bit-eq-settled older)
