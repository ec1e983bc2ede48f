-- ===== src/CircularBuffer/View.antt =====
-- A buffer as it stands in the middle of an operation, against the sequence of the values in it:
-- the indices and the size are those that the operation leads to.
use native.Mathlib.Nat.{mod-eq_of_lt, add-mod_right}
use picolibrary.Common.Modular.{two-pow-pos}
use mathlib.Core.List.{append_assoc, map-append}
use picolibrary.Common.{
  map, ℕ, ◌+◌, ◌-◌, ◌%◌, ◌^◌, ◌<◌, ◌≡◌, refl, sym, ap, ◌∙◌, Option, none, some, List, [], ◌∷◌, ◌++◌,
  length, set, get_or, arith,
}
use picolibrary.CircularBuffer.{advance, increment, decrement, push_bypass, pop_bypass}
use picolibrary.CircularBuffer.Holds.{Holds-front}
use picolibrary.CircularBuffer.Represents.{
  IsCapacity, Represents, push_bypass-Represents, pop_bypass-Represents,
}

module _ {ℓ} {A : Type ℓ} where
  -- Slots that hold `values` from `read` on, with `write` behind them.
  abbrev pub Contains : ℕ → ℕ → ℕ → List (Option A) → List A → Type ℓ
  Contains capacity read write slots values =
      Represents capacity
        (record { m_read = read; m_write = write; m_size = length values; m_storage = slots })
        values

  resize :
      (capacity read write size : ℕ) (slots : List (Option A)) (values : List A)
      → Represents capacity
          (record { m_read = read; m_write = write; m_size = size; m_storage = slots })
          values
      → Contains capacity read write slots values
  resize capacity read write size slots values r = record {
    slots = r.slots;
    read_in = r.read_in;
    write_at = r.write_at ∙ ap (λ n. (read + n) % capacity) r.size_is;
    size_is = refl;
    size_in = omega (arith, r.size_is, r.size_in);
    holds = r.holds;
  }

module _ {ℓ} {A : Type ℓ} (digits capacity : ℕ) (c : IsCapacity digits capacity) where
  pub Contains-push :
      (read write : ℕ) (slots : List (Option A)) (values : List A) (x : A)
      → Contains capacity read write slots values
      → length values < capacity
      → Contains capacity read
          (advance digits capacity write)
          (set slots write (some x))
          (values ++ (x ∷ []))
  unfolding push_bypass
  Contains-push read write slots values x r room = resize capacity read _ _ _ (values ++ (x ∷ [])) (
      push_bypass-Represents digits capacity c
        (record { m_read = read; m_write = write; m_size = length values; m_storage = slots })
        values x r room)

  pub Contains-pop :
      (read write : ℕ) (slots : List (Option A)) (x : A) (values : List A)
      → Contains capacity read write slots (x ∷ values)
      → Contains capacity (advance digits capacity read) write (set slots read none) values
  unfolding pop_bypass
  Contains-pop read write slots x values r = resize capacity _ write _ _ values (
      pop_bypass-Represents digits capacity c
        (record { m_read = read; m_write = write; m_size = length (x ∷ values); m_storage = slots })
        x values r)

  pub Contains-front :
      (read write : ℕ) (slots : List (Option A)) (x : A) (values : List A)
      → Contains capacity read write slots (x ∷ values)
      → get_or slots read none ≡ some x
  Contains-front read write slots x values r =
      Holds-front capacity slots r.slots read r.read_in x values r.holds

pub increment-eq : (digits n : ℕ) → n + 1 < 2 ^ digits → increment digits n ≡ n + 1
increment-eq digits n h = mod-eq_of_lt h

pub decrement-eq : (digits n : ℕ) → 0 < n → n < 2 ^ digits → decrement digits n ≡ n - 1
decrement-eq digits n pos h =
    ap (λ t. t % 2 ^ digits) (omega (arith, two-pow-pos digits))
    ∙ add-mod_right (n - 1) (2 ^ digits)
    ∙ mod-eq_of_lt (omega arith)

-- A log of what came in, against a log of what went out and the values that are still inside.
pub history-push {ℓ} :
    {A : Type ℓ} (came : List A) (went : List (Option A)) (values : List A) (x : A)
    → map some came ≡ went ++ map some values
    → map some (came ++ (x ∷ [])) ≡ went ++ map some (values ++ (x ∷ []))
history-push came went values x h =
    map-append some came (x ∷ [])
    ∙ ap (λ t. t ++ (some x ∷ [])) h
    ∙ append_assoc went (map some values) (some x ∷ [])
    ∙ ap (λ t. went ++ t) (sym (map-append some values (x ∷ [])))

pub history-pop {ℓ} :
    {A : Type ℓ} (came : List A) (went : List (Option A)) (x : A) (values : List A) (out : Option A)
    → out ≡ some x
    → map some came ≡ went ++ map some (x ∷ values)
    → map some came ≡ (went ++ (out ∷ [])) ++ map some values
history-pop came went x values out e h =
    h
    ∙ ap (λ o. went ++ (o ∷ map some values)) (sym e)
    ∙ sym (append_assoc went (out ∷ []) (map some values))
