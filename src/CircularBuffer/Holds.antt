-- ===== src/CircularBuffer/Holds.antt =====
-- The slots of a ring, from a position on, against a sequence of values: the first slots hold the
-- values and no object lives in the others.
use native.Mathlib.Nat.{add-mod_right, mod-lt, mod-eq_of_lt}
use native.Mathlib.Decide.{ℕ_discrete}
use picolibrary.Common.{
  ℕ, zero, suc, ◌+◌, ◌%◌, ◌≤◌, ◌<◌, ◌≡◌, ◌≢◌, refl, sym, ap, ◌∙◌, Option, none, some, List, [], ◌∷◌,
  ◌++◌, length, get_elem?, get_or, set, replicate, get_or-set_self, get_or-set_ne, arith,
}
use picolibrary.CircularBuffer.Index.{index_next, index_ne}

module _ {ℓ} {A : Type ℓ} where
  get_elem?-append :
      (xs : List A) (x : A) (k : ℕ) → k ≢ length xs → get_elem? (xs ++ (x ∷ [])) k ≡ get_elem? xs k
  get_elem?-append [] x zero ne = absurd (ne refl)
  get_elem?-append [] x (suc k) ne = refl
  get_elem?-append (y ∷ xs) x zero ne = refl
  get_elem?-append (y ∷ xs) x (suc k) ne = get_elem?-append xs x k (λ e. ne (ap suc e))

  pub get_elem?-append_self :
      (xs : List A) (x : A) → get_elem? (xs ++ (x ∷ [])) (length xs) ≡ some x
  get_elem?-append_self [] x = refl
  get_elem?-append_self (y ∷ xs) x = get_elem?-append_self xs x

  get_elem?-beyond : (xs : List A) (k : ℕ) → length xs ≤ k → get_elem? xs k ≡ none
  get_elem?-beyond [] k h = refl
  get_elem?-beyond (x ∷ xs) zero h = absurd (omega arith)
  get_elem?-beyond (x ∷ xs) (suc k) h = get_elem?-beyond xs k (omega arith)

  pub get_or-replicate : (n i : ℕ) → get_or (replicate {A = Option A} n none) i none ≡ none
  get_or-replicate zero i = refl
  get_or-replicate (suc n) zero = refl
  get_or-replicate (suc n) (suc i) = get_or-replicate n i

  abbrev pub Holds : ℕ → List (Option A) → ℕ → List A → Type ℓ
  Holds capacity slots read values =
      (k : ℕ) → k < capacity → get_or slots ((read + k) % capacity) none ≡ get_elem? values k

module _ {ℓ} {A : Type ℓ} (capacity : ℕ) (slots : List (Option A)) (whole : length slots ≡ capacity)
    (read : ℕ) (inside : read < capacity) where
  -- The slot behind the values takes one more.
  pub Holds-push :
      (values : List A) (x : A)
      → Holds capacity slots read values
      → length values < capacity
      → Holds capacity
          (set slots ((read + length values) % capacity) (some x))
          read
          (values ++ (x ∷ []))
  Holds-push values x h room k below = elim (ℕ_discrete k (length values)) [
    | yes e ↦ rw e (
        get_or-set_self slots ((read + length values) % capacity) (some x) none
          (rw whole (mod-lt (read + length values) (omega arith)))
        ∙ sym (get_elem?-append_self values x))
    | no ne ↦
        get_or-set_ne slots (some x) none
          (λ e. index_ne capacity read (length values) k inside room below (λ q. ne (sym q)) e)
        ∙ h k below
        ∙ sym (get_elem?-append values x k ne)
  ]

  -- The slot behind the values is free: writing there ends the life of no object.
  pub Holds-free :
      (values : List A)
      → Holds capacity slots read values
      → length values < capacity
      → get_or slots ((read + length values) % capacity) none ≡ none
  Holds-free values h room =
      h (length values) room ∙ get_elem?-beyond values (length values) (omega arith)

  -- Emptying the first slot and going on to the next takes the first value away.
  pub Holds-pop :
      (x : A) (values : List A)
      → Holds capacity slots read (x ∷ values)
      → suc (length values) ≤ capacity
      → Holds capacity (set slots read none) ((read + 1) % capacity) values
  Holds-pop x values h fits k below =
      ap (λ i. get_or (set slots read none) i none) (index_next capacity read k)
      ∙ elim (ℕ_discrete (suc k) capacity) [
        | yes e ↦
            ap (λ i. get_or (set slots read none) i none)
              (ap (λ t. (read + t) % capacity) e
                ∙ add-mod_right read capacity
                ∙ mod-eq_of_lt inside)
            ∙ get_or-set_self slots read none none (rw whole inside)
            ∙ sym (get_elem?-beyond values k (omega arith))
        | no ne ↦ get_or-set_ne slots none none (elsewhere ne) ∙ h (suc k) (omega arith)
      ]
    where
      here : (read + 0) % capacity ≡ read
      here = ap (λ t. t % capacity) (omega arith) ∙ mod-eq_of_lt inside

      elsewhere : suc k ≢ capacity → read ≢ (read + suc k) % capacity
      elsewhere ne e =
          index_ne capacity read 0 (suc k) inside (omega arith) (omega arith) (omega arith)
            (here ∙ e)

  -- The first slot holds the first value.
  pub Holds-front :
      (x : A) (values : List A)
      → Holds capacity slots read (x ∷ values)
      → get_or slots read none ≡ some x
  Holds-front x values h =
      ap (λ i. get_or slots i none)
        (sym (ap (λ t. t % capacity) (omega arith) ∙ mod-eq_of_lt inside))
      ∙ h 0 (omega arith)
