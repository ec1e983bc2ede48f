-- ===== src/FixedCapacityVector/Copies.antt =====
-- The copying and the moving of whole vectors. A vector that is moved from is cleared. `is_same` says
-- that the two sides of an assignment are one object.
use picolibrary.Common.{
  ℕ, zero, suc, ◌-◌, ◌^◌, ◌<◌, ◌≤◌, ◌≡◌, refl, sym, ap, ap₂, ◌∙◌, Bool, true, false, Option, none,
  some, List, [], ◌∷◌, ◌++◌, map, length, get_or, set, replicate, arith,
}
use picolibrary.Common.Appends.{get_or-append, snoc-append, length-snoc}
use picolibrary.FixedCapacityVector.{FixedCapacityVector, clear, fill_up}
use picolibrary.FixedCapacityVector.Holding.{vector-eq, clear_lem}
use picolibrary.FixedCapacityVector.Stored.{vector_holding, stored, stored-nil, fill_up-stored}

-- The loop over `n` elements from element `i` on that copies them from `source`.
unfoldable pub copy_loop {ℓ} :
    {A : Type ℓ} → ℕ → ℕ → List (Option A) → List (Option A) → List (Option A)
copy_loop zero i source storage = storage
copy_loop (suc n) i source storage =
    copy_loop n (suc i) source (set storage i (get_or source i none))

module _ {ℓ} {A : Type ℓ} (width capacity : ℕ) where
  unfoldable pub copy_of : FixedCapacityVector A → FixedCapacityVector A
  unfolding copy_loop
  copy_of original = record {
    m_storage = copy_loop original.m_size 0 original.m_storage (replicate capacity none);
    m_size = original.m_size;
  }

  -- The new vector, and the one that it is moved from.
  unfoldable pub move_of : FixedCapacityVector A → FixedCapacityVector A × FixedCapacityVector A
  unfolding copy_of
  move_of source = (copy_of source, clear width capacity source)

  unfoldable pub copy_assign :
      Bool → FixedCapacityVector A → FixedCapacityVector A → FixedCapacityVector A
  unfolding copy_loop
  copy_assign true v expression = v
  copy_assign false v expression = record {
    m_storage =
        copy_loop expression.m_size 0 expression.m_storage (clear width capacity v).m_storage;
    m_size = expression.m_size;
  }

  unfoldable pub move_assign :
      Bool
      → FixedCapacityVector A
      → FixedCapacityVector A
      → FixedCapacityVector A × FixedCapacityVector A
  unfolding copy_assign
  move_assign true v expression = (v, expression)
  move_assign false v expression = (copy_assign false v expression, clear width capacity expression)

  copy_loop-fill_up :
      (xs : List A) (first rest storage : List (Option A)) (i : ℕ)
      → i ≡ length first
      → copy_loop (length xs) i (first ++ (map some xs ++ rest)) storage ≡ fill_up xs i storage
  unfolding copy_loop fill_up
  copy_loop-fill_up [] first rest storage i e = refl
  copy_loop-fill_up (x ∷ xs) first rest storage i e =
      let later = map some xs ++ rest in
      let next : suc i ≡ length (first ++ (some x ∷ [])) =
        omega (arith, length-snoc first (some x)) in
      ap (λ y. copy_loop (length xs) (suc i) (first ++ (some x ∷ later)) (set storage i y))
        (get_or-append first (some x) later i none e)
      ∙ ap (λ s. copy_loop (length xs) (suc i) s (set storage i (some x)))
          (snoc-append first (some x) later)
      ∙ copy_loop-fill_up xs (first ++ (some x ∷ [])) rest (set storage i (some x)) (suc i) next

  copy_loop-stored :
      (xs : List A)
      → length xs ≤ capacity
      → copy_loop (length xs) 0 (stored capacity xs) (stored capacity []) ≡ stored capacity xs
  copy_loop-stored xs h =
      copy_loop-fill_up xs [] (replicate (capacity - length xs) none) (stored capacity []) 0 refl
      ∙ fill_up-stored capacity [] xs (omega arith)

  module _ (small : capacity < 2 ^ width) (xs ys : List A) (fits : length xs ≤ capacity)
      (other_fits : length ys ≤ capacity) where
    copy_of-eq : copy_of (vector_holding capacity xs) ≡ vector_holding capacity xs
    unfolding copy_of
    copy_of-eq =
        vector-eq width capacity _ xs
          (ap (copy_loop (length xs) 0 (stored capacity xs)) (sym (stored-nil capacity))
            ∙ copy_loop-stored xs fits)
          refl

    copy_assign-eq :
        copy_assign false (vector_holding capacity ys) (vector_holding capacity xs)
        ≡ vector_holding capacity xs
    unfolding copy_assign
    copy_assign-eq =
        vector-eq width capacity _ xs
          (ap (λ v. copy_loop (length xs) 0 (stored capacity xs) v.m_storage)
              (clear_lem width capacity small ys other_fits)
            ∙ copy_loop-stored xs fits)
          refl

    -- For a capacity that is a value of `std::size_t`, and vectors that hold some values: a copy
    -- of a vector holds the same values, and so does a vector that another one is assigned to,
    -- whatever it held; moving does the same and leaves the vector that is moved from empty.
    pub copies_lem :
        (copy_of (vector_holding capacity xs) ≡ vector_holding capacity xs)
        × ((move_of (vector_holding capacity xs)
              ≡ (vector_holding capacity xs, vector_holding capacity []))
            × ((copy_assign false (vector_holding capacity ys) (vector_holding capacity xs)
                  ≡ vector_holding capacity xs)
                × (move_assign false (vector_holding capacity ys) (vector_holding capacity xs)
                    ≡ (vector_holding capacity xs, vector_holding capacity []))))
    unfolding move_of move_assign
    copies_lem =
        let cleared = clear_lem width capacity small xs fits in
        (
          copy_of-eq,
          (
            ap₂ (λ a b. (a, b)) copy_of-eq cleared,
            (copy_assign-eq, ap₂ (λ a b. (a, b)) copy_assign-eq cleared),
          ),
        )
