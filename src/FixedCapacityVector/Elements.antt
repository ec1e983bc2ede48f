-- ===== src/FixedCapacityVector/Elements.antt =====
-- The elements of a vector, and the vectors that the constructors make of a range and of copies.
use picolibrary.Common.{
  ℕ, zero, suc, ◌-◌, ◌<◌, ◌≡◌, refl, ap, inl, inr, Bool-cases, ltb, ltb→lt, if◌then◌else◌, Option,
  none, some, List, [], ◌∷◌, ◌++◌, map, length, get_elem?, get_or, replicate, arith,
}
use picolibrary.Expectation.{done, fatal, out_of_range}
use picolibrary.FixedCapacityVector.{at, size}
use picolibrary.FixedCapacityVector.Stored.{vector_holding}

get_or-map {ℓ} :
    {A : Type ℓ} (xs : List A) (rest : List (Option A)) (i : ℕ)
    → i < length xs
    → get_or (map some xs ++ rest) i none ≡ get_elem? xs i
get_or-map [] rest i h = absurd (omega arith)
get_or-map (x ∷ xs) rest zero h = refl
get_or-map (x ∷ xs) rest (suc i) h = get_or-map xs rest i (omega arith)

module _ {ℓ} {A : Type ℓ} (width capacity : ℕ) where
  -- In a vector that holds some values, `at` yields the value at the position, or ends in the
  -- fatal error of a position that is out of range.
  pub at_lem :
      (xs : List A) (position : ℕ)
      → at width capacity (vector_holding capacity xs) position
        ≡ (if ltb position (length xs) then done (get_elem? xs position) else fatal out_of_range)
  unfolding at size
  at_lem xs position = elim (Bool-cases (ltb position (length xs))) [
    | inl t ↦ rw t (
        ap done (
          get_or-map xs (replicate (capacity - length xs) none) position
            (ltb→lt position (length xs) t)))
    | inr t ↦ rw t refl
  ]
