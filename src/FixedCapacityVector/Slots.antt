-- ===== src/FixedCapacityVector/Slots.antt =====
-- The loops of the vector on its storage slots.
use mathlib.Core.List.{append_assoc}
use picolibrary.Common.{
  ℕ, zero, suc, ◌+◌, ◌-◌, ◌≤◌, ◌≡◌, refl, sym, ap, ap₂, ◌∙◌, inl, inr, Bool-cases, leb, leb→le,
  Option, none, some, List, [], ◌∷◌, ◌++◌, map, length, length-append, length-replicate, set,
  replicate, take, drop, arith,
}
use picolibrary.FixedCapacityVector.{
  fill_down, fill_up, construct_loop, destroy_loop, relocate, move_up, move_down,
}
use picolibrary.Common.Appends.{
  set-append, get_or-append, replicate-snoc, length-snoc, snoc-append, unsnoc, take-snoc, drop-snoc,
  take_all, drop_all,
}

module _ {ℓ} {A : Type ℓ} where
  pub destroy_loop-append :
      (n : ℕ) (first middle rest : List (Option A))
      → length middle ≡ n
      → destroy_loop n (length first) (first ++ (middle ++ rest))
        ≡ first ++ (replicate n none ++ rest)
  unfolding destroy_loop
  destroy_loop-append zero first [] rest e = refl
  destroy_loop-append zero first (x ∷ middle) rest e = absurd (omega arith)
  destroy_loop-append (suc n) first [] rest e = absurd (omega arith)
  destroy_loop-append (suc n) first (x ∷ middle) rest e =
      ap (destroy_loop n (suc (length first)))
        (set-append first x (middle ++ rest) (length first) none refl)
      ∙ ap₂ (destroy_loop n) (length-snoc first none) (snoc-append first none (middle ++ rest))
      ∙ destroy_loop-append n (first ++ (none ∷ [])) middle rest (omega arith)
      ∙ sym (snoc-append first none (replicate n none ++ rest))

  pub fill_up-append :
      (values : List A) (first middle rest : List (Option A))
      → length middle ≡ length values
      → fill_up values (length first) (first ++ (middle ++ rest))
        ≡ first ++ (map some values ++ rest)
  unfolding fill_up
  fill_up-append [] first [] rest e = refl
  fill_up-append [] first (x ∷ middle) rest e = absurd (omega arith)
  fill_up-append (value ∷ values) first [] rest e = absurd (omega arith)
  fill_up-append (value ∷ values) first (x ∷ middle) rest e =
      ap (fill_up values (suc (length first)))
        (set-append first x (middle ++ rest) (length first) (some value) refl)
      ∙ ap₂ (fill_up values) (length-snoc first (some value))
          (snoc-append first (some value) (middle ++ rest))
      ∙ fill_up-append values (first ++ (some value ∷ [])) middle rest (omega arith)
      ∙ sym (snoc-append first (some value) (map some values ++ rest))

  pub construct_loop-eq :
      (n i : ℕ) (value : A) (storage : List (Option A))
      → construct_loop n i value storage ≡ fill_up (replicate n value) i storage
  unfolding construct_loop fill_up
  construct_loop-eq zero i value storage = refl
  construct_loop-eq (suc n) i value storage =
      construct_loop-eq n (suc i) value (set storage i (some value))

  pub fill_down-append :
      (n : ℕ) (value : A) (middle rest : List (Option A))
      → length middle ≡ n
      → fill_down n value (middle ++ rest) ≡ replicate n (some value) ++ rest
  unfolding fill_down
  fill_down-append zero value [] rest e = refl
  fill_down-append zero value (x ∷ middle) rest e = absurd (omega arith)
  fill_down-append (suc n) value middle rest e =
      let (ys, (x, (p, l))) = unsnoc middle n e in
      ap (λ t. fill_down n value (set (t ++ rest) n (some value))) p
      ∙ ap (λ t. fill_down n value (set t n (some value))) (append_assoc ys (x ∷ []) rest)
      ∙ ap (fill_down n value) (set-append ys x rest n (some value) (sym l))
      ∙ fill_down-append n value ys (some value ∷ rest) l
      ∙ replicate-snoc n (some value) rest

  relocate-down :
      (first : List (Option A)) (x : Option A) (rest : List (Option A))
      → relocate (first ++ (none ∷ x ∷ rest)) (suc (length first)) (suc (length first) - 1)
        ≡ first ++ (x ∷ none ∷ rest)
  relocate-down first x rest =
      let back : suc (length first) - 1 ≡ length first = omega arith in
      let there =
        get_or-append (first ++ (none ∷ [])) x rest (suc (length first)) none
          (length-snoc first none) in
      let split = snoc-append first none (x ∷ rest) in
      rw (back, split, there, sym split)
        (ap (λ t. set t (suc (length first)) none)
            (set-append first none (x ∷ rest) (length first) x refl
              ∙ snoc-append first x (x ∷ rest))
          ∙ set-append (first ++ (x ∷ [])) x rest (suc (length first)) none (length-snoc first x)
          ∙ sym (snoc-append first x (none ∷ rest)))

  pub move_down-append :
      (middle first rest : List (Option A))
      → move_down (length middle) (suc (length first)) (first ++ (none ∷ (middle ++ rest)))
        ≡ first ++ (middle ++ (none ∷ rest))
  unfolding move_down
  move_down-append [] first rest = refl
  move_down-append (x ∷ middle) first rest =
      ap (move_down (length middle) (suc (suc (length first))))
        (relocate-down first x (middle ++ rest))
      ∙ ap₂ (move_down (length middle)) (ap suc (length-snoc first x))
          (snoc-append first x (none ∷ (middle ++ rest)))
      ∙ move_down-append middle (first ++ (x ∷ [])) rest
      ∙ sym (snoc-append first x (middle ++ (none ∷ rest)))

  -- A gap above `first` moves down over the element before it.
  relocate-up :
      (n i : ℕ) (first : List (Option A)) (x : Option A) (rest : List (Option A))
      → i ≡ length first
      → relocate (first ++ (x ∷ (replicate (suc n) none ++ rest))) i (i + suc n)
        ≡ first ++ (replicate (suc n) none ++ (x ∷ rest))
  relocate-up n i first x rest e =
      let blank : Option A = none in
      let gap = replicate n blank in
      let there = get_or-append first x (replicate (suc n) blank ++ rest) i none e in
      let shape : first ++ (x ∷ (replicate (suc n) blank ++ rest))
          ≡ (first ++ (x ∷ gap)) ++ (blank ∷ rest) =
        ap (λ t. first ++ (x ∷ t)) (sym (replicate-snoc n blank rest))
        ∙ sym (append_assoc first (x ∷ gap) (blank ∷ rest)) in
      let far : i + suc n ≡ length (first ++ (x ∷ gap)) =
        omega (arith, length-append first (x ∷ gap), length-replicate n blank) in
      rw there (
        ap (λ t. set (set t (i + suc n) x) i none) shape
        ∙ ap (λ t. set t i none)
            (set-append (first ++ (x ∷ gap)) blank rest (i + suc n) x far
              ∙ append_assoc first (x ∷ gap) (x ∷ rest))
        ∙ set-append first x (gap ++ (x ∷ rest)) i none e)

  abbrev pub opened : ℕ → ℕ → List (Option A) → List (Option A) → List (Option A)
  opened n position xs rest =
      take position xs ++ (replicate (suc n) none ++ (drop position xs ++ rest))

  opened-snoc :
      (n position : ℕ) (xs ys : List (Option A)) (x : Option A) (rest : List (Option A))
      → xs ≡ ys ++ (x ∷ [])
      → position ≤ length ys
      → opened n position ys (x ∷ rest) ≡ opened n position xs rest
  opened-snoc n position xs ys x rest p h =
      ap₂ (λ a b. a ++ (replicate (suc n) none ++ b))
        (sym (ap (take position) p ∙ take-snoc ys x position h))
        (snoc-append (drop position ys) x rest
          ∙ ap (λ t. t ++ rest) (sym (ap (drop position) p ∙ drop-snoc ys x position h)))

  pub move_up-append :
      (n position size : ℕ) (xs rest : List (Option A))
      → length xs ≡ size
      → position ≤ size
      → move_up (suc n) position size (xs ++ (replicate (suc n) none ++ rest))
        ≡ (opened n position xs rest, position)
  unfolding move_up
  move_up-append n zero zero [] rest e h = refl
  move_up-append n position zero (x ∷ xs) rest e h = absurd (omega arith)
  move_up-append n (suc position) zero [] rest e h = absurd (omega arith)
  move_up-append n position (suc size) xs rest e h = elim (Bool-cases (leb position size)) [
    | inl t ↦
        let (ys, (x, (p, l))) = unsnoc xs size e in
        let low = leb→le position size t in
        rw t (
          ap
            (λ s.
              move_up (suc n) position size
                (relocate (s ++ (replicate (suc n) none ++ rest)) size (size + suc n)))
            p
          ∙ ap (λ s. move_up (suc n) position size (relocate s size (size + suc n)))
              (append_assoc ys (x ∷ []) (replicate (suc n) none ++ rest))
          ∙ ap (move_up (suc n) position size) (relocate-up n size ys x rest (sym l))
          ∙ move_up-append n position size ys (x ∷ rest) l low
          ∙ ap (λ s. (s, position)) (opened-snoc n position xs ys x rest p (omega arith)))
    | inr t ↦
        let all : suc size ≡ position = ground arith in
        rw t (
          ap₂ (λ a b. (a, b))
            (ap₂ (λ a b. a ++ (replicate (suc n) none ++ (b ++ rest)))
              (sym (take_all xs position (omega arith))) (sym (drop_all xs position (omega arith))))
            all)
  ]
