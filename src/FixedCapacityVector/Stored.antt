-- ===== src/FixedCapacityVector/Stored.antt =====
-- The vector that holds a sequence of values, and the operations on it.
use mathlib.Core.List.{append_assoc, map-append}
use picolibrary.Common.{
  ℕ, zero, suc, ◌+◌, ◌-◌, ◌≤◌, ◌<◌, ◌≡◌, refl, sym, ap, ap₂, ◌∙◌, Option, none, some, List, [], ◌∷◌,
  ◌++◌, map, length, length-append, length-replicate, set, replicate, take, drop, arith,
}
use picolibrary.FixedCapacityVector.{
  FixedCapacityVector, fill_down, fill_up, destroy_loop, move_up, move_down,
}
use picolibrary.Common.Appends.{set-append, replicate-append}
use picolibrary.FixedCapacityVector.Slots.{
  destroy_loop-append, fill_up-append, fill_down-append, move_down-append, opened, move_up-append,
}

pub length-map {ℓ} : {A : Type ℓ} (xs : List A) → length (map some xs) ≡ length xs
length-map [] = refl
length-map (x ∷ xs) = ap suc (length-map xs)

take-map {ℓ} : {A : Type ℓ} (n : ℕ) (xs : List A) → take n (map some xs) ≡ map some (take n xs)
take-map zero xs = refl
take-map (suc n) [] = refl
take-map (suc n) (x ∷ xs) = ap (λ t. some x ∷ t) (take-map n xs)

drop-map {ℓ} : {A : Type ℓ} (n : ℕ) (xs : List A) → drop n (map some xs) ≡ map some (drop n xs)
drop-map zero xs = refl
drop-map (suc n) [] = refl
drop-map (suc n) (x ∷ xs) = drop-map n xs

map-replicate {ℓ} : {A : Type ℓ} (n : ℕ) (x : A) → map some (replicate n x) ≡ replicate n (some x)
map-replicate zero x = refl
map-replicate (suc n) x = ap (λ t. some x ∷ t) (map-replicate n x)

pub length-take {ℓ} : {A : Type ℓ} (n : ℕ) (xs : List A) → n ≤ length xs → length (take n xs) ≡ n
length-take zero xs h = refl
length-take (suc n) [] h = absurd (omega arith)
length-take (suc n) (x ∷ xs) h = ap suc (length-take n xs (omega arith))

pub length-drop {ℓ} : {A : Type ℓ} (n : ℕ) (xs : List A) → length (drop n xs) ≡ length xs - n
length-drop zero xs = omega arith
length-drop (suc n) [] = omega arith
length-drop (suc n) (x ∷ xs) = omega (arith, length-drop n xs)

pub take-drop {ℓ} : {A : Type ℓ} (n : ℕ) (xs : List A) → take n xs ++ drop n xs ≡ xs
take-drop zero xs = refl
take-drop (suc n) [] = refl
take-drop (suc n) (x ∷ xs) = ap (λ t. x ∷ t) (take-drop n xs)

-- The slots of a vector that holds `xs`.
abbrev pub stored {ℓ} : {A : Type ℓ} → ℕ → List A → List (Option A)
stored capacity xs = map some xs ++ replicate (capacity - length xs) none

abbrev pub vector_holding {ℓ} : {A : Type ℓ} → ℕ → List A → FixedCapacityVector A
vector_holding capacity xs = record { m_storage = stored capacity xs; m_size = length xs }

module _ {ℓ} {A : Type ℓ} (capacity : ℕ) where
  abbrev pub blank : Option A
  blank = none

  -- Slots that end in `m` free ones.
  pub stored_as :
      (xs : List A) (m : ℕ)
      → capacity ≡ length xs + m
      → map some xs ++ replicate m none ≡ stored capacity xs
  stored_as xs m e =
      let free : m ≡ capacity - length xs = omega arith in
      ap (λ n. map some xs ++ replicate n none) free

  pub stored_room :
      (xs : List A) (n : ℕ)
      → length xs + n ≤ capacity
      → stored capacity xs
        ≡ map some xs ++ (replicate n none ++ replicate (capacity - (length xs + n)) none)
  stored_room xs n h =
      ap (λ t. map some xs ++ t)
        (sym (
          replicate-append n (capacity - (length xs + n)) (capacity - length xs) none
            (omega arith)))

  pub fill_up-stored :
      (xs ys : List A)
      → length xs + length ys ≤ capacity
      → fill_up ys (length xs) (stored capacity xs) ≡ stored capacity (xs ++ ys)
  fill_up-stored xs ys h =
      let rest : List (Option A) = replicate (capacity - (length xs + length ys)) none in
      ap₂ (fill_up ys) (sym (length-map xs)) (stored_room xs (length ys) h)
      ∙ fill_up-append ys (map some xs) (replicate (length ys) none) rest
          (length-replicate (length ys) none)
      ∙ sym (append_assoc (map some xs) (map some ys) rest)
      ∙ ap (λ t. t ++ rest) (sym (map-append some xs ys))
      ∙ stored_as (xs ++ ys) (capacity - (length xs + length ys))
          (omega (arith, length-append xs ys))

  pub destroy_loop-stored :
      (xs ys : List A)
      → length (xs ++ ys) ≤ capacity
      → destroy_loop (length ys) (length xs) (stored capacity (xs ++ ys)) ≡ stored capacity xs
  destroy_loop-stored xs ys h =
      let sizes = length-append xs ys in
      let rest : List (Option A) = replicate (capacity - length (xs ++ ys)) none in
      ap₂ (destroy_loop (length ys)) (sym (length-map xs)) (
        ap (λ t. t ++ rest) (map-append some xs ys) ∙ append_assoc (map some xs) (map some ys) rest)
      ∙ destroy_loop-append (length ys) (map some xs) (map some ys) rest (length-map ys)
      ∙ ap (λ t. map some xs ++ t)
          (replicate-append (length ys) (capacity - length (xs ++ ys)) (capacity - length xs) none
            (omega arith))

  -- Making room for `suc n` values at `position`, and constructing them there.
  pub insert-stored :
      (xs ys : List A) (n position : ℕ)
      → length ys ≡ suc n
      → position ≤ length xs
      → length xs + suc n ≤ capacity
      → (fill_up ys
            (move_up (suc n) position (length xs) (stored capacity xs)).1
            (move_up (suc n) position (length xs) (stored capacity xs)).0
          ≡ stored capacity (take position xs ++ (ys ++ drop position xs)))
        × ((move_up (suc n) position (length xs) (stored capacity xs)).1 ≡ position)
  insert-stored xs ys n position e h room =
      let rest : List (Option A) = replicate (capacity - (length xs + suc n)) none in
      let slots = map some xs in
      let first = take position slots in
      let moved =
        ap (move_up (suc n) position (length xs)) (stored_room xs (suc n) room)
        ∙ move_up-append n position (length xs) slots rest (length-map xs) h in
      let place : position ≡ length first =
        sym (length-take position xs h)
        ∙ sym (length-map (take position xs))
        ∙ ap length (sym (take-map position xs)) in
      let parts : map some (take position xs ++ (ys ++ drop position xs))
          ≡ first ++ (map some ys ++ drop position slots) =
        map-append some (take position xs) (ys ++ drop position xs)
        ∙ ap₂ (λ a b. a ++ b) (sym (take-map position xs))
            (map-append some ys (drop position xs)
              ∙ ap (λ t. map some ys ++ t) (sym (drop-map position xs))) in
      let total = length-append (take position xs) (ys ++ drop position xs) in
      let inner = length-append ys (drop position xs) in
      let taken = length-take position xs h in
      let dropped = length-drop position xs in
      (
        ap (λ r. fill_up ys r.1 r.0) moved
            ∙ ap (λ i. fill_up ys i (opened n position slots rest)) place
            ∙ fill_up-append ys first (replicate (suc n) none) (drop position slots ++ rest)
                (length-replicate (suc n) blank ∙ sym e)
            ∙ ap (λ t. first ++ t) (sym (append_assoc (map some ys) (drop position slots) rest))
            ∙ sym (append_assoc first (map some ys ++ drop position slots) rest)
            ∙ ap (λ t. t ++ rest) (sym parts)
            ∙ stored_as (take position xs ++ (ys ++ drop position xs))
                (capacity - (length xs + suc n)) (omega arith),
        ap (λ r. r.1) moved,
      )

  pub erase-stored :
      (xs ys : List A) (x : A)
      → length (xs ++ (x ∷ ys)) ≤ capacity
      → move_down
          (length ys)
          (suc (length xs))
          (set (stored capacity (xs ++ (x ∷ ys))) (length xs) none)
        ≡ stored capacity (xs ++ ys)
  erase-stored xs ys x h =
      let free = capacity - length (xs ++ (x ∷ ys)) in
      let rest : List (Option A) = replicate free none in
      let first = map some xs in
      let longer = length-append xs (x ∷ ys) in
      let shorter = length-append xs ys in
      ap (move_down (length ys) (suc (length xs))) (
        ap (λ t. set t (length xs) none)
          (ap (λ t. t ++ rest) (map-append some xs (x ∷ ys))
            ∙ append_assoc first (some x ∷ map some ys) rest)
        ∙ set-append first (some x) (map some ys ++ rest) (length xs) none (sym (length-map xs)))
      ∙ ap₂ (λ n i. move_down n (suc i) (first ++ (none ∷ (map some ys ++ rest))))
          (sym (length-map ys)) (sym (length-map xs))
      ∙ move_down-append (map some ys) first rest
      ∙ sym (append_assoc first (map some ys) (none ∷ rest))
      ∙ ap (λ t. t ++ (none ∷ rest)) (sym (map-append some xs ys))
      ∙ stored_as (xs ++ ys) (suc free) (omega arith)

  pub stored-nil : stored capacity [] ≡ replicate capacity blank
  stored-nil = let all : capacity - 0 ≡ capacity = omega arith in ap (λ n. replicate n none) all

  pub fill_down-stored :
      (n : ℕ) (x : A)
      → n ≤ capacity
      → fill_down n x (stored capacity []) ≡ stored capacity (replicate n x)
  fill_down-stored n x h =
      ap (fill_down n x) (stored_room [] n (omega arith))
      ∙ fill_down-append n x (replicate n none) (replicate (capacity - (0 + n)) none)
          (length-replicate n blank)
      ∙ ap (λ t. t ++ replicate (capacity - (0 + n)) none) (sym (map-replicate n x))
      ∙ stored_as (replicate n x) (capacity - (0 + n)) (omega (arith, length-replicate n x))

pub split_at {ℓ} :
    {A : Type ℓ} (n : ℕ) (xs : List A)
    → n < length xs
    → (x : A) × (xs ≡ take n xs ++ (x ∷ drop (suc n) xs))
split_at n [] h = absurd (omega arith)
split_at zero (x ∷ xs) h = (x, refl)
split_at (suc n) (x ∷ xs) h = let (y, e) = split_at n xs (omega arith) in (y, ap (λ t. x ∷ t) e)
