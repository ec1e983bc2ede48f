-- ===== src/FixedCapacityVector/Holding.antt =====
-- What the operations do to a vector that holds a sequence.
use native.Mathlib.Nat.{mod-eq_of_lt, add-mod_right}
use picolibrary.Common.{
  ℕ, suc, ◌+◌, ◌-◌, ◌%◌, ◌^◌, ◌≤◌, ◌<◌, ◌≡◌, refl, sym, ap, ap₂, ◌∙◌, inl, inr, Bool, not,
  Bool-cases, ◌==◌, leb, leb→le, List, [], ◌∷◌, ◌++◌, length, length-append, length-replicate,
  replicate, set, none, take, drop, arith,
}
use picolibrary.Expectation.{Checked, done, ◌>>=◌, ◌>>◌, expect, insufficient_capacity}
use picolibrary.FixedCapacityVector.{
  FixedCapacityVector, clear, assign, assign_n, insert, insert_bypass, insert_moved, erase,
  push_back, push_back_bypass, pop_back, full, size, move_up, move_down, fill_up, fill_down,
  destroy_loop,
}
use picolibrary.FixedCapacityVector.Sequence.{within}
use picolibrary.FixedCapacityVector.Stored.{
  vector_holding, stored, fill_up-stored, destroy_loop-stored, insert-stored, erase-stored,
  fill_down-stored, take-drop, split_at, length-take, length-drop,
}

module _ {ℓ} {A : Type ℓ} (width capacity : ℕ) where
  abbrev pub holding : List A → Checked (FixedCapacityVector A)
  holding xs = done (vector_holding capacity xs)

  pub vector-eq :
      (v : FixedCapacityVector A) (xs : List A)
      → v.m_storage ≡ stored capacity xs
      → v.m_size ≡ length xs
      → v ≡ vector_holding capacity xs
  vector-eq v xs h e = ap₂ (λ s n. record { m_storage = s; m_size = n }) h e

  -- A guarded result, where the guard is that the capacity admits the sequence.
  pub guarded_lem :
      (test : Bool) (v : FixedCapacityVector A) (ys : List A)
      → test ≡ leb (length ys) capacity
      → (length ys ≤ capacity → v ≡ vector_holding capacity ys)
      → (expect test insufficient_capacity >> done v) ≡ (within capacity ys >>= holding)
  guarded_lem test v ys e h = elim (Bool-cases (leb (length ys) capacity)) [
    | inl t ↦ rw (e, t) (ap done (h (leb→le (length ys) capacity t)))
    | inr t ↦ rw (e, t) refl
  ]

  pub guarded_pair_lem :
      (test : Bool) (v : FixedCapacityVector A × ℕ) (ys : List A)
      → test ≡ leb (length ys) capacity
      → (length ys ≤ capacity → v.0 ≡ vector_holding capacity ys)
      → ((expect test insufficient_capacity >> done v) >>= λ (next, inserted). done next)
        ≡ (within capacity ys >>= holding)
  guarded_pair_lem test v ys e h = elim (Bool-cases (leb (length ys) capacity)) [
    | inl t ↦ rw (e, t) (ap done (h (leb→le (length ys) capacity t)))
    | inr t ↦ rw (e, t) refl
  ]

  module _ (small : capacity < 2 ^ width) (xs : List A) (fits : length xs ≤ capacity) where
    pub insert_bypass-holding :
        (ys : List A) (n position : ℕ)
        → length ys ≡ suc n
        → position ≤ length xs
        → length xs + suc n ≤ capacity
        → insert_bypass width capacity (vector_holding capacity xs) position ys
          ≡ (vector_holding capacity (take position xs ++ (ys ++ drop position xs)), position)
    unfolding insert_bypass insert_moved
    insert_bypass-holding ys n position e h room =
        let taken = length-take position xs h in
        let dropped = length-drop position xs in
        let total = length-append (take position xs) (ys ++ drop position xs) in
        let inner = length-append ys (drop position xs) in
        let (made, there) = insert-stored capacity xs ys n position e h room in
        ap₂ (λ v i. (v, i))
          (vector-eq _ (take position xs ++ (ys ++ drop position xs))
            (ap
                (λ k.
                  fill_up ys (move_up k position (length xs) (stored capacity xs)).1
                    (move_up k position (length xs) (stored capacity xs)).0)
                e
              ∙ made)
            (mod-eq_of_lt (omega arith) ∙ omega arith))
          (ap (λ k. (move_up k position (length xs) (stored capacity xs)).1) e ∙ there)

    pub push_back_lem :
        (x : A)
        → push_back width capacity (vector_holding capacity xs) x
          ≡ (within capacity (xs ++ (x ∷ [])) >>= holding)
    unfolding push_back push_back_bypass full size fill_up
    push_back_lem x =
        let longer = length-append xs (x ∷ []) in
        guarded_lem (not (length xs == capacity))
          (push_back_bypass width capacity (vector_holding capacity xs) x) (xs ++ (x ∷ []))
          (ground (arith, longer))
          (λ room.
            vector-eq _ (xs ++ (x ∷ [])) (fill_up-stored capacity xs (x ∷ []) (omega arith))
              (mod-eq_of_lt (omega arith) ∙ omega arith))

    pub shrink-stored :
        (n : ℕ)
        → n ≤ length xs
        → destroy_loop (length xs - n) n (stored capacity xs) ≡ stored capacity (take n xs)
    shrink-stored n h =
        let whole = take-drop n xs in
        let left = length-take n xs h in
        let right = length-drop n xs in
        ap₂ (λ k i. destroy_loop k i (stored capacity xs)) (sym right) (sym left)
        ∙ ap (λ t. destroy_loop (length (drop n xs)) (length (take n xs)) (stored capacity t))
            (sym whole)
        ∙ destroy_loop-stored capacity (take n xs) (drop n xs) (omega (arith, ap length whole))

    pub pop_back_lem :
        0 < length xs
        → pop_back width capacity (vector_holding capacity xs)
          ≡ vector_holding capacity (take (length xs - 1) xs)
    unfolding pop_back destroy_loop
    pop_back_lem h =
        let one : 1 ≡ length xs - (length xs - 1) = omega arith in
        let taken = length-take (length xs - 1) xs (omega arith) in
        vector-eq _ (take (length xs - 1) xs)
          (ap (λ k. destroy_loop k (length xs - 1) (stored capacity xs)) one
            ∙ shrink-stored (length xs - 1) (omega arith))
          (ap (λ t. t % 2 ^ width) (omega arith)
            ∙ add-mod_right (length xs - 1) (2 ^ width)
            ∙ mod-eq_of_lt (omega arith)
            ∙ sym taken)

    clear-stored : destroy_loop (length xs) 0 (stored capacity xs) ≡ stored capacity []
    clear-stored = destroy_loop-stored capacity [] xs fits

    pub clear_lem : clear width capacity (vector_holding capacity xs) ≡ vector_holding capacity []
    unfolding clear
    clear_lem = vector-eq _ [] clear-stored refl

    pub assign_lem :
        (ys : List A)
        → assign width capacity (vector_holding capacity xs) ys ≡ (within capacity ys >>= holding)
    unfolding assign clear
    assign_lem ys = guarded_lem (leb (length ys) capacity) _ ys refl (λ room.
        vector-eq _ ys
          (ap (fill_up ys 0) clear-stored ∙ fill_up-stored capacity [] ys (omega arith)) refl)

    pub assign_n_lem :
        (n : ℕ) (x : A)
        → assign_n width capacity (vector_holding capacity xs) n x
          ≡ (within capacity (replicate n x) >>= holding)
    unfolding assign_n clear
    assign_n_lem n x =
        let count = length-replicate n x in
        guarded_lem (leb n capacity) _ (replicate n x) (ap (λ k. leb k capacity) (sym count))
          (λ room.
            vector-eq _ (replicate n x)
              (ap (fill_down n x) clear-stored ∙ fill_down-stored capacity n x (omega arith))
              (sym count))

    pub insert_lem :
        (position : ℕ) (x : A)
        → position ≤ length xs
        → (insert width capacity (vector_holding capacity xs) position x >>= λ (next, inserted).
            done next)
          ≡ (within capacity (take position xs ++ (x ∷ drop position xs)) >>= holding)
    unfolding insert full size
    insert_lem position x h =
        let taken = length-take position xs h in
        let dropped = length-drop position xs in
        let total = length-append (take position xs) (x ∷ drop position xs) in
        guarded_pair_lem (not (length xs == capacity)) _
          (take position xs ++ (x ∷ drop position xs)) (ground (arith, total, taken, dropped))
          (λ room. ap (λ r. r.0) (insert_bypass-holding (x ∷ []) 0 position refl h (omega arith)))

    pub erase_lem :
        (position : ℕ)
        → position < length xs
        → (erase width capacity (vector_holding capacity xs) position).0
          ≡ vector_holding capacity (take position xs ++ drop (suc position) xs)
    unfolding erase
    erase_lem position h =
        let (x, whole) = split_at position xs h in
        let before = take position xs in
        let after = drop (suc position) xs in
        let left : length before ≡ position = length-take position xs (omega arith) in
        let right : length after ≡ length xs - suc position = length-drop (suc position) xs in
        let total = length-append before after in
        vector-eq _ (before ++ after)
          (ap₂ (λ k i. move_down k (suc i) (set (stored capacity xs) i none)) (sym right) (sym left)
            ∙ ap
                (λ t.
                  move_down (length after) (suc (length before))
                    (set (stored capacity t) (length before) none))
                whole
            ∙ erase-stored capacity before after x (omega (arith, ap length whole)))
          (omega arith)
