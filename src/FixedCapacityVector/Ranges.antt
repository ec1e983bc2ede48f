-- ===== src/FixedCapacityVector/Ranges.antt =====
-- `resize` and the insertion of a range, whose sizes are computed before they are checked.
use native.Mathlib.Nat.{mod-eq_of_lt}
use picolibrary.Common.{
  ℕ, suc, ◌+◌, ◌-◌, ◌%◌, ◌^◌, ◌≤◌, ◌<◌, ◌≡◌, refl, sym, ap, ◌∙◌, inl, inr, true, false, ◌&&◌,
  Bool-cases, ◌==◌, ltb, leb, leb→le, ltb→lt, List, [], ◌∷◌, ◌++◌, length, length-append,
  length-replicate, replicate, take, drop, arith,
}
use mathlib.Core.List.{append-nil}
use picolibrary.Common.Modular.{mod_wrapped}
use picolibrary.Expectation.{done, ◌>>=◌}
use picolibrary.FixedCapacityVector.{insert_range, resize, resize_bypass, size}
use picolibrary.Common.Appends.{take_all}
use picolibrary.FixedCapacityVector.Slots.{construct_loop-eq}
use picolibrary.FixedCapacityVector.Sequence.{insert_range_call, within, call_sequence}
use picolibrary.FixedCapacityVector.Stored.{
  vector_holding, stored, fill_up-stored, length-take, length-drop,
}
use picolibrary.FixedCapacityVector.Holding.{
  holding, vector-eq, guarded_lem, guarded_pair_lem, insert_bypass-holding, shrink-stored,
}

module _ {ℓ} {A : Type ℓ} (width capacity : ℕ) where
  module _ (small : capacity < 2 ^ width) (xs : List A) (fits : length xs ≤ capacity) where
    resized_length : (n : ℕ) (x : A) → length (take n xs ++ replicate (n - length xs) x) ≡ n
    resized_length n x =
        let total = length-append (take n xs) (replicate (n - length xs) x) in
        let extra = length-replicate (n - length xs) x in
        elim (Bool-cases (leb n (length xs))) [
          | inl t ↦
              let low = leb→le n (length xs) t in let taken = length-take n xs low in omega arith
          | inr t ↦
              let high : length xs < n = ground arith in
              let taken = ap length (take_all xs n (omega arith)) in omega arith
        ]

    resize_bypass-stored :
        (n : ℕ) (x : A)
        → n ≤ capacity
        → (resize_bypass width capacity (vector_holding capacity xs) n x).m_storage
          ≡ stored capacity (take n xs ++ replicate (n - length xs) x)
    unfolding resize_bypass
    resize_bypass-stored n x room = elim (Bool-cases (leb n (length xs))) [
      | inl t ↦
          let low = leb→le n (length xs) t in
          let none_more : n - length xs ≡ 0 = omega arith in
          let ends = append-nil (take n xs) in
          let no_growth : ltb (length xs) n ≡ false = ground arith in
          elim (Bool-cases (ltb n (length xs))) [
            | inl u ↦
                rw (no_growth, u, none_more, ends)
                  (shrink-stored width capacity small xs fits n low)
            | inr u ↦
                let same : length xs ≤ n = ground arith in
                rw (no_growth, u, none_more, ends) (ap (stored capacity) (sym (take_all xs n same)))
          ]
      | inr t ↦
          let high : length xs < n = ground arith in
          let growth : ltb (length xs) n ≡ true = ground arith in
          let no_shrink : ltb n (length xs) ≡ false = ground arith in
          let all = take_all xs n (omega arith) in
          let count = length-replicate (n - length xs) x in
          rw (growth, no_shrink, all)
            (construct_loop-eq (n - length xs) (length xs) x (stored capacity xs)
              ∙ fill_up-stored capacity xs (replicate (n - length xs) x) (omega arith))
    ]

    pub resize_lem :
        (n : ℕ) (x : A)
        → resize width capacity (vector_holding capacity xs) n x
          ≡ (within capacity (take n xs ++ replicate (n - length xs) x) >>= holding width capacity)
    unfolding resize resize_bypass
    resize_lem n x =
        let count = resized_length n x in
        guarded_lem width capacity (leb n capacity) _ (take n xs ++ replicate (n - length xs) x)
          (ap (λ k. leb k capacity) (sym count))
          (λ room.
            vector-eq width capacity _ (take n xs ++ replicate (n - length xs) x)
              (resize_bypass-stored n x (omega arith)) (sym count))

    -- The check of the code, against the sum that does not wrap around.
    no_overflow :
        (n : ℕ)
        → 0 < n
        → n < 2 ^ width
        → (ltb (length xs) ((length xs + n) % 2 ^ width)
            && leb ((length xs + n) % 2 ^ width) capacity)
          ≡ leb (length xs + n) capacity
    no_overflow n pos h = elim (Bool-cases (ltb (length xs + n) (2 ^ width))) [
      | inl t ↦
          let plain = mod-eq_of_lt {m = 2 ^ width} (ltb→lt (length xs + n) (2 ^ width) t) in
          rw plain (ground arith)
      | inr t ↦
          let above : 2 ^ width ≤ length xs + n = ground arith in
          let wrapped : (length xs + n) % 2 ^ width ≡ length xs + n - 2 ^ width =
            mod_wrapped (2 ^ width) (length xs + n) (omega arith) above in
          rw wrapped (ground arith)
    ]

    pub insert_range_lem :
        (position : ℕ) (ys : List A)
        → position ≤ length xs
        → length ys < 2 ^ width
        → (insert_range width capacity (vector_holding capacity xs) position ys
            >>= λ (next, inserted). done next)
          ≡ (call_sequence capacity xs (insert_range_call position ys) >>= holding width capacity)
    unfolding insert_range size call_sequence
    insert_range_lem position [] h small_ys =
        let same : (length xs + 0) % 2 ^ width ≡ length xs =
          mod-eq_of_lt (omega arith) ∙ omega arith in
        let no_gain : ltb (length xs) (length xs) ≡ false = ground arith in rw (same, no_gain) refl
    insert_range_lem position (y ∷ ys) h small_ys =
        let count = length (y ∷ ys) in
        let some_more : (suc (length ys) == 0) ≡ false = ground arith in
        let total = length-append (take position xs) ((y ∷ ys) ++ drop position xs) in
        let inner = length-append (y ∷ ys) (drop position xs) in
        let taken = length-take position xs h in
        let dropped = length-drop position xs in
        rw some_more (
          guarded_pair_lem width capacity
            (ltb (length xs) ((length xs + count) % 2 ^ width)
              && leb ((length xs + count) % 2 ^ width) capacity)
            _ (take position xs ++ ((y ∷ ys) ++ drop position xs))
            (no_overflow count (omega arith) small_ys ∙ ap (λ k. leb k capacity) (omega arith))
            (λ room.
              ap (λ r. r.0)
                (insert_bypass-holding width capacity small xs fits (y ∷ ys) (length ys) position
                  refl h (omega arith))))
