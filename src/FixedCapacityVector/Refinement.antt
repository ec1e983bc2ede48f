-- ===== src/FixedCapacityVector/Refinement.antt =====
-- The vector against the sequence that it promises.
use picolibrary.Common.{ℕ, ◌≤◌, List, [], ◌∷◌, length}
use picolibrary.Expectation.{Checked, done, fatal, ◌>>=◌}
use picolibrary.FixedCapacityVector.{
  FixedCapacityVector, clear, assign, assign_n, insert, insert_range, erase, push_back, pop_back,
  resize,
}
use picolibrary.FixedCapacityVector.Sequence.{
  Call, push_back_call, pop_back_call, clear_call, insert_call, insert_range_call, erase_call,
  resize_call, assign_n_call, assign_call, IsValid, call_sequence,
}

module _ {ℓ} {A : Type ℓ} (width capacity : ℕ) where
  -- The calls, without the iterators that they return.
  unfoldable pub call_vector : FixedCapacityVector A → Call A → Checked (FixedCapacityVector A)
  call_vector v (push_back_call x) = push_back width capacity v x
  call_vector v pop_back_call = done (pop_back width capacity v)
  call_vector v clear_call = done (clear width capacity v)
  call_vector v (insert_call position x) =
      insert width capacity v position x >>= λ (next, inserted). done next
  call_vector v (insert_range_call position values) =
      insert_range width capacity v position values >>= λ (next, inserted). done next
  call_vector v (erase_call position) = done (erase width capacity v position).0
  call_vector v (resize_call n x) = resize width capacity v n x
  call_vector v (assign_n_call n x) = assign_n width capacity v n x
  call_vector v (assign_call values) = assign width capacity v values

  unfoldable pub run_vector :
      List (Call A) → FixedCapacityVector A → Checked (FixedCapacityVector A)
  unfolding call_vector
  run_vector [] v = done v
  run_vector (call ∷ calls) v = call_vector v call >>= λ next. run_vector calls next

  unfoldable pub run_sequence : List (Call A) → List A → Checked (List A)
  unfolding call_sequence
  run_sequence [] xs = done xs
  run_sequence (call ∷ calls) xs =
      call_sequence capacity xs call >>= λ next. run_sequence calls next

  -- What holds of the sequence, if there is one.
  abbrev pub IfDone : (List A → Type 0) → Checked (List A) → Type 0
  IfDone P (done xs) = P xs
  IfDone P (fatal e) = Unit

  -- Every call is valid when it is made.
  abbrev pub AllValid : List (Call A) → List A → Type 0
  AllValid [] xs = Unit
  AllValid (call ∷ calls) xs =
      IsValid width xs call × IfDone (AllValid calls) (call_sequence capacity xs call)

  abbrev Fits : List A → Type 0
  Fits xs = length xs ≤ capacity
