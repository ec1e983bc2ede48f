-- ===== src/FixedCapacityVector/Sequence.antt =====
-- What the vector promises: a sequence of at most as many values as its capacity.
use picolibrary.Common.{
  ℕ, suc, ◌-◌, ◌^◌, ◌≤◌, ◌<◌, leb, ◌==◌, if◌then◌else◌, List, [], ◌∷◌, ◌++◌, length, replicate,
  take, drop,
}
use picolibrary.Expectation.{Checked, done, fatal, insufficient_capacity}

-- The calls that change a vector, with the index of the position.
pub data Call {ℓ} (A : Type ℓ) : Type ℓ where
  push_back_call : A → Call A
  pop_back_call clear_call : Call A
  insert_call : ℕ → A → Call A
  insert_range_call : ℕ → List A → Call A
  erase_call : ℕ → Call A
  resize_call assign_n_call : ℕ → A → Call A
  assign_call : List A → Call A

-- A call whose effect C++ defines: the position is in the vector, an element that is removed is
-- there, and the length of a range is a value of `std::size_t`.
abbrev pub IsValid {ℓ} : {A : Type ℓ} → ℕ → List A → Call A → Type 0
IsValid width xs (push_back_call x) = Unit
IsValid width xs pop_back_call = 0 < length xs
IsValid width xs clear_call = Unit
IsValid width xs (insert_call position x) = position ≤ length xs
IsValid width xs (insert_range_call position ys) = (position ≤ length xs) × (length ys < 2 ^ width)
IsValid width xs (erase_call position) = position < length xs
IsValid width xs (resize_call n x) = Unit
IsValid width xs (assign_n_call n x) = Unit
IsValid width xs (assign_call ys) = Unit

-- The new sequence, if it is one that the capacity admits.
abbrev pub within {ℓ} : {A : Type ℓ} → ℕ → List A → Checked (List A)
within capacity xs = if leb (length xs) capacity then done xs else fatal insufficient_capacity

unfoldable pub call_sequence {ℓ} : {A : Type ℓ} → ℕ → List A → Call A → Checked (List A)
call_sequence capacity xs (push_back_call x) = within capacity (xs ++ (x ∷ []))
call_sequence capacity xs pop_back_call = done (take (length xs - 1) xs)
call_sequence capacity xs clear_call = done []
call_sequence capacity xs (insert_call position x) =
    within capacity (take position xs ++ (x ∷ drop position xs))
call_sequence capacity xs (insert_range_call position ys) =
    if length ys == 0
    then fatal insufficient_capacity
    else within capacity (take position xs ++ (ys ++ drop position xs))
call_sequence capacity xs (erase_call position) = done (take position xs ++ drop (suc position) xs)
call_sequence capacity xs (resize_call n x) =
    within capacity (take n xs ++ replicate (n - length xs) x)
call_sequence capacity xs (assign_n_call n x) = within capacity (replicate n x)
call_sequence capacity xs (assign_call ys) = within capacity ys
