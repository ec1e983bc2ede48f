-- ===== src/FixedCapacityVector/Tests.antt =====
-- A vector of at most five numbers.
use picolibrary.Common.{ℕ, ◌≡◌, refl, false, none, some, List, [], ◌∷◌, arith}
use picolibrary.Expectation.{done, fatal, out_of_range}
use picolibrary.FixedCapacityVector.{
  new_vector, at, push_back, insert, insert_range, resize, pop_back, erase,
}
use picolibrary.FixedCapacityVector.Copies.{copy_of, move_of, copy_assign, move_assign, copies_lem}
use picolibrary.FixedCapacityVector.Refinement.{run_vector, run_sequence}
use picolibrary.FixedCapacityVector.Sequence.{
  Call, push_back_call, pop_back_call, insert_call, insert_range_call, erase_call, resize_call,
}
use picolibrary.FixedCapacityVector.Stored.{vector_holding}

abbrev calls : List (Call ℕ)
calls =
    push_back_call 1
    ∷ push_back_call 2
    ∷ insert_call 1 3
    ∷ insert_range_call 0 (4 ∷ 5 ∷ [])
    ∷ erase_call 3
    ∷ pop_back_call
    ∷ resize_call 4 6
    ∷ []

run_sequence_result : run_sequence 8 5 calls [] ≡ done (4 ∷ 5 ∷ 1 ∷ 6 ∷ [])
unfolding run_sequence
run_sequence_result = refl

run_vector_result :
    run_vector 8 5 calls (new_vector 8 5)
    ≡ done (record { m_storage = some 4 ∷ some 5 ∷ some 1 ∷ some 6 ∷ none ∷ []; m_size = 4 })
unfolding run_vector new_vector push_back insert insert_range resize pop_back erase
run_vector_result = refl

abbrev two : List ℕ
two = 7 ∷ 8 ∷ []

abbrev three : List ℕ
three = 1 ∷ 2 ∷ 3 ∷ []

abbrev nine : ℕ
nine = 9

at_end : at 8 5 (vector_holding 5 two) 2 ≡ fatal out_of_range
unfolding at
at_end = refl

copies_lem_example :
    (copy_of 8 5 (vector_holding 5 three) ≡ vector_holding 5 three)
    × ((move_of 8 5 (vector_holding 5 three) ≡ (vector_holding 5 three, vector_holding 5 []))
        × ((copy_assign 8 5 false (vector_holding 5 two) (vector_holding 5 three)
              ≡ vector_holding 5 three)
            × (move_assign 8 5 false (vector_holding 5 two) (vector_holding 5 three)
                ≡ (vector_holding 5 three, vector_holding 5 []))))
copies_lem_example = copies_lem 8 5 (omega arith) three two (omega arith) (omega arith)
