-- ===== src/CircularBuffer/Tests.antt =====
-- A circular buffer of four characters, with eight-bit sizes.
use picolibrary.Common.{ℕ, ◌≡◌, refl, List, [], ◌∷◌, arith}
use picolibrary.CircularBuffer.{new_buffer}
use picolibrary.CircularBuffer.InterruptsOnly.{run_from_interrupt, run_from_interrupt-eq-run_queue}
use picolibrary.CircularBuffer.Queue.{Call, push_call, pop_call, clear_call, run_queue, call_queue}
use picolibrary.CircularBuffer.Represents.{IsCapacity, new_buffer-Represents}
use picolibrary.CircularBuffer.Refinement.{
  call_buffer, run_buffer, Agrees, call-Agrees, run_buffer-eq-run_queue,
}
use picolibrary.BitManipulation.{is_power_of_two}

four-IsCapacity : IsCapacity 8 4
unfolding is_power_of_two
four-IsCapacity = record { representable = omega arith; power = refl }

abbrev calls : List (Call ℕ)
calls =
    push_call 1
    ∷ push_call 2
    ∷ pop_call
    ∷ push_call 3
    ∷ push_call 4
    ∷ push_call 5
    ∷ pop_call
    ∷ clear_call
    ∷ push_call 6
    ∷ []

run_buffer-eq-run_queue_example : run_buffer 8 4 calls (new_buffer 8 4) ≡ run_queue 4 calls []
run_buffer-eq-run_queue_example = run_buffer-eq-run_queue 8 4 four-IsCapacity calls

call-Agrees_example :
    Agrees {A = ℕ} 8 4
      (call_buffer 8 4 (new_buffer 8 4) (push_call 7))
      (call_queue 4 [] (push_call 7))
call-Agrees_example =
    call-Agrees 8 4 four-IsCapacity (new_buffer 8 4) [] (push_call 7)
      (new_buffer-Represents 8 4 four-IsCapacity)

run_from_interrupt-eq-run_queue_example :
    run_from_interrupt 8 4 calls (new_buffer 8 4) ≡ run_queue 4 calls []
run_from_interrupt-eq-run_queue_example = run_from_interrupt-eq-run_queue 8 4 four-IsCapacity calls
