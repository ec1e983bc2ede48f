-- ===== src/CircularBuffer/MainReads/Tests.antt =====
-- A buffer of two numbers: interrupts push before a pop, between its accesses, and while it keeps
-- them disabled.
use picolibrary.Common.{ℕ, true, List, [], ◌∷◌, ◌≡◌, refl, arith}
use picolibrary.BitManipulation.{is_power_of_two}
use picolibrary.CircularBuffer.FromInterrupt.{push_from_interrupt}
use picolibrary.CircularBuffer.Represents.{IsCapacity}
use picolibrary.CircularBuffer.MainReads.{
  pop_step, Turn, main_turn, interrupt_turn, run_turns, start,
}
use picolibrary.CircularBuffer.MainReads.Invariant.{pop_turns_lem}
use picolibrary.CircularBuffer.MainReads.Knowledge.{Inv}

two-IsCapacity : IsCapacity 8 2
unfolding is_power_of_two
two-IsCapacity = record { representable = omega arith; power = refl }

abbrev turns : List (Turn ℕ)
turns =
    interrupt_turn 7
    ∷ main_turn
    ∷ main_turn
    ∷ interrupt_turn 8
    ∷ main_turn
    ∷ main_turn
    ∷ interrupt_turn 9
    ∷ main_turn
    ∷ main_turn
    ∷ main_turn
    ∷ interrupt_turn 10
    ∷ []

pushes_seen : (run_turns 8 2 turns (start 8 2 true)).pushed ≡ 7 ∷ 8 ∷ 10 ∷ []
unfolding run_turns start push_from_interrupt pop_step
pushes_seen = refl

pop_turns_lem_example :
    (values : List ℕ) × Inv 8 2 true (run_turns 8 2 turns (start 8 2 true)) values
pop_turns_lem_example = pop_turns_lem 8 2 true two-IsCapacity turns
