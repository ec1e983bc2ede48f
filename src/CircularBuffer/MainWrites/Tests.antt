-- ===== src/CircularBuffer/MainWrites/Tests.antt =====
-- A buffer of two numbers: the interrupt pops between the accesses of a push, and has nothing to pop
-- while the push keeps it disabled.
use picolibrary.Common.{ℕ, true, List, [], ◌∷◌, ◌≡◌, refl, some, arith}
use picolibrary.BitManipulation.{is_power_of_two}
use picolibrary.CircularBuffer.FromInterrupt.{pop_from_interrupt}
use picolibrary.CircularBuffer.Represents.{IsCapacity}
use picolibrary.CircularBuffer.MainWrites.{
  push_step, Turn, main_turn, interrupt_turn, run_turns, start,
}
use picolibrary.CircularBuffer.MainWrites.Invariant.{push_turns_lem}
use picolibrary.CircularBuffer.MainWrites.Knowledge.{Inv}

two-IsCapacity : IsCapacity 8 2
unfolding is_power_of_two
two-IsCapacity = record { representable = omega arith; power = refl }

-- All the turns of one push.
abbrev push_of : ℕ → List (Turn ℕ) → List (Turn ℕ)
push_of x turns =
    main_turn x
    ∷ main_turn 0
    ∷ main_turn 0
    ∷ main_turn 0
    ∷ main_turn 0
    ∷ main_turn 0
    ∷ main_turn 0
    ∷ turns

abbrev turns : List (Turn ℕ)
turns = push_of 4 (
    main_turn 5
    ∷ main_turn 0
    ∷ interrupt_turn
    ∷ main_turn 0
    ∷ main_turn 0
    ∷ interrupt_turn
    ∷ main_turn 0
    ∷ main_turn 0
    ∷ main_turn 0
    ∷ interrupt_turn
    ∷ [])

pops_seen : (run_turns 8 2 turns (start 8 2 true)).popped ≡ some 4 ∷ some 5 ∷ []
unfolding run_turns start pop_from_interrupt push_step
pops_seen = refl

push_turns_lem_example :
    (values : List ℕ) × Inv 8 2 true (run_turns 8 2 turns (start 8 2 true)) values
push_turns_lem_example = push_turns_lem 8 2 true two-IsCapacity turns
