-- ===== src/CircularBuffer/MainWrites.antt =====
-- include/picolibrary/circular_buffer.h: the use case INTERRUPT_READS_MAIN_WRITES, one access to
-- shared state at a time. The main thread runs `push`; between any two of its accesses the
-- interrupt, where it is enabled, may run `pop_from_interrupt`. `emplace` is `push` of the value
-- that its arguments make.
pub mod Knowledge
pub mod Invariant
mod Tests
use picolibrary.Common.{ℕ, Bool, true, false, ◌==◌, Option, none, some, List, [], ◌∷◌, ◌++◌, set}
use picolibrary.Expectation.{GenericError, Checked, done, fatal, would_overflow}
use picolibrary.Interrupt.{enter_critical_section, restore_on_exit}
use picolibrary.CircularBuffer.{CircularBuffer, advance, increment, new_buffer}
use picolibrary.CircularBuffer.FromInterrupt.{front_from_interrupt, pop_from_interrupt}

-- Where the main thread stands in `push`, with the locals that are live there: `value` is the
-- argument, `guard` what the critical section guard saved, and `size` the value that `++m_size` has
-- read.
pub data MainAt {ℓ} (A : Type ℓ) : Type ℓ where
  idle : MainAt A
  checked : (value : A) → MainAt A
  placed advanced : MainAt A
  locked : (guard : Bool) → MainAt A
  loaded : (guard : Bool) (size : ℕ) → MainAt A
  stored : (guard : Bool) → MainAt A

-- The buffer with the state of interrupts, and what has happened: the values that the main thread
-- has placed, what the interrupt found in the slots that it destroyed, and the fatal error that has
-- ended the program.
pub record System {ℓ} (A : Type ℓ) : Type ℓ where
  pub buffer : CircularBuffer A
  pub interrupts_enabled : Bool
  pub main_at : MainAt A
  pub pushed : List A
  pub popped : List (Option A)
  pub fault : Option GenericError

-- `main_turn` has the value that the main thread pushes next, if it begins a push.
pub data Turn {ℓ} (A : Type ℓ) : Type ℓ where
  main_turn : A → Turn A
  interrupt_turn : Turn A

module _ {ℓ} {A : Type ℓ} (digits capacity : ℕ) where
  -- `full()` reads `m_size` once, in a critical section of its own.
  check : System A → A → Bool → System A
  check s x true = record s { fault = some would_overflow }
  check s x false = record s { main_at = checked x }

  unfoldable pub push_step : MainAt A → System A → A → System A
  unfolding check
  push_step idle s x = check s x (s.buffer.m_size == capacity)
  push_step (checked value) s x = record s {
    buffer = record s.buffer { m_storage = set s.buffer.m_storage s.buffer.m_write (some value) };
    pushed = s.pushed ++ (value ∷ []);
    main_at = placed;
  }
  push_step placed s x = record s {
    buffer = record s.buffer { m_write = advance digits capacity s.buffer.m_write };
    main_at = advanced;
  }
  push_step advanced s x =
      let (guard, enabled) = enter_critical_section s.interrupts_enabled in
      record s { interrupts_enabled = enabled; main_at = locked guard }
  push_step (locked guard) s x = record s { main_at = loaded guard s.buffer.m_size }
  push_step (loaded guard size) s x = record s {
    buffer = record s.buffer { m_size = increment digits size };
    main_at = stored guard;
  }
  push_step (stored guard) s x = record s {
    interrupts_enabled = restore_on_exit guard;
    main_at = idle;
  }

  popped_by : System A → Checked (CircularBuffer A) → System A
  unfolding front_from_interrupt
  popped_by s (done b) = record s {
    buffer = b;
    popped = s.popped ++ (front_from_interrupt digits capacity s.buffer ∷ []);
  }
  popped_by s (fatal e) = record s { fault = some e }

  -- An interrupt that is not enabled does not run.
  pop_turn : Bool → System A → System A
  unfolding popped_by
  pop_turn false s = s
  pop_turn true s = popped_by s (pop_from_interrupt digits capacity s.buffer)

  turn : Option GenericError → System A → Turn A → System A
  unfolding pop_turn
  turn (some e) s t = s
  turn none s (main_turn x) = push_step s.main_at s x
  turn none s interrupt_turn = pop_turn s.interrupts_enabled s

  unfoldable pub run_turns : List (Turn A) → System A → System A
  unfolding turn
  run_turns [] s = s
  run_turns (t ∷ turns) s = run_turns turns (turn s.fault s t)

  unfoldable pub start : Bool → System A
  unfolding new_buffer
  start enabled = record {
    buffer = new_buffer digits capacity;
    interrupts_enabled = enabled;
    main_at = idle;
    pushed = [];
    popped = [];
    fault = none;
  }
