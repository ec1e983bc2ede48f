-- ===== src/CircularBuffer/MainReads.antt =====
-- include/picolibrary/circular_buffer.h: the use case MAIN_READS_INTERRUPTS_WRITE, one access to
-- shared state at a time. The main thread runs `pop`, once or in the loop of `clear`; between any
-- two of its accesses an interrupt that is enabled may run `push_from_interrupt`.
pub mod Knowledge
pub mod Invariant
mod Tests
use picolibrary.Common.{ℕ, Bool, true, false, ◌==◌, Option, none, some, List, [], ◌∷◌, ◌++◌, set}
use picolibrary.Expectation.{GenericError, Checked, done, fatal, would_underflow}
use picolibrary.Interrupt.{enter_critical_section, restore_on_exit}
use picolibrary.CircularBuffer.{CircularBuffer, advance, decrement, new_buffer, front}
use picolibrary.CircularBuffer.FromInterrupt.{push_from_interrupt}

-- Where the main thread stands in `pop`, with the locals that are live there: `guard` is what the
-- critical section guard saved, and `size` the value that `--m_size` has read.
pub data MainAt : Type 0 where
  idle checked destroyed advanced : MainAt
  locked : (guard : Bool) → MainAt
  loaded : (guard : Bool) (size : ℕ) → MainAt
  stored : (guard : Bool) → MainAt

-- The buffer with the state of interrupts, and what has happened: the values that interrupts have
-- pushed, what the main thread found in the slots that it destroyed, and the fatal error that has
-- ended the program.
pub record System {ℓ} (A : Type ℓ) : Type ℓ where
  pub buffer : CircularBuffer A
  pub interrupts_enabled : Bool
  pub main_at : MainAt
  pub pushed : List A
  pub popped : List (Option A)
  pub fault : Option GenericError

pub data Turn {ℓ} (A : Type ℓ) : Type ℓ where
  main_turn : Turn A
  interrupt_turn : A → Turn A

module _ {ℓ} {A : Type ℓ} (digits capacity : ℕ) where
  -- `empty()` reads `m_size` once, in a critical section of its own.
  check : System A → Bool → System A
  check s true = record s { fault = some would_underflow }
  check s false = record s { main_at = checked }

  unfoldable pub pop_step : MainAt → System A → System A
  unfolding check front
  pop_step idle s = check s (s.buffer.m_size == 0)
  pop_step checked s = record s {
    buffer = record s.buffer { m_storage = set s.buffer.m_storage s.buffer.m_read none };
    popped = s.popped ++ (front digits capacity s.buffer ∷ []);
    main_at = destroyed;
  }
  pop_step destroyed s = record s {
    buffer = record s.buffer { m_read = advance digits capacity s.buffer.m_read };
    main_at = advanced;
  }
  pop_step advanced s =
      let (guard, enabled) = enter_critical_section s.interrupts_enabled in
      record s { interrupts_enabled = enabled; main_at = locked guard }
  pop_step (locked guard) s = record s { main_at = loaded guard s.buffer.m_size }
  pop_step (loaded guard size) s = record s {
    buffer = record s.buffer { m_size = decrement digits size };
    main_at = stored guard;
  }
  pop_step (stored guard) s = record s {
    interrupts_enabled = restore_on_exit guard;
    main_at = idle;
  }

  pushed_by : System A → A → Checked (CircularBuffer A) → System A
  pushed_by s x (done b) = record s { buffer = b; pushed = s.pushed ++ (x ∷ []) }
  pushed_by s x (fatal e) = record s { fault = some e }

  -- An interrupt that is not enabled does not run.
  push_turn : Bool → System A → A → System A
  unfolding pushed_by
  push_turn false s x = s
  push_turn true s x = pushed_by s x (push_from_interrupt digits capacity s.buffer x)

  turn : Option GenericError → System A → Turn A → System A
  unfolding push_turn
  turn (some e) s t = s
  turn none s main_turn = pop_step s.main_at s
  turn none s (interrupt_turn x) = push_turn s.interrupts_enabled s x

  unfoldable pub run_turns : List (Turn A) → System A → System A
  unfolding turn
  run_turns [] s = s
  run_turns (t ∷ turns) s = run_turns turns (turn s.fault s t)

  unfoldable pub start : Bool → System A
  unfolding new_buffer
  start enabled = record {
    buffer = new_buffer digits capacity;
    interrupts_enabled = enabled;
    main_at = idle;
    pushed = [];
    popped = [];
    fault = none;
  }
