-- ===== src/CircularBuffer/FromInterrupt.antt =====
-- include/picolibrary/circular_buffer.h: the member functions that an interrupt service routine
-- calls. They are the same in the three use cases with interrupts, and one of them runs to its end
-- before any other: the use cases assume that no interrupt that uses the buffer interrupts another.
use picolibrary.Common.{
  ◌+◌, ◌-◌, ◌%◌, ◌^◌, bit_and, get_or, ℕ, zero, suc, Bool, true, false, not, ◌==◌, Option, none,
  some, set,
}
use picolibrary.Expectation.{Checked, done, ◌>>◌, expect, would_overflow, would_underflow}
use picolibrary.CircularBuffer.{
  index_wrap_around_mask, CircularBuffer, advance, increment, decrement, front,
}

module _ {ℓ} {A : Type ℓ} (digits capacity : ℕ) where
  unfoldable pub size_from_interrupt : CircularBuffer A → ℕ
  size_from_interrupt b = b.m_size

  unfoldable pub empty_from_interrupt : CircularBuffer A → Bool
  unfolding size_from_interrupt
  empty_from_interrupt b = size_from_interrupt b == 0

  unfoldable pub full_from_interrupt : CircularBuffer A → Bool
  unfolding size_from_interrupt
  full_from_interrupt b = size_from_interrupt b == capacity

  unfoldable pub front_from_interrupt : CircularBuffer A → Option A
  unfolding front
  front_from_interrupt b = front digits capacity b

  unfoldable pub back_from_interrupt : CircularBuffer A → Option A
  unfolding size_from_interrupt
  back_from_interrupt b =
      get_or b.m_storage
        (bit_and ((b.m_read + size_from_interrupt b + (2 ^ digits - 1)) % 2 ^ digits)
          (index_wrap_around_mask capacity))
        none

  unfoldable pub push_from_interrupt_bypass : CircularBuffer A → A → CircularBuffer A
  push_from_interrupt_bypass b value =
      let write = b.m_write in
      record b {
        m_storage = set b.m_storage write (some value);
        m_write = advance digits capacity write;
        m_size = increment digits b.m_size;
      }

  unfoldable pub push_from_interrupt : CircularBuffer A → A → Checked (CircularBuffer A)
  unfolding full_from_interrupt push_from_interrupt_bypass
  push_from_interrupt b value = do
    expect (not (full_from_interrupt b)) would_overflow
    done (push_from_interrupt_bypass b value)

  unfoldable pub pop_from_interrupt_bypass : CircularBuffer A → CircularBuffer A
  pop_from_interrupt_bypass b = record b {
    m_storage = set b.m_storage b.m_read none;
    m_read = advance digits capacity b.m_read;
    m_size = decrement digits b.m_size;
  }

  unfoldable pub pop_from_interrupt : CircularBuffer A → Checked (CircularBuffer A)
  unfolding empty_from_interrupt pop_from_interrupt_bypass
  pop_from_interrupt b = do
    expect (not (empty_from_interrupt b)) would_underflow
    done (pop_from_interrupt_bypass b)

  -- The loop on fuel, of which `clear_from_interrupt` gives it as much as there are elements.
  unfoldable pub clear_from_interrupt_loop : ℕ → CircularBuffer A → CircularBuffer A
  clear_from_interrupt_loop zero b = b
  clear_from_interrupt_loop (suc fuel) b = elim (empty_from_interrupt b) [
    | true ↦ b
    | false ↦ clear_from_interrupt_loop fuel (pop_from_interrupt_bypass b)
  ]

  unfoldable pub clear_from_interrupt : CircularBuffer A → CircularBuffer A
  unfolding clear_from_interrupt_loop
  clear_from_interrupt b = clear_from_interrupt_loop (size_from_interrupt b) b
