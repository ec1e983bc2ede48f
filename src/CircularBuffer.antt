-- ===== src/CircularBuffer.antt =====
-- include/picolibrary/circular_buffer.h: `Circular_Buffer` as the main loop alone uses it, the
-- use case MAIN_READS_MAIN_WRITES. `N` is the capacity and `digits` the width of `Size_Type`.
-- A slot of `m_storage` is `some value` while an object lives in it and `none` otherwise, so a
-- placement new writes a `some` and a destructor call a `none`. Index sums are converted to
-- `Size_Type` here before the mask is applied; where C++ promotes them to `int` first, the masked
-- value is the same. `emplace` is `push` of the value that its arguments make, and the overloads
-- of `push` for the two kinds of reference differ only in how that value is copied.
pub mod Index
pub mod Holds
pub mod Represents
pub mod Queue
pub mod Refinement
pub mod View
pub mod FromInterrupt
pub mod InterruptsOnly
pub mod MainReads
pub mod MainWrites
mod Tests
use picolibrary.Common.{
  ℕ, zero, suc, ◌+◌, ◌-◌, ◌%◌, ◌^◌, Bool, true, false, not, bit_and, ◌==◌, Option, none, some, List,
  get_or, set, replicate,
}
use picolibrary.Expectation.{Checked, done, ◌>>=◌, ◌>>◌, expect, would_overflow, would_underflow}

pub record CircularBuffer {ℓ} (A : Type ℓ) : Type ℓ where
  pub m_read : ℕ
  pub m_write : ℕ
  pub m_size : ℕ
  pub m_storage : List (Option A)

abbrev pub index_wrap_around_mask : ℕ → ℕ
index_wrap_around_mask capacity = capacity - 1

-- `m_write = ( m_write + 1 ) & index_wrap_around_mask()`, and so for `m_read`.
abbrev pub advance : ℕ → ℕ → ℕ → ℕ
advance digits capacity index = bit_and ((index + 1) % 2 ^ digits) (index_wrap_around_mask capacity)

abbrev pub increment : ℕ → ℕ → ℕ
increment digits size = (size + 1) % 2 ^ digits

abbrev pub decrement : ℕ → ℕ → ℕ
decrement digits size = (size + (2 ^ digits - 1)) % 2 ^ digits

module _ {ℓ} {A : Type ℓ} (digits capacity : ℕ) where
  unfoldable pub new_buffer : CircularBuffer A
  new_buffer = record { m_read = 0; m_write = 0; m_size = 0; m_storage = replicate capacity none }

  -- `none`: no object lives in the slot, and C++ leaves the access undefined.
  unfoldable pub front : CircularBuffer A → Option A
  front b = get_or b.m_storage b.m_read none

  unfoldable pub back : CircularBuffer A → Option A
  back b =
      get_or b.m_storage
        (bit_and ((b.m_read + b.m_size + (2 ^ digits - 1)) % 2 ^ digits)
          (index_wrap_around_mask capacity))
        none

  unfoldable pub empty : CircularBuffer A → Bool
  empty b = b.m_size == 0

  unfoldable pub full : CircularBuffer A → Bool
  full b = b.m_size == capacity

  unfoldable pub push_bypass : CircularBuffer A → A → CircularBuffer A
  push_bypass b value = record b {
    m_storage = set b.m_storage b.m_write (some value);
    m_write = advance digits capacity b.m_write;
    m_size = increment digits b.m_size;
  }

  unfoldable pub push : CircularBuffer A → A → Checked (CircularBuffer A)
  unfolding full
  push b value = do expect (not (full b)) would_overflow; done (push_bypass b value)

  unfoldable pub pop_bypass : CircularBuffer A → CircularBuffer A
  pop_bypass b = record b {
    m_storage = set b.m_storage b.m_read none;
    m_read = advance digits capacity b.m_read;
    m_size = decrement digits b.m_size;
  }

  unfoldable pub pop : CircularBuffer A → Checked (CircularBuffer A)
  unfolding empty
  pop b = do expect (not (empty b)) would_underflow; done (pop_bypass b)

  -- The loop of `clear` on fuel; `clear` gives it as much as there are elements.
  unfoldable pub clear_loop : ℕ → CircularBuffer A → CircularBuffer A
  clear_loop zero b = b
  clear_loop (suc fuel) b = elim (empty b) [ true ↦ b | false ↦ clear_loop fuel (pop_bypass b) ]

  unfoldable pub clear : CircularBuffer A → CircularBuffer A
  unfolding clear_loop empty
  clear b = clear_loop b.m_size b
