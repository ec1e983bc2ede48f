-- ===== src/CircularBuffer/MainWrites/Knowledge.antt =====
-- What holds of the buffer and of interrupts, by where the main thread stands.
use mathlib.Core.Bool.{true≢false}
use picolibrary.Common.{
  ℕ, suc, ◌+◌, ◌<◌, ◌≡◌, sym, ◌∙◌, Bool, true, false, Option, some, List, ◌++◌, map, length, arith,
}
use picolibrary.Expectation.{GenericError}
use picolibrary.CircularBuffer.{CircularBuffer, advance}
use picolibrary.CircularBuffer.View.{Contains}
use picolibrary.CircularBuffer.MainWrites.{
  MainAt, idle, checked, placed, advanced, locked, loaded, stored, System,
}

-- The values that are in the buffer, but that `m_size` does not count yet.
abbrev pub owed {ℓ} : {A : Type ℓ} → MainAt A → ℕ
owed idle = 0
owed (checked value) = 0
owed placed = 1
owed advanced = 1
owed (locked guard) = 1
owed (loaded guard size) = 1
owed (stored guard) = 0

abbrev pub write_at {ℓ} : {A : Type ℓ} → ℕ → ℕ → MainAt A → ℕ → ℕ
write_at digits capacity placed m_write = advance digits capacity m_write
write_at digits capacity _ m_write = m_write

-- What the main thread knows where it stands.
abbrev pub Knows {ℓ} : {A : Type ℓ} → ℕ → MainAt A → ℕ → ℕ → Type 0
Knows capacity (checked value) m_size count = count < capacity
Knows capacity (loaded guard size) m_size count = size ≡ m_size
Knows capacity _ m_size count = Unit

-- Within the critical section, until the destructor of its guard has run, interrupts are disabled
-- and the guard has what they were before any access; outside it they are so themselves.
abbrev pub Guarded {ℓ} : {A : Type ℓ} → Bool → MainAt A → Bool → Type 0
Guarded initially (locked guard) enabled = (enabled ≡ false) × (guard ≡ initially)
Guarded initially (loaded guard size) enabled = (enabled ≡ false) × (guard ≡ initially)
Guarded initially (stored guard) enabled = (enabled ≡ false) × (guard ≡ initially)
Guarded initially _ enabled = enabled ≡ initially

pub record Inv {ℓ} {A : Type ℓ} (digits capacity : ℕ) (initially : Bool) (s : System A)
    (values : List A) : Type ℓ where
  pub contents :
      Contains capacity s.buffer.m_read
        (write_at digits capacity s.main_at s.buffer.m_write)
        s.buffer.m_storage
        values
  pub sized : s.buffer.m_size + owed s.main_at ≡ length values
  pub knows : Knows capacity s.main_at s.buffer.m_size (length values)
  pub guarded : Guarded initially s.main_at s.interrupts_enabled
  pub history : map some s.pushed ≡ s.popped ++ map some values

pub Knows-pop {ℓ} :
    {A : Type ℓ} (capacity : ℕ) (initially : Bool) (at : MainAt A) (enabled : Bool)
    (m_size count n : ℕ)
    → enabled ≡ true
    → Guarded initially at enabled
    → Knows capacity at m_size (suc count)
    → Knows capacity at n count
Knows-pop capacity initially idle enabled m_size count n on g h = tt
Knows-pop capacity initially (checked value) enabled m_size count n on g h = omega arith
Knows-pop capacity initially placed enabled m_size count n on g h = tt
Knows-pop capacity initially advanced enabled m_size count n on g h = tt
Knows-pop capacity initially (locked guard) enabled m_size count n on g h = tt
Knows-pop capacity initially (loaded guard size) enabled m_size count n on g h =
    absurd (true≢false (sym on ∙ g.0))
Knows-pop capacity initially (stored guard) enabled m_size count n on g h = tt

abbrev pub system {ℓ} :
    {A : Type ℓ}
    → MainAt A
    → CircularBuffer A
    → Bool
    → List A
    → List (Option A)
    → Option GenericError
    → System A
system at b enabled pushed popped fault = record {
  buffer = b;
  interrupts_enabled = enabled;
  main_at = at;
  pushed = pushed;
  popped = popped;
  fault = fault;
}
