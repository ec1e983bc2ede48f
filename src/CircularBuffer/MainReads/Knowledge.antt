-- ===== src/CircularBuffer/MainReads/Knowledge.antt =====
-- What holds of the buffer and of interrupts, by where the main thread stands.
use mathlib.Core.Bool.{true≢false}
use picolibrary.Common.{
  ℕ, ◌+◌, ◌≤◌, ◌<◌, ◌≡◌, sym, ◌∙◌, Bool, true, false, Option, some, List, ◌++◌, map, length, arith,
}
use picolibrary.Expectation.{GenericError}
use picolibrary.CircularBuffer.{CircularBuffer, advance}
use picolibrary.CircularBuffer.View.{Contains}
use picolibrary.CircularBuffer.MainReads.{
  MainAt, idle, checked, destroyed, advanced, locked, loaded, stored, System,
}

-- The values that are out of the buffer, but that `m_size` still counts.
abbrev pub owed : MainAt → ℕ
owed idle = 0
owed checked = 0
owed destroyed = 1
owed advanced = 1
owed (locked guard) = 1
owed (loaded guard size) = 1
owed (stored guard) = 0

abbrev pub read_at : ℕ → ℕ → MainAt → ℕ → ℕ
read_at digits capacity destroyed m_read = advance digits capacity m_read
read_at digits capacity _ m_read = m_read

-- What the main thread knows where it stands.
abbrev pub Knows : MainAt → ℕ → ℕ → Type 0
Knows checked m_size count = 0 < count
Knows (loaded guard size) m_size count = size ≡ m_size
Knows _ m_size count = Unit

-- Within the critical section, until the destructor of its guard has run, interrupts are disabled
-- and the guard has what they were before any access; outside it they are so themselves.
abbrev pub Guarded : Bool → MainAt → Bool → Type 0
Guarded initially (locked guard) enabled = (enabled ≡ false) × (guard ≡ initially)
Guarded initially (loaded guard size) enabled = (enabled ≡ false) × (guard ≡ initially)
Guarded initially (stored guard) enabled = (enabled ≡ false) × (guard ≡ initially)
Guarded initially _ enabled = enabled ≡ initially

pub record Inv {ℓ} {A : Type ℓ} (digits capacity : ℕ) (initially : Bool) (s : System A)
    (values : List A) : Type ℓ where
  pub contents :
      Contains capacity
        (read_at digits capacity s.main_at s.buffer.m_read)
        s.buffer.m_write
        s.buffer.m_storage
        values
  pub sized : s.buffer.m_size ≡ length values + owed s.main_at
  pub size_in : s.buffer.m_size ≤ capacity
  pub knows : Knows s.main_at s.buffer.m_size (length values)
  pub guarded : Guarded initially s.main_at s.interrupts_enabled
  pub history : map some s.pushed ≡ s.popped ++ map some values

pub Knows-push :
    (initially : Bool) (at : MainAt) (enabled : Bool) (m_size count n m : ℕ)
    → enabled ≡ true
    → m ≡ count + 1
    → Guarded initially at enabled
    → Knows at m_size count
    → Knows at n m
Knows-push initially idle enabled m_size count n m on e g h = tt
Knows-push initially checked enabled m_size count n m on e g h = omega arith
Knows-push initially destroyed enabled m_size count n m on e g h = tt
Knows-push initially advanced enabled m_size count n m on e g h = tt
Knows-push initially (locked guard) enabled m_size count n m on e g h = tt
Knows-push initially (loaded guard size) enabled m_size count n m on e g h =
    absurd (true≢false (sym on ∙ g.0))
Knows-push initially (stored guard) enabled m_size count n m on e g h = tt

abbrev pub system {ℓ} :
    {A : Type ℓ}
    → MainAt
    → CircularBuffer A
    → Bool
    → List A
    → List (Option A)
    → Option GenericError
    → System A
system at b enabled pushed popped fault = record {
  buffer = b;
  interrupts_enabled = enabled;
  main_at = at;
  pushed = pushed;
  popped = popped;
  fault = fault;
}
