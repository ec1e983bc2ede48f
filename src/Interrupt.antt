-- ===== src/Interrupt.antt =====
-- include/picolibrary/interrupt.h: the critical section guards. A controller is a type that the
-- program supplies; of its state a guard uses whether interrupts are enabled, which is what
-- `Interrupt_Enable_State` saves. A guard's constructor and destructor act on that state.
use picolibrary.Common.{Bool, true, false}

-- `save_interrupt_enable_state` and `disable_interrupt`: the guard's member and the new state.
abbrev pub enter_critical_section : Bool → Bool × Bool
enter_critical_section enabled = (enabled, false)

-- The destructor of the guard for `RESTORE_INTERRUPT_ENABLE_STATE`.
abbrev pub restore_on_exit : Bool → Bool
restore_on_exit m_interrupt_enable_state = m_interrupt_enable_state

-- The destructor of the guard for `ENABLE_INTERRUPT`.
abbrev pub enable_on_exit : Bool → Bool
enable_on_exit m_interrupt_enable_state = true
