-- ===== src/StateMachine.antt =====
-- include/picolibrary/state_machine.h. A state is the address of its event handler, a number. The
-- handlers are the program's own functions, so they are a parameter: a handler takes an event and
-- the members of the machine's class, and ends by calling `event_handled` or `transition_to`.
-- `m_target_state` stands for the union with `m_initial_pseudostate`; `transition_to` stores its
-- target there, and the reaction carries it until the machine reads it.
pub mod Active
pub mod Progress
mod Tests
use picolibrary.Common.{ℕ, Bool, true, false, ◌==◌, Option, none, some, List, [], ◌∷◌}
use picolibrary.Expectation.{
  Checked, done, fatal, ◌>>=◌, logic_error, unexpected_event_handling_result,
}

pub data MachineEvent {κ} (E : Type κ) : Type κ where
  entry exit : MachineEvent E
  event : E → MachineEvent E

-- `Event_Handling_Result`, with the target of a triggered transition.
pub data HandlingResult : Type 0 where
  event_handled : HandlingResult
  state_transition_triggered : ℕ → HandlingResult

pub record StateMachine {ℓ} (S : Type ℓ) : Type ℓ where
  pub m_current_state : Option ℕ
  pub m_target_state : Option ℕ
  pub members : S

unfoldable pub accept {ℓ} : {S : Type ℓ} → S × HandlingResult → Checked S
accept (members, event_handled) = done members
accept (members, state_transition_triggered target) = fatal unexpected_event_handling_result

-- `m_current_state = m_target_state`.
abbrev pub settle_in {ℓ} : {S : Type ℓ} → ℕ → S → Checked (StateMachine S)
settle_in target members =
    done (record { m_current_state = some target; m_target_state = some target; members = members })

module _ {ℓ κ} {E : Type κ} {S : Type ℓ}
    (handlers : ℕ → MachineEvent E → S → S × HandlingResult) where
  unfoldable pub enter_state : ℕ → S → Checked S
  unfolding accept
  enter_state state members = accept (handlers state entry members)

  unfoldable pub exit_state : ℕ → S → Checked S
  unfolding accept
  exit_state state members = accept (handlers state exit members)

  -- The end of the initial transition.
  unfoldable pub begin_in : S × HandlingResult → Checked (StateMachine S)
  unfolding enter_state
  begin_in (members, event_handled) = fatal unexpected_event_handling_result
  begin_in (members, state_transition_triggered target) =
      enter_state target members >>= settle_in target

  execute_from : Option ℕ → Option ℕ → S → E → Checked (StateMachine S)
  unfolding begin_in
  execute_from none (some pseudostate) members e = begin_in (handlers pseudostate (event e) members)
  execute_from none none members e = fatal logic_error
  execute_from (some current) pseudostate members e = fatal logic_error

  unfoldable pub execute_initial_transition : StateMachine S → E → Checked (StateMachine S)
  unfolding execute_from
  execute_initial_transition machine e =
      execute_from machine.m_current_state machine.m_target_state machine.members e

  -- The switch of `dispatch`, for a current state.
  unfoldable pub conclude : ℕ → Option ℕ → S × HandlingResult → Checked (StateMachine S)
  unfolding enter_state exit_state
  conclude current target (members, event_handled) =
      done (record { m_current_state = some current; m_target_state = target; members = members })
  conclude current target (members, state_transition_triggered next) =
      exit_state current members >>= λ exited. enter_state next exited >>= settle_in next

  dispatch_from : Option ℕ → Option ℕ → S → E → Checked (StateMachine S)
  unfolding conclude
  dispatch_from none target members e = fatal logic_error
  dispatch_from (some current) target members e =
      conclude current target (handlers current (event e) members)

  unfoldable pub dispatch : StateMachine S → E → Checked (StateMachine S)
  unfolding dispatch_from
  dispatch machine e =
      dispatch_from machine.m_current_state machine.m_target_state machine.members e

-- `is_in` of a state machine.
unfoldable pub is_current {ℓ} : {S : Type ℓ} → StateMachine S → ℕ → Bool
is_current machine state = elim machine.m_current_state [ none ↦ false | some s ↦ s == state ]
