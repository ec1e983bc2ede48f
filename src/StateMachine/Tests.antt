-- ===== src/StateMachine/Tests.antt =====
-- A machine of two states, 1 and 2, that changes its state at every event `true`; 0 is its initial
-- pseudostate.
use picolibrary.Common.{
  ℕ, zero, suc, ◌+◌, ◌*◌, Bool, true, false, ◌≡◌, refl, none, some, List, [], ◌∷◌,
}
use picolibrary.Expectation.{done, ◌>>=◌}
use picolibrary.StateMachine.{
  MachineEvent, entry, exit, event, HandlingResult, event_handled, state_transition_triggered,
  StateMachine, execute_initial_transition,
}
use picolibrary.StateMachine.Progress.{walk, dispatch_all-eq-walk}
use picolibrary.StateMachine.Active.{
  Notice, Ends, IsConsistent, logged, dispatch_all, dispatch_all-IsConsistent,
}

abbrev handlers : ℕ → MachineEvent Bool → Unit {0} → Unit {0} × HandlingResult
handlers zero e members = (members, state_transition_triggered 1)
handlers (suc n) entry members = (members, event_handled)
handlers (suc n) exit members = (members, event_handled)
handlers (suc zero) (event true) members = (members, state_transition_triggered 2)
handlers (suc (suc n)) (event true) members = (members, state_transition_triggered 1)
handlers (suc n) (event false) members = (members, event_handled)

dispatch_all-IsConsistent_example : Ends (IsConsistent handlers) (
    execute_initial_transition
      (logged handlers)
      (record { m_current_state = none; m_target_state = some 0; members = ([], tt) })
      true
    >>= λ machine. dispatch_all handlers (true ∷ false ∷ true ∷ []) machine)
dispatch_all-IsConsistent_example =
    dispatch_all-IsConsistent handlers (some 0) tt true (true ∷ false ∷ true ∷ [])

-- States that every event `true` leaves for the next one, the initial pseudostate 0 too; the members
-- count the entries, doubled at each exit.
abbrev next_handlers : ℕ → MachineEvent Bool → ℕ → ℕ × HandlingResult
next_handlers n entry members = (members + 1, event_handled)
next_handlers n exit members = (members * 2, event_handled)
next_handlers n (event true) members = (members, state_transition_triggered (suc n))
next_handlers n (event false) members = (members, event_handled)

walk_seen : walk next_handlers (true ∷ false ∷ true ∷ []) 1 1 ≡ (3, 7)
unfolding walk
walk_seen = refl

dispatch_all-eq-walk_example :
    (machine : StateMachine (List Notice × ℕ)) × (execute_initial_transition
          (logged next_handlers)
          (record { m_current_state = none; m_target_state = some 0; members = ([], 0) })
          true
        >>= (λ begun. dispatch_all next_handlers (true ∷ false ∷ true ∷ []) begun)
      ≡ done machine)
    × IsConsistent next_handlers machine
    × (machine.m_current_state ≡ some (walk next_handlers (true ∷ false ∷ true ∷ []) 1 1).0)
    × (machine.members.1 ≡ (walk next_handlers (true ∷ false ∷ true ∷ []) 1 1).1)
dispatch_all-eq-walk_example =
    dispatch_all-eq-walk next_handlers (λ state members. refl) (λ state members. refl) 0 1 0 0 true
      (true ∷ false ∷ true ∷ []) refl
