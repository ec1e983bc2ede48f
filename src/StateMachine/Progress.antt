-- ===== src/StateMachine/Progress.antt =====
-- Machines whose handlers handle every entry and exit event, against a walk of the handlers.
use mathlib.Core.Bool.{true≢false}
use picolibrary.Common.{
  ℕ, ◌≡◌, refl, sym, ap, subst, ◌∙◌, Bool, true, false, Option, none, some, List, [], ◌∷◌,
}
use picolibrary.Expectation.{done, ◌>>=◌}
use picolibrary.StateMachine.{
  MachineEvent, entry, exit, event, HandlingResult, event_handled, state_transition_triggered,
  StateMachine, accept, enter_state, exit_state, begin_in, conclude, execute_from,
  execute_initial_transition, dispatch_from, dispatch,
}
use picolibrary.StateMachine.Active.{
  Notice, Ends, IsConsistent, logged, dispatch_all, dispatch_all-IsConsistent,
}

is_handled : HandlingResult → Bool
is_handled event_handled = true
is_handled (state_transition_triggered target) = false

accept_done {ℓ} :
    {S : Type ℓ} (answer : S × HandlingResult)
    → answer.1 ≡ event_handled
    → accept answer ≡ done answer.0
unfolding accept is_handled
accept_done (members, event_handled) h = refl
accept_done (members, state_transition_triggered target) h =
    absurd (true≢false (sym (ap is_handled h)))

module _ {ℓ κ} {E : Type κ} {S : Type ℓ}
    (handlers : ℕ → MachineEvent E → S → S × HandlingResult) where
  -- The state and the members after an answer of the state's handler to an event.
  after : ℕ → S × HandlingResult → ℕ × S
  after state (members, event_handled) = (state, members)
  after state (members, state_transition_triggered next) =
      (next, (handlers next entry (handlers state exit members).0).0)

  -- The same after a sequence of events. A walk has no machine and cannot fail.
  unfoldable pub walk : List E → ℕ → S → ℕ × S
  unfolding after
  walk [] state members = (state, members)
  walk (e ∷ events) state members =
      let (next, rest) = after state (handlers state (event e) members) in walk events next rest

  module _ (on_entry : (state : ℕ) (members : S) → (handlers state entry members).1 ≡ event_handled)
      (on_exit : (state : ℕ) (members : S) → (handlers state exit members).1 ≡ event_handled) where
    entered_done :
        (state : ℕ) (log : List Notice) (members : S)
        → (seen : List Notice) × (enter_state (logged handlers) state (log, members)
            ≡ done (seen, (handlers state entry members).0))
    unfolding enter_state logged
    entered_done state log members =
        (_, accept_done (logged handlers state entry (log, members)) (on_entry state members))

    exited_done :
        (state : ℕ) (log : List Notice) (members : S)
        → (seen : List Notice) × (exit_state (logged handlers) state (log, members)
            ≡ done (seen, (handlers state exit members).0))
    unfolding exit_state logged
    exited_done state log members =
        (_, accept_done (logged handlers state exit (log, members)) (on_exit state members))

    conclude_done :
        (current : ℕ) (target : Option ℕ) (log : List Notice) (answer : S × HandlingResult)
        → (settled : Option ℕ) × ((seen : List Notice) × (conclude
                (logged handlers)
                current
                target
                ((log, answer.0), answer.1)
              ≡ done (record {
                m_current_state = some (after current answer).0;
                m_target_state = settled;
                members = (seen, (after current answer).1);
              })))
    unfolding conclude after
    conclude_done current target log (members, event_handled) = (_, (_, refl))
    conclude_done current target log (members, state_transition_triggered next) =
        let rest = (handlers current exit members).0 in
        let (left, exits) = exited_done current log members in
        let (seen, enters) = entered_done next left rest in
        (some next, (seen, rw (exits, enters) refl))

    dispatch_all_lem :
        (events : List E) (current : ℕ) (target : Option ℕ) (log : List Notice) (members : S)
        → (settled : Option ℕ) × ((seen : List Notice) × (dispatch_all handlers events (record {
          m_current_state = some current;
          m_target_state = target;
          members = (log, members);
        })
              ≡ done (record {
                m_current_state = some (walk events current members).0;
                m_target_state = settled;
                members = (seen, (walk events current members).1);
              })))
    unfolding dispatch_all walk dispatch dispatch_from logged
    dispatch_all_lem [] current target log members = (target, (log, refl))
    dispatch_all_lem (e ∷ events) current target log members =
        let answer = handlers current (event e) members in
        let (t, (l, first)) = conclude_done current target log answer in
        let (settled, (seen, rest)) =
          dispatch_all_lem events (after current answer).0 t l (after current answer).1 in
        (settled, (seen, ap (λ c. c >>= λ next. dispatch_all handlers events next) first ∙ rest))

    initial_done :
        (pseudostate first : ℕ) (members started : S) (initial : E)
        → handlers pseudostate (event initial) members ≡ (started, state_transition_triggered first)
        → (seen : List Notice) × (execute_initial_transition
              (logged handlers)
              (record {
                m_current_state = none;
                m_target_state = some pseudostate;
                members = ([], members);
              })
              initial
            ≡ done (record {
              m_current_state = some first;
              m_target_state = some first;
              members = (seen, (handlers first entry started).0);
            }))
    unfolding execute_initial_transition execute_from begin_in logged
    initial_done pseudostate first members started initial h =
        let (seen, enters) = entered_done first [] started in
        (
          seen,
          ap (λ (a : S × HandlingResult). begin_in (logged handlers) (([], a.0), a.1)) h
              ∙ rw enters refl,
        )

    -- For handlers that handle every entry and exit event, and an initial pseudostate whose
    -- handler answers the initial event by a transition, the initial transition of a new machine
    -- and the dispatch of any sequence of events after it end without a fatal error. The machine
    -- is then in the state and with the members that a walk of the handlers yields, which stays
    -- where an event is handled, and where it triggers a transition runs the exit of the state and
    -- then the entry of the next; and the log of entry and exit events shows exactly the current
    -- state active.
    pub dispatch_all-eq-walk :
        (pseudostate first : ℕ) (members started : S) (initial : E) (events : List E)
        → handlers pseudostate (event initial) members ≡ (started, state_transition_triggered first)
        → (machine : StateMachine (List Notice × S)) × (execute_initial_transition
                (logged handlers)
                (record {
                  m_current_state = none;
                  m_target_state = some pseudostate;
                  members = ([], members);
                })
                initial
              >>= (λ begun. dispatch_all handlers events begun)
            ≡ done machine)
          × IsConsistent handlers machine
          × (machine.m_current_state ≡ some (walk events first (handlers first entry started).0).0)
          × (machine.members.1 ≡ (walk events first (handlers first entry started).0).1)
    dispatch_all-eq-walk pseudostate first members started initial events h =
        let (log, begins) = initial_done pseudostate first members started initial h in
        let (settled, (seen, runs)) =
          dispatch_all_lem events first (some first) log (handlers first entry started).0 in
        let ends = ap (λ c. c >>= λ begun. dispatch_all handlers events begun) begins ∙ runs in
        (
          _,
          ends,
          subst (Ends (IsConsistent handlers)) ends
              (dispatch_all-IsConsistent handlers (some pseudostate) members initial events),
          refl,
          refl,
        )
