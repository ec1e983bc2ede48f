-- ===== src/StateMachine/Active.antt =====
-- Entry and exit events against the current state.
use picolibrary.Common.{
  ℕ, ◌≡◌, refl, ap, ◌∙◌, true, false, ◌==◌, Option, none, some, List, [], ◌∷◌, arith,
}
use picolibrary.Expectation.{Checked, done, fatal, ◌>>=◌}
use picolibrary.StateMachine.{
  MachineEvent, entry, exit, event, HandlingResult, event_handled, state_transition_triggered,
  StateMachine, accept, settle_in, enter_state, exit_state, begin_in, execute_from,
  execute_initial_transition, conclude, dispatch_from, dispatch,
}

-- What a state has been told.
pub data Notice : Type 0 where
  entered exited : ℕ → Notice

noted {κ} : {E : Type κ} → ℕ → MachineEvent E → List Notice → List Notice
noted state entry log = entered state ∷ log
noted state exit log = exited state ∷ log
noted state (event e) log = log

-- The handlers, with a log of the entry and exit events, the newest first.
unfoldable pub logged {ℓ κ} :
    {E : Type κ} {S : Type ℓ}
    → (ℕ → MachineEvent E → S → S × HandlingResult)
    → ℕ
    → MachineEvent E
    → List Notice × S
    → (List Notice × S) × HandlingResult
unfolding noted
logged handlers state e (log, members) =
    let (next, result) = handlers state e members in ((noted state e log, next), result)

after_entry : ℕ → Option (Option ℕ) → Option (Option ℕ)
after_entry state none = none
after_entry state (some none) = some (some state)
after_entry state (some (some other)) = none

after_exit : ℕ → Option (Option ℕ) → Option (Option ℕ)
after_exit state none = none
after_exit state (some none) = none
after_exit state (some (some other)) = elim (state == other) [ true ↦ some none | false ↦ none ]

-- The state that has been entered and not exited, if any. `none`: a state was entered while one
-- was active, or one was exited that was not active.
unfoldable pub active : List Notice → Option (Option ℕ)
unfolding after_entry after_exit
active [] = some none
active (entered state ∷ log) = after_entry state (active log)
active (exited state ∷ log) = after_exit state (active log)

-- A computation ends in a fatal error, or with a value that satisfies `P`.
abbrev pub Ends {ℓ ν} : {A : Type ℓ} → (A → Type ν) → Checked A → Type ν
Ends P (done a) = P a
Ends P (fatal e) = Unit {ν}

Ends-bind {ℓ ν ξ π} :
    {A : Type ℓ} {B : Type ν} (Q : A → Type ξ) (P : B → Type π) (m : Checked A) (f : A → Checked B)
    → Ends Q m
    → ((a : A) → Q a → Ends P (f a))
    → Ends P (m >>= f)
Ends-bind Q P (done a) f q h = h a q
Ends-bind Q P (fatal e) f q h = tt

accept-Ends {ℓ ν} :
    {S : Type ℓ} (Q : S → Type ν) (answer : S × HandlingResult)
    → Q answer.0
    → Ends Q (accept answer)
unfolding accept
accept-Ends Q (members, event_handled) q = q
accept-Ends Q (members, state_transition_triggered target) q = tt

after_exit_self : (state : ℕ) → after_exit state (some (some state)) ≡ some none
unfolding after_exit
after_exit_self state =
    let same : (state == state) ≡ true = ground arith in rw (same, after_exit) refl

module _ {ℓ κ} {E : Type κ} {S : Type ℓ}
    (handlers : ℕ → MachineEvent E → S → S × HandlingResult) where
  -- The log shows the current state entered and not exited, and no other.
  abbrev pub IsConsistent : StateMachine (List Notice × S) → Type 0
  IsConsistent machine = active machine.members.0 ≡ some machine.m_current_state

  enter-Ends :
      (state : ℕ) (log : List Notice) (members : S)
      → active log ≡ some none
      → Ends
          (λ x. active x.0 ≡ some (some state))
          (enter_state (logged handlers) state (log, members))
  unfolding enter_state logged noted active after_entry
  enter-Ends state log members h =
      accept-Ends (λ x. active x.0 ≡ some (some state)) (logged handlers state entry (log, members))
        (ap (after_entry state) h)

  exit-Ends :
      (state : ℕ) (log : List Notice) (members : S)
      → active log ≡ some (some state)
      → Ends (λ x. active x.0 ≡ some none) (exit_state (logged handlers) state (log, members))
  unfolding exit_state logged noted active
  exit-Ends state log members h =
      accept-Ends (λ x. active x.0 ≡ some none) (logged handlers state exit (log, members))
        (ap (after_exit state) h ∙ after_exit_self state)

  enter-IsConsistent :
      (state : ℕ) (log : List Notice) (members : S)
      → active log ≡ some none
      → Ends IsConsistent (enter_state (logged handlers) state (log, members) >>= settle_in state)
  enter-IsConsistent state log members h =
      Ends-bind (λ (x : List Notice × S). active x.0 ≡ some (some state)) IsConsistent
        (enter_state (logged handlers) state (log, members)) (settle_in state)
        (enter-Ends state log members h) (λ a q. q)

  begin-Ends :
      (answer : (List Notice × S) × HandlingResult)
      → active answer.0.0 ≡ some none
      → Ends IsConsistent (begin_in (logged handlers) answer)
  unfolding begin_in
  begin-Ends ((log, members), event_handled) h = tt
  begin-Ends ((log, members), state_transition_triggered target) h =
      enter-IsConsistent target log members h

  conclude-Ends :
      (current : ℕ) (target : Option ℕ) (answer : (List Notice × S) × HandlingResult)
      → active answer.0.0 ≡ some (some current)
      → Ends IsConsistent (conclude (logged handlers) current target answer)
  unfolding conclude
  conclude-Ends current target ((log, members), event_handled) h = h
  conclude-Ends current target ((log, members), state_transition_triggered next) h =
      Ends-bind (λ (x : List Notice × S). active x.0 ≡ some none) IsConsistent
        (exit_state (logged handlers) current (log, members))
        (λ exited. enter_state (logged handlers) next exited >>= settle_in next)
        (exit-Ends current log members h) (λ (seen, rest) q. enter-IsConsistent next seen rest q)

  pub execute_initial_transition-IsConsistent :
      (current target : Option ℕ) (log : List Notice) (members : S) (e : E)
      → active log ≡ some current
      → Ends IsConsistent (
          execute_initial_transition
            (logged handlers)
            (record {
              m_current_state = current;
              m_target_state = target;
              members = (log, members);
            })
            e)
  unfolding execute_initial_transition execute_from logged noted
  execute_initial_transition-IsConsistent none none log members e h = tt
  execute_initial_transition-IsConsistent none (some pseudostate) log members e h =
      begin-Ends (logged handlers pseudostate (event e) (log, members)) h
  execute_initial_transition-IsConsistent (some current) target log members e h = tt

  pub dispatch-IsConsistent :
      (current target : Option ℕ) (log : List Notice) (members : S) (e : E)
      → active log ≡ some current
      → Ends IsConsistent (
          dispatch
            (logged handlers)
            (record {
              m_current_state = current;
              m_target_state = target;
              members = (log, members);
            })
            e)
  unfolding dispatch dispatch_from logged noted
  dispatch-IsConsistent none target log members e h = tt
  dispatch-IsConsistent (some current) target log members e h =
      conclude-Ends current target (logged handlers current (event e) (log, members)) h

  -- A machine that is dispatched a sequence of events.
  unfoldable pub dispatch_all :
      List E → StateMachine (List Notice × S) → Checked (StateMachine (List Notice × S))
  dispatch_all [] machine = done machine
  dispatch_all (e ∷ events) machine =
      dispatch (logged handlers) machine e >>= λ next. dispatch_all events next

  dispatch_all-Ends :
      (events : List E) (machine : StateMachine (List Notice × S))
      → IsConsistent machine
      → Ends IsConsistent (dispatch_all events machine)
  unfolding dispatch_all
  dispatch_all-Ends [] machine h = h
  dispatch_all-Ends (e ∷ events) machine h =
      Ends-bind IsConsistent IsConsistent (dispatch (logged handlers) machine e)
        (λ next. dispatch_all events next)
        (dispatch-IsConsistent machine.m_current_state machine.m_target_state machine.members.0
          machine.members.1 e h)
        (λ next q. dispatch_all-Ends events next q)

  -- For any handlers, initial pseudostate, members and events, the initial transition of a new
  -- machine and the dispatches after it end in a fatal error or with a machine whose log of entry
  -- and exit events shows exactly the current state active: every state was entered while none was
  -- active, and exited while it was.
  pub dispatch_all-IsConsistent :
      (pseudostate : Option ℕ) (members : S) (initial : E) (events : List E)
      → Ends IsConsistent (
          execute_initial_transition
            (logged handlers)
            (record {
              m_current_state = none;
              m_target_state = pseudostate;
              members = ([], members);
            })
            initial
          >>= λ machine. dispatch_all events machine)
  dispatch_all-IsConsistent pseudostate members initial events =
      Ends-bind IsConsistent IsConsistent
        (execute_initial_transition (logged handlers)
          (record { m_current_state = none; m_target_state = pseudostate; members = ([], members) })
          initial)
        (λ machine. dispatch_all events machine)
        (execute_initial_transition-IsConsistent none pseudostate [] members initial
          (unfold active in refl))
        (λ machine q. dispatch_all-Ends events machine q)
