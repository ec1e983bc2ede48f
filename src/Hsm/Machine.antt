-- ===== src/Hsm/Machine.antt =====
-- A machine from its topmost initial transition on, against the state hierarchy.
mod Tests
use picolibrary.Common.{
  ℕ, ◌+◌, ◌*◌, ◌≤◌, ◌<◌, ◌≡◌, ◌⊎◌, inl, inr, refl, sym, ap, ◌∙◌, none, some, List, [], ◌∷◌, length,
  arith,
}
use picolibrary.Hsm.{
  State, top, state, HsmEvent, entry, exit, nested_initial_transition, event, Reaction,
  event_handled, state_transition_triggered, event_handling_deferred_to_superstate, event_ignored,
  max_state_depth, respond,
}
use picolibrary.Hsm.Active.{Accepts, Notice, logged, active}
use picolibrary.Hsm.Dispatch.{
  Starts, Answers, Begins, Settled, Deferrals, Rounds, length-supers, supers-top, covers_self,
  transition_loop-Ends, dispatch_loop-Ends,
}
use picolibrary.Hsm.Parts.{Hierarchy, Acts, Proper, Shows}
use picolibrary.Hsm.Run.{
  Run, returns, fails, out_of_fuel, undefined, ◌>>=◌, Ends, Ends-bind, Ends-returns,
}
use picolibrary.Hsm.Transition.{
  dispatch, dispatch_all, topmost_transition, execute_topmost_initial_transition,
}

module _ {ℓ κ} {E : Type κ} {S : Type ℓ} (handlers : ℕ → HsmEvent E → S → S × Reaction)
    (parent : ℕ → State) (supers : State → List State) (H : Hierarchy handlers parent supers)
    (W : Type 0) (acts : Acts W handlers)
    (starts : (n : ℕ) (members : S)
      → Starts W supers n (handlers n nested_initial_transition members).1)
    (answers : (n : ℕ) (e : E) (members : S) → Answers W parent n (handlers n (event e) members).1)
    (fuel : ℕ) (enough : (2 * max_state_depth + 1 < fuel) ⊎ W) where
  dispatch_fuel :
      (s : State)
      → (2 * max_state_depth + 1 < fuel) ⊎ W
      → Deferrals handlers parent supers H W acts starts answers fuel s
  dispatch_fuel s (inl h) =
      let short = length-supers handlers parent supers H W acts starts s in inl (omega arith)
  dispatch_fuel s (inr w) = inr w

  transition_fuel :
      (s : State)
      → (2 * max_state_depth + 1 < fuel) ⊎ W
      → Rounds handlers parent supers H W acts starts fuel s
  transition_fuel s (inl h) = inl (omega arith)
  transition_fuel s (inr w) = inr w

  dispatch_all-Ends :
      (events : List E) (machine : State × (List Notice × S))
      → Settled handlers parent supers H W acts starts machine
      → Ends W
          (Settled handlers parent supers H W acts starts)
          (dispatch_all (logged handlers) fuel events machine)
  unfolding dispatch_all dispatch
  dispatch_all-Ends [] (current, seen) shown = shown
  dispatch_all-Ends (e ∷ events) (current, seen) shown =
      Ends-bind W (Settled handlers parent supers H W acts starts)
        (Settled handlers parent supers H W acts starts)
        (dispatch (logged handlers) fuel (some current) e seen)
        (dispatch_all (logged handlers) fuel events)
        (dispatch_loop-Ends handlers parent supers H W acts starts answers fuel current current e
          seen (dispatch_fuel current enough)
          (covers_self handlers parent supers H W acts starts current) shown)
        (λ machine q. dispatch_all-Ends events machine q)

  begin-Ends :
      (answer : (List Notice × S) × Reaction)
      → Begins W answer.1
      → active parent answer.0.0 ≡ some []
      → Ends W
          (Settled handlers parent supers H W acts starts)
          (topmost_transition (logged handlers) fuel answer)
  unfolding topmost_transition
  begin-Ends (seen, event_handled) begins none_active = begins
  begin-Ends (seen, event_ignored) begins none_active = begins
  begin-Ends (seen, event_handling_deferred_to_superstate s) begins none_active = begins
  begin-Ends (seen, state_transition_triggered target) begins none_active =
      transition_loop-Ends handlers parent supers H W acts starts fuel top top target seen begins
        (transition_fuel target enough) (covers_self handlers parent supers H W acts starts top)
        (none_active ∙ ap some (sym (supers-top handlers parent supers H W acts starts)))

  run-Ends :
      (pseudostate : ℕ) (initial : E) (events : List E) (members : S)
      → Begins W (handlers pseudostate (event initial) members).1
      → Ends W (Settled handlers parent supers H W acts starts) (
          execute_topmost_initial_transition
            (logged handlers)
            fuel
            none
            (some (state pseudostate))
            initial
            ([], members)
          >>= dispatch_all (logged handlers) fuel events)
  unfolding execute_topmost_initial_transition respond logged active
  run-Ends pseudostate initial events members begins =
      Ends-bind W (Settled handlers parent supers H W acts starts)
        (Settled handlers parent supers H W acts starts)
        (topmost_transition (logged handlers) fuel
          (logged handlers pseudostate (event initial) ([], members)))
        (dispatch_all (logged handlers) fuel events)
        (begin-Ends (logged handlers pseudostate (event initial) ([], members)) begins refl)
        (dispatch_all-Ends events)

Accepts-Unit : (r : Reaction) → Accepts Unit r
Accepts-Unit event_handled = tt
Accepts-Unit (state_transition_triggered target) = tt
Accepts-Unit (event_handling_deferred_to_superstate superstate) = tt
Accepts-Unit event_ignored = tt

Starts-Unit : (supers : State → List State) (n : ℕ) (r : Reaction) → Starts Unit supers n r
Starts-Unit supers n event_handled = tt
Starts-Unit supers n (state_transition_triggered top) = tt
Starts-Unit supers n (state_transition_triggered (state k)) = inr tt
Starts-Unit supers n (event_handling_deferred_to_superstate superstate) = tt
Starts-Unit supers n event_ignored = tt

Proper-Unit : (s : State) → Proper Unit s
Proper-Unit top = tt
Proper-Unit (state n) = tt

Begins-Unit : (r : Reaction) → Begins Unit r
Begins-Unit event_handled = tt
Begins-Unit (state_transition_triggered target) = Proper-Unit target
Begins-Unit (event_handling_deferred_to_superstate superstate) = tt
Begins-Unit event_ignored = tt

Answers-Unit :
    (parent : ℕ → State) (n : ℕ) (r : Reaction)
    → ((superstate : State)
        → r ≡ event_handling_deferred_to_superstate superstate
        → superstate ≡ parent n)
    → Answers Unit parent n r
Answers-Unit parent n event_handled h = tt
Answers-Unit parent n (state_transition_triggered target) h = Proper-Unit target
Answers-Unit parent n (event_handling_deferred_to_superstate superstate) h = h superstate refl
Answers-Unit parent n event_ignored h = tt

module _ {ℓ κ} {E : Type κ} {S : Type ℓ} (handlers : ℕ → HsmEvent E → S → S × Reaction)
    (parent : ℕ → State) (supers : State → List State) (H : Hierarchy handlers parent supers) where
  -- For handlers that defer the discovery event to their superstate and change nothing by it, that
  -- defer other events only to their superstate, and of which none is deeper than eight states:
  -- the topmost initial transition and the dispatches after it, of any events, reach no undefined
  -- behaviour, and where they return, the log of entry and exit events shows exactly the current
  -- state and its superstates active: every state was entered when its superstate was the
  -- innermost active one, and exited when it was itself the innermost.
  pub dispatch_all-Ends_settled :
      (defers : (n : ℕ) (e : E) (members : S) (superstate : State)
        → (handlers n (event e) members).1 ≡ event_handling_deferred_to_superstate superstate
        → superstate ≡ parent n)
      (fuel pseudostate : ℕ) (initial : E) (events : List E) (members : S)
      → Ends Unit
          (λ (current, (log, next)). active parent log ≡ some (supers current))
          (execute_topmost_initial_transition
              (logged handlers)
              fuel
              none
              (some (state pseudostate))
              initial
              ([], members)
            >>= dispatch_all (logged handlers) fuel events)
  dispatch_all-Ends_settled defers fuel pseudostate initial events members =
      run-Ends handlers parent supers H Unit
        (record {
          enters = λ n found. Accepts-Unit (handlers n entry found).1;
          exits = λ n found. Accepts-Unit (handlers n exit found).1;
        })
        (λ n found. Starts-Unit supers n (handlers n nested_initial_transition found).1)
        (λ n e found.
          Answers-Unit parent n (handlers n (event e) found).1 (λ s. defers n e found s))
        fuel (inr tt) pseudostate initial events members
        (Begins-Unit (handlers pseudostate (event initial) members).1)

  -- If, further, the handlers handle or defer the entry and exit events, nested initial
  -- transitions lead to deeper states or are deferred, no transition has `top` for its target, the
  -- initial pseudostate triggers one, and the loops have more than 17 rounds, then the topmost
  -- initial transition and the dispatches after it return, with exactly the current state and its
  -- superstates active.
  pub dispatch_all_returns :
      (acts : Acts ⊥ handlers)
      (starts : (n : ℕ) (members : S)
        → Starts ⊥ supers n (handlers n nested_initial_transition members).1)
      (answers : (n : ℕ) (e : E) (members : S)
        → Answers ⊥ parent n (handlers n (event e) members).1)
      (fuel pseudostate : ℕ) (initial : E) (events : List E) (members : S)
      → 2 * max_state_depth + 1 < fuel
      → Begins ⊥ (handlers pseudostate (event initial) members).1
      → (machine : State × (List Notice × S)) × ((execute_topmost_initial_transition
                (logged handlers)
                fuel
                none
                (some (state pseudostate))
                initial
                ([], members)
              >>= dispatch_all (logged handlers) fuel events
            ≡ returns machine)
          × (active parent machine.1.0 ≡ some (supers machine.0)))
  dispatch_all_returns acts starts answers fuel pseudostate initial events members enough begins =
      Ends-returns (Settled handlers parent supers H ⊥ acts starts)
        (execute_topmost_initial_transition (logged handlers) fuel none (some (state pseudostate))
            initial ([], members)
          >>= dispatch_all (logged handlers) fuel events)
        (run-Ends handlers parent supers H ⊥ acts starts answers fuel (inl enough) pseudostate
          initial events members begins)
