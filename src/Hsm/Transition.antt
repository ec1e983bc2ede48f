-- ===== src/Hsm/Transition.antt =====
-- include/picolibrary/hsm.h: the entry and exit of paths, state transitions, event dispatch and the
-- topmost initial transition.
use mathlib.Core.List.{reverse}
use picolibrary.Common.{
  ℕ, zero, suc, Bool, true, false, not, ◌&&◌, Option, none, some, List, [], ◌∷◌, if◌then◌else◌,
}
use picolibrary.Expectation.{unexpected_event_handling_result, logic_error}
use picolibrary.Hsm.{
  State, top, same_state, HsmEvent, entry, exit, nested_initial_transition, event, Reaction,
  event_handled, state_transition_triggered, event_handling_deferred_to_superstate, event_ignored,
  StatePath, respond, discover,
}
use picolibrary.Hsm.Run.{Run, returns, fails, out_of_fuel, undefined, ◌>>=◌, searched}

-- The switch of `enter` and `exit` of a state.
unfoldable pub accept_action {ℓ} : {S : Type ℓ} → S × Reaction → Run S
accept_action (members, event_handled) = returns members
accept_action (members, event_handling_deferred_to_superstate superstate) = returns members
accept_action (members, state_transition_triggered target) = fails unexpected_event_handling_result
accept_action (members, event_ignored) = fails unexpected_event_handling_result

-- The loop of `remove_common_superstates` over the two paths from their ends. `back()` of an empty
-- path is undefined.
unfoldable pub remove_common_loop : List State → List State → Run (List State × List State)
remove_common_loop [] second = undefined
remove_common_loop (x ∷ first) [] = undefined
remove_common_loop (x ∷ first) (y ∷ second) =
    let rest = remove_common_loop first second in
    if same_state x y then rest else returns (x ∷ first, y ∷ second)

unfoldable pub remove_common_superstates : List State → List State → Run (List State × List State)
unfolding remove_common_loop
remove_common_superstates first second =
    remove_common_loop (reverse first) (reverse second) >>= λ (xs, ys).
    returns (reverse xs, reverse ys)

-- `Path{}`.
abbrev pub empty_path : StatePath
empty_path = record { m_storage = []; m_is_complete = false }

module _ {ℓ κ} {E : Type κ} {S : Type ℓ} (handlers : ℕ → HsmEvent E → S → S × Reaction) where
  unfoldable pub enter_state : State → S → Run S
  unfolding respond accept_action
  enter_state s members = accept_action (respond handlers s entry members)

  -- From the end of the path to its beginning.
  unfoldable pub enter_path : List State → S → Run S
  unfolding enter_state
  enter_path [] members = returns members
  enter_path (s ∷ path) members = enter_path path members >>= enter_state s

  unfoldable pub exit_state : State → S → Run S
  unfolding respond accept_action
  exit_state s members = accept_action (respond handlers s exit members)

  unfoldable pub exit_path : List State → S → Run S
  unfolding exit_state
  exit_path [] members = returns members
  exit_path (s ∷ path) members = exit_state s members >>= exit_path path

  -- The parts of a round of the loop in `transition_from`: the exit of the states between the
  -- current state and the source, and the transition from the source to the target.
  unfoldable pub exit_current : State → State → S → Run S
  unfolding discover exit_path
  exit_current current source members =
      if same_state current source
      then returns members
      else (searched (discover handlers current source members) >>= λ (found, path).
          exit_path path.m_storage found)

  -- `source_path`, which is discovered where the target path is not complete.
  unfoldable pub discover_source : State → State → Bool → S → Run (S × StatePath)
  unfolding discover
  discover_source source target true members = returns (members, empty_path)
  discover_source source target false members = searched (discover handlers source target members)

  -- The storages of the two paths when their common superstates are removed, which they are where
  -- neither path is complete.
  unfoldable pub separate : StatePath → StatePath → Run (List State × List State)
  unfolding remove_common_superstates
  separate source_path target_path =
      if not source_path.m_is_complete && not target_path.m_is_complete
      then remove_common_superstates source_path.m_storage target_path.m_storage
      else returns (source_path.m_storage, target_path.m_storage)

  unfoldable pub exit_and_enter : StatePath → StatePath → S → Run S
  unfolding separate exit_path enter_path
  exit_and_enter source_path target_path members =
      separate source_path target_path >>= λ (exits, entries).
      (if target_path.m_is_complete then returns members else exit_path exits members) >>= λ exited.
      (if source_path.m_is_complete then returns exited else enter_path entries exited)

  unfoldable pub source_to_target : State → State → S → Run S
  unfolding discover discover_source exit_and_enter exit_state enter_state
  source_to_target source target members =
      if same_state target source
      then (exit_state source members >>= enter_state target)
      else (searched (discover handlers target source members) >>= λ (found, target_path).
          discover_source source target target_path.m_is_complete found >>= λ (sought, source_path).
          exit_and_enter source_path target_path sought)

  -- The switch of `transition_from`, with the next round of its loop.
  unfoldable pub conclude_round :
      (State → S → Run (State × S)) → State → S × Reaction → Run (State × S)
  conclude_round again target (members, state_transition_triggered next) = again next members
  conclude_round again target (members, event_handling_deferred_to_superstate superstate) =
      returns (target, members)
  conclude_round again target (members, event_handled) = fails unexpected_event_handling_result
  conclude_round again target (members, event_ignored) = fails unexpected_event_handling_result

  -- The loop of `transition_from`, on fuel: what it returns is the current state and the members.
  unfoldable pub transition_loop : ℕ → State → State → State → S → Run (State × S)
  unfolding exit_current source_to_target respond conclude_round
  transition_loop zero current source target members = out_of_fuel
  transition_loop (suc fuel) current source target members =
      exit_current current source members >>= λ exited.
      source_to_target source target exited >>= λ entered.
      conclude_round (transition_loop fuel target target) target
        (respond handlers target nested_initial_transition entered)

  -- The switch of `dispatch`, with the transition and with the next round of its loop.
  unfoldable pub conclude_dispatch :
      State
      → (State → S → Run (State × S))
      → (State → S → Run (State × S))
      → S × Reaction
      → Run (State × S)
  conclude_dispatch current transition again (members, event_handled) = returns (current, members)
  conclude_dispatch current transition again (members, state_transition_triggered target) =
      transition target members
  conclude_dispatch current transition again
        (members, event_handling_deferred_to_superstate superstate) =
      again superstate members
  conclude_dispatch current transition again (members, event_ignored) = returns (current, members)

  -- The loop of `dispatch`, on fuel, at the state that the event has been deferred to.
  unfoldable pub dispatch_loop : ℕ → State → State → E → S → Run (State × S)
  unfolding transition_loop respond conclude_dispatch
  dispatch_loop zero current s e members = out_of_fuel
  dispatch_loop (suc fuel) current s e members =
      conclude_dispatch current (transition_loop fuel current s)
        (λ superstate next. dispatch_loop fuel current superstate e next)
        (respond handlers s (event e) members)

  -- `none` is a machine that has no current state.
  unfoldable pub dispatch : ℕ → Option State → E → S → Run (State × S)
  unfolding dispatch_loop
  dispatch fuel none e members = fails logic_error
  dispatch fuel (some current) e members = dispatch_loop fuel current current e members

  unfoldable pub topmost_transition : ℕ → S × Reaction → Run (State × S)
  unfolding transition_loop
  topmost_transition fuel (members, state_transition_triggered target) =
      transition_loop fuel top top target members
  topmost_transition fuel (members, event_handled) = fails unexpected_event_handling_result
  topmost_transition fuel (members, event_handling_deferred_to_superstate superstate) =
      fails unexpected_event_handling_result
  topmost_transition fuel (members, event_ignored) = fails unexpected_event_handling_result

  -- The expectations are on the current state, which is to be missing, and the initial pseudostate,
  -- which is not.
  unfoldable pub execute_topmost_initial_transition :
      ℕ → Option State → Option State → E → S → Run (State × S)
  unfolding topmost_transition respond
  execute_topmost_initial_transition fuel none (some pseudostate) e members =
      topmost_transition fuel (respond handlers pseudostate (event e) members)
  execute_topmost_initial_transition fuel none none e members = fails logic_error
  execute_topmost_initial_transition fuel (some current) pseudostate e members = fails logic_error

  -- A machine that is dispatched a sequence of events.
  unfoldable pub dispatch_all : ℕ → List E → State × S → Run (State × S)
  unfolding dispatch
  dispatch_all fuel [] (current, members) = returns (current, members)
  dispatch_all fuel (e ∷ events) (current, members) =
      dispatch fuel (some current) e members >>= dispatch_all fuel events
