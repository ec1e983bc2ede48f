-- ===== src/Hsm/Machine/Tests.antt =====
-- A machine of four states, 1 and 2 below 0, and 3 below 2: state 0 begins in 1, an event takes 1
-- to 3, and 3 defers it to 2, which goes to 0.
use picolibrary.Common.{
  ℕ, zero, suc, ◌+◌, ◌<◌, ◌≡◌, refl, true, inl, length, none, some, List, [], ◌∷◌, arith,
}
use picolibrary.Hsm.{
  State, top, state, HsmEvent, discovery, entry, exit, nested_initial_transition, event, Reaction,
  event_handled, state_transition_triggered, event_handling_deferred_to_superstate,
}
use picolibrary.Hsm.Active.{Notice, entered, exited, logged, active}
use picolibrary.Hsm.Chain.{Superstates, at_top, below, contains}
use picolibrary.Hsm.Dispatch.{Starts, Answers}
use picolibrary.Hsm.Machine.{dispatch_all-Ends_settled, dispatch_all_returns}
use picolibrary.Hsm.Parts.{Hierarchy, Acts}
use picolibrary.Hsm.Shared.{about}
use picolibrary.Hsm.Transfer.{source_to_target_lem}
use picolibrary.Hsm.Run.{Run, returns, ◌>>=◌, Ends}
use picolibrary.Hsm.Transition.{execute_topmost_initial_transition, dispatch_all, source_to_target}

abbrev parent : ℕ → State
parent zero = top
parent (suc zero) = state 0
parent (suc (suc zero)) = state 0
parent (suc (suc (suc n))) = state 2

abbrev supers : State → List State
supers top = []
supers (state zero) = state 0 ∷ []
supers (state (suc zero)) = state 1 ∷ state 0 ∷ []
supers (state (suc (suc zero))) = state 2 ∷ state 0 ∷ []
supers (state (suc (suc (suc n)))) = state (suc (suc (suc n))) ∷ state 2 ∷ state 0 ∷ []

abbrev answer : ℕ → Reaction
answer zero = event_handled
answer (suc zero) = state_transition_triggered (state 3)
answer (suc (suc zero)) = state_transition_triggered (state 0)
answer (suc (suc (suc n))) = event_handling_deferred_to_superstate (state 2)

abbrev begin_in : ℕ → Reaction
begin_in zero = state_transition_triggered (state 1)
begin_in (suc n) = event_handling_deferred_to_superstate (parent (suc n))

abbrev handlers : ℕ → HsmEvent ℕ → ℕ → ℕ × Reaction
handlers n discovery members = (members, event_handling_deferred_to_superstate (parent n))
handlers n entry members = (members, event_handled)
handlers n exit members = (members, event_handled)
handlers n nested_initial_transition members = (members, begin_in n)
handlers n (event e) members = (members + e, answer n)

supers-Superstates : (s : State) → Superstates parent s (supers s)
supers-Superstates top = at_top
supers-Superstates (state zero) = below at_top
supers-Superstates (state (suc zero)) = below (below at_top)
supers-Superstates (state (suc (suc zero))) = below (below at_top)
supers-Superstates (state (suc (suc (suc n)))) = below (below (below at_top))

supers_short : (n : ℕ) → length (supers (parent n)) < 8
supers_short zero = omega arith
supers_short (suc zero) = omega arith
supers_short (suc (suc zero)) = omega arith
supers_short (suc (suc (suc n))) = omega arith

hierarchy : Hierarchy handlers parent supers
hierarchy = record {
  discovers = λ n members. refl;
  spans = supers-Superstates;
  depth = supers_short;
}

answer-parent :
    (n : ℕ) (superstate : State)
    → answer n ≡ event_handling_deferred_to_superstate superstate
    → superstate ≡ parent n
answer-parent zero superstate e = cc
answer-parent (suc zero) superstate e = cc
answer-parent (suc (suc zero)) superstate e = cc
answer-parent (suc (suc (suc n))) superstate e = cc

answer-Answers : (n : ℕ) → Answers ⊥ parent n (answer n)
answer-Answers zero = tt
answer-Answers (suc zero) = tt
answer-Answers (suc (suc zero)) = tt
answer-Answers (suc (suc (suc n))) = refl

begin_in-Starts : (n : ℕ) → Starts ⊥ supers n (begin_in n)
begin_in-Starts zero = inl (omega arith)
begin_in-Starts (suc n) = tt

abbrev run : Run (State × (List Notice × ℕ))
run =
    execute_topmost_initial_transition (logged handlers) 18 none (some (state 1)) 5 ([], 0)
    >>= dispatch_all (logged handlers) 18 (7 ∷ 9 ∷ [])

dispatch_all-Ends_settled_example :
    Ends Unit (λ (current, (log, next)). active parent log ≡ some (supers current)) run
dispatch_all-Ends_settled_example =
    dispatch_all-Ends_settled handlers parent supers hierarchy
      (λ n e members superstate. answer-parent n superstate) 18 1 5 (7 ∷ 9 ∷ []) 0

dispatch_all_returns_example :
    (machine : State × (List Notice × ℕ)) × ((run ≡ returns machine)
      × (active parent machine.1.0 ≡ some (supers machine.0)))
dispatch_all_returns_example =
    dispatch_all_returns handlers parent supers hierarchy
      (record { enters = λ n members. tt; exits = λ n members. tt })
      (λ n members. begin_in-Starts n) (λ n e members. answer-Answers n) 18 1 5 (7 ∷ 9 ∷ []) 0
      (omega arith) tt

-- The event 7 takes the machine from 3 over 2 to 0 and into 1, and 9 back to 3.
run_result :
    run
    ≡ returns (
      state 3,
      (
        entered 3
            ∷ entered 2
            ∷ exited 1
            ∷ entered 1
            ∷ exited 2
            ∷ exited 3
            ∷ entered 3
            ∷ entered 2
            ∷ entered 0
            ∷ [],
        28,
      ),
    )
unfolding execute_topmost_initial_transition dispatch_all logged
run_result = refl

abbrev in_three : List Notice
in_three = entered 3 ∷ entered 2 ∷ entered 0 ∷ []

in_three-active : active parent in_three ≡ some (supers (state 3))
unfolding active
in_three-active = refl

abbrev acts : Acts ⊥ handlers
acts = record { enters = λ n members. tt; exits = λ n members. tt }

source_to_target_lem_example :
    (seen : List Notice × ℕ) × ((source_to_target
          (logged handlers)
          (state 3)
          (state 1)
          (in_three, 0)
        ≡ returns seen)
      × ((active parent seen.0 ≡ some (supers (state 1)))
          × ((m : ℕ)
              → contains (state m) (supers (state 3)) ≡ true
              → contains (state m) (supers (state 1)) ≡ true
              → about m seen.0 ≡ about m in_three)))
source_to_target_lem_example =
    source_to_target_lem handlers parent supers hierarchy acts 3 1 in_three 0 refl in_three-active
