-- ===== src/Hsm.antt =====
-- include/picolibrary/hsm.h: states, and the discovery of state paths. The state event handlers are
-- the program's own functions, so they are a parameter: a handler takes an event and the members
-- of the machine's class, and ends by calling one of the member functions of `HSM` that report a
-- result. The pointer that `transition_to` and `defer_event_handling_to` store is read right after
-- such a call and nowhere else, so it is part of the reaction here.
pub mod Chain
pub mod Run
pub mod Transition
pub mod Paths
pub mod Active
pub mod Parts
pub mod Round
pub mod Disjoint
pub mod Shared
pub mod Transfer
pub mod Dispatch
pub mod Machine
mod Tests
use picolibrary.Common.{
  ℕ, zero, suc, ◌+◌, Bool, true, false, ◌==◌, Option, none, some, List, [], ◌∷◌, ◌++◌, length,
}
use picolibrary.Expectation.{
  Checked, done, fatal, insufficient_capacity, unexpected_event_handling_result, logic_error,
}

-- The address of a state event handler.
pub data State : Type 0 where
  top : State
  state : ℕ → State

abbrev pub same_state : State → State → Bool
same_state top top = true
same_state top (state b) = false
same_state (state a) top = false
same_state (state a) (state b) = a == b

pub data HsmEvent {κ} (E : Type κ) : Type κ where
  discovery entry exit nested_initial_transition : HsmEvent E
  event : E → HsmEvent E

-- What a handler reports: `event_handled`, `transition_to`, `defer_event_handling_to` and
-- `event_ignored`.
pub data Reaction : Type 0 where
  event_handled : Reaction
  state_transition_triggered : State → Reaction
  event_handling_deferred_to_superstate : State → Reaction
  event_ignored : Reaction

-- The expectation on the result of the discovery event, with the superstate that it is deferred
-- to.
unfoldable pub expect_deferral : Reaction → Checked State
expect_deferral (event_handling_deferred_to_superstate superstate) = done superstate
expect_deferral event_handled = fatal unexpected_event_handling_result
expect_deferral (state_transition_triggered target) = fatal unexpected_event_handling_result
expect_deferral event_ignored = fatal unexpected_event_handling_result

pub record StatePath : Type 0 where
  pub m_storage : List State
  pub m_is_complete : Bool

abbrev pub max_state_depth : ℕ
max_state_depth = 8

module _ {ℓ κ} {E : Type κ} {S : Type ℓ} (handlers : ℕ → HsmEvent E → S → S × Reaction) where
  unfoldable pub respond : State → HsmEvent E → S → S × Reaction
  respond top e members = (members, event_ignored)
  respond (state n) e members = handlers n e members

  -- The loop of `discover`, on fuel, where `superstate` is `hsm.m_superstate`. `none`: out of fuel.
  unfoldable pub discover_loop :
      ℕ → State → State → List State → Bool → S → Option (Checked (S × StatePath))
  unfolding respond expect_deferral
  discover_loop zero end superstate storage complete members = none
  discover_loop (suc fuel) end superstate storage complete members =
      elim (same_state superstate top) [
        | true ↦ some (done (members, record { m_storage = storage; m_is_complete = complete }))
        | false ↦ elim (same_state superstate end) [
          | true ↦ some (done (members, record { m_storage = storage; m_is_complete = true }))
          | false ↦ elim (length storage == max_state_depth) [
            | true ↦ some (fatal insufficient_capacity)
            | false ↦ elim (expect_deferral (respond superstate discovery members).1) [
              | done next ↦
                  discover_loop fuel end next (storage ++ (superstate ∷ [])) complete
                    (respond superstate discovery members).0
              | fatal error ↦ some (fatal error)
            ]
          ]
        ]
      ]

  -- `discover` of a path whose storage is empty, as all are. Each round stores a state, so the
  -- capacity of the storage bounds the rounds.
  unfoldable pub discover : State → State → S → Option (Checked (S × StatePath))
  unfolding respond expect_deferral discover_loop
  discover begin end members = elim (expect_deferral (respond begin discovery members).1) [
    | done superstate ↦
        discover_loop max_state_depth end superstate (begin ∷ []) (same_state end top)
          (respond begin discovery members).0
    | fatal error ↦ some (fatal error)
  ]

  completeness : Option (Checked (S × StatePath)) → Option (Checked Bool)
  completeness none = none
  completeness (some (done (members, path))) = some (done path.m_is_complete)
  completeness (some (fatal e)) = some (fatal e)

  -- `is_in`, of a machine whose current state is `current`.
  unfoldable pub is_in : State → State → S → Option (Checked Bool)
  unfolding completeness discover
  is_in current end members = completeness (discover current end members)
