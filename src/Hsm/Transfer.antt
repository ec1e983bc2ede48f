-- ===== src/Hsm/Transfer.antt =====
-- The transition from a state to another one, as a whole.
use picolibrary.Common.{ℕ, ◌≡◌, subst, true, false, some, List}
use picolibrary.Hsm.{State, state, same_state, HsmEvent, Reaction}
use picolibrary.Hsm.Active.{Notice, logged, active}
use picolibrary.Hsm.Chain.{contains}
use picolibrary.Hsm.Parts.{Hierarchy, Acts, Shows}
use picolibrary.Hsm.Round.{source_to_target-Ends}
use picolibrary.Hsm.Run.{returns, Ends, Ends-returns}
use picolibrary.Hsm.Shared.{about, Keeps, keep_shared}
use picolibrary.Hsm.Transition.{source_to_target}

module _ {ℓ κ} {E : Type κ} {S : Type ℓ} (handlers : ℕ → HsmEvent E → S → S × Reaction)
    (parent : ℕ → State) (supers : State → List State) (H : Hierarchy handlers parent supers)
    (acts : Acts ⊥ handlers) where
  -- For handlers that defer the discovery event to their superstate and change nothing by it, of
  -- which none is deeper than eight states, and that handle or defer the entry and exit events:
  -- where exactly the source and its superstates are active, the transition to another state
  -- returns with exactly that state and its superstates active, and a state that both are in,
  -- which may be the source or the target itself, has not been entered or exited.
  pub source_to_target_lem :
      (source target : ℕ) (log : List Notice) (members : S)
      → same_state (state target) (state source) ≡ false
      → active parent log ≡ some (supers (state source))
      → (seen : List Notice × S) × ((source_to_target
              (logged handlers)
              (state source)
              (state target)
              (log, members)
            ≡ returns seen)
          × ((active parent seen.0 ≡ some (supers (state target)))
              × ((m : ℕ)
                  → contains (state m) (supers (state source)) ≡ true
                  → contains (state m) (supers (state target)) ≡ true
                  → about m seen.0 ≡ about m log)))
  source_to_target_lem source target log members differs shown =
      let run = source_to_target (logged handlers) (state source) (state target) (log, members) in
      let (seen, (ends, arrived)) =
        Ends-returns (Shows handlers parent supers H ⊥ acts (supers (state target))) run (
          source_to_target-Ends handlers parent supers H ⊥ acts (state source) (state target)
            (log, members) tt shown) in
      (
        seen,
        (
          ends,
          (
            arrived,
            λ m in_source in_target.
                subst (Ends ⊥ (Keeps handlers parent supers H ⊥ acts m log)) ends (
                  keep_shared handlers parent supers H ⊥ acts m source target log members differs
                    in_source in_target),
          ),
        ),
      )
