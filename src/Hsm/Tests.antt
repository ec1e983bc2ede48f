-- ===== src/Hsm/Tests.antt =====
-- A machine of four states: 1 and 2 below 0, and 3 below 2.
use picolibrary.Common.{ℕ, zero, suc, false, ◌≡◌, ◌||◌, refl, some, [], ◌∷◌, arith}
use picolibrary.Expectation.{Checked, done}
use picolibrary.Hsm.{
  State, top, state, HsmEvent, Reaction, event_handling_deferred_to_superstate, discover, is_in,
  StatePath,
}
use picolibrary.Hsm.Chain.{
  Superstates, at_top, below, contains, covered, discover_lem, is_in_lem, discover_returns,
}

abbrev parent : ℕ → State
parent zero = top
parent (suc zero) = state 0
parent (suc (suc zero)) = state 0
parent (suc (suc (suc n))) = state 2

abbrev handlers : ℕ → HsmEvent (Unit {0}) → Unit {0} → Unit {0} × Reaction
handlers n e members = (members, event_handling_deferred_to_superstate (parent n))

above_three : Superstates parent (state 2) (state 2 ∷ state 0 ∷ [])
above_three = below (below at_top)

discover_lem_example :
    discover handlers (state 3) (state 0) tt
    ≡ some (done (tt, covered (state 3 ∷ []) (state 0) (state 2 ∷ state 0 ∷ []) false))
discover_lem_example =
    discover_lem handlers parent (λ n members. refl) 3 (state 2 ∷ state 0 ∷ []) above_three
      (omega arith) (state 0) tt

is_in_lem_example :
    is_in handlers (state 3) (state 3) tt
    ≡ some (done (contains (state 3) (state 2 ∷ state 0 ∷ []) || false))
is_in_lem_example =
    is_in_lem handlers parent (λ n members. refl) 3 (state 2 ∷ state 0 ∷ []) above_three
      (omega arith) (state 3) tt

not_in_current : contains (state 3) (state 2 ∷ state 0 ∷ []) ≡ false
unfolding contains
not_in_current = refl

discover_returns_example :
    (r : Checked (Unit {0} × StatePath)) × (discover handlers (state 3) (state 1) tt ≡ some r)
discover_returns_example = discover_returns handlers (state 3) (state 1) tt
