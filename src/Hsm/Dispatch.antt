-- ===== src/Hsm/Dispatch.antt =====
-- Transitions, event dispatch and the topmost initial transition against the state hierarchy.
use picolibrary.Common.{
  ℕ, zero, suc, ◌+◌, ◌≤◌, ◌<◌, ◌≡◌, ◌⊎◌, inl, inr, refl, sym, ap, subst, true, some, List, [],
  length, arith,
}
use picolibrary.Hsm.{
  State, top, state, HsmEvent, nested_initial_transition, event, Reaction, event_handled,
  state_transition_triggered, event_handling_deferred_to_superstate, event_ignored, max_state_depth,
  respond,
}
use picolibrary.Hsm.Active.{Notice, logged, active}
use picolibrary.Hsm.Chain.{at_top}
use picolibrary.Hsm.Paths.{
  covers, supers-eq, supers-state, covers_top, covers-append, covers-parent_above,
}
use picolibrary.Hsm.Parts.{Hierarchy, Acts, Proper, Shows}
use picolibrary.Hsm.Round.{exit_current-Ends, source_to_target-Ends}
use picolibrary.Hsm.Run.{Run, ◌>>=◌, Ends, Ends-bind}
use picolibrary.Hsm.Transition.{
  exit_current, source_to_target, conclude_round, transition_loop, conclude_dispatch, dispatch_loop,
}

-- A nested initial transition leads to a state further down, or there is none.
abbrev pub Starts : Type 0 → (State → List State) → ℕ → Reaction → Type 0
Starts W supers n event_handled = W
Starts W supers n (state_transition_triggered top) = W
Starts W supers n (state_transition_triggered (state k)) =
    (length (supers (state n)) < length (supers (state k))) ⊎ W
Starts W supers n (event_handling_deferred_to_superstate superstate) = Unit
Starts W supers n event_ignored = W

-- An event is deferred to the superstate only, and does not trigger a transition to `top`.
abbrev pub Answers : Type 0 → (ℕ → State) → ℕ → Reaction → Type 0
Answers W parent n event_handled = Unit
Answers W parent n (state_transition_triggered target) = Proper W target
Answers W parent n (event_handling_deferred_to_superstate superstate) = superstate ≡ parent n
Answers W parent n event_ignored = Unit

-- The initial pseudostate triggers a transition.
abbrev pub Begins : Type 0 → Reaction → Type 0
Begins W event_handled = W
Begins W (state_transition_triggered target) = Proper W target
Begins W (event_handling_deferred_to_superstate superstate) = W
Begins W event_ignored = W

module _ {ℓ κ} {E : Type κ} {S : Type ℓ} (handlers : ℕ → HsmEvent E → S → S × Reaction)
    (parent : ℕ → State) (supers : State → List State) (H : Hierarchy handlers parent supers)
    (W : Type 0) (acts : Acts W handlers)
    (starts : (n : ℕ) (members : S)
      → Starts W supers n (handlers n nested_initial_transition members).1) where
  pub supers-top : supers top ≡ []
  supers-top = sym (supers-eq parent supers H.spans top [] at_top)

  pub length-supers : (s : State) → length (supers s) ≤ max_state_depth
  length-supers top = rw supers-top (omega arith)
  length-supers (state n) =
      subst (λ states. length states ≤ max_state_depth) (supers-state parent supers H.spans n)
        (omega (arith, H.depth n))

  -- The log shows the chain of the machine's current state.
  abbrev pub Settled : State × (List Notice × S) → Type 0
  Settled (current, seen) = active parent seen.0 ≡ some (supers current)

  -- There are rounds enough to get from the target to the deepest state, or `W`.
  abbrev pub Rounds : ℕ → State → Type 0
  Rounds fuel target = (max_state_depth < fuel + length (supers target)) ⊎ W

  Rounds-zero : (target : State) → Rounds 0 target → W
  Rounds-zero target (inl h) = absurd (omega (arith, length-supers target))
  Rounds-zero target (inr w) = w

  Rounds-suc :
      (fuel n k : ℕ)
      → Rounds (suc fuel) (state n)
      → (length (supers (state n)) < length (supers (state k))) ⊎ W
      → Rounds fuel (state k)
  Rounds-suc fuel n k (inl h) (inl d) = inl (omega arith)
  Rounds-suc fuel n k (inl h) (inr w) = inr w
  Rounds-suc fuel n k (inr w) d = inr w

  round-Ends :
      (fuel n : ℕ) (again : State → List Notice × S → Run (State × (List Notice × S)))
      (answer : (List Notice × S) × Reaction)
      → ((target : State) (seen : List Notice × S)
          → Proper W target
          → Rounds fuel target
          → Shows handlers parent supers H W acts (supers (state n)) seen
          → Ends W Settled (again target seen))
      → Rounds (suc fuel) (state n)
      → Starts W supers n answer.1
      → Shows handlers parent supers H W acts (supers (state n)) answer.0
      → Ends W Settled (conclude_round (logged handlers) again (state n) answer)
  unfolding conclude_round
  round-Ends fuel n again (seen, state_transition_triggered top) go enough start shown =
      go top seen start (inr start) shown
  round-Ends fuel n again (seen, state_transition_triggered (state k)) go enough start shown =
      go (state k) seen tt (Rounds-suc fuel n k enough start) shown
  round-Ends fuel n again (seen, event_handling_deferred_to_superstate s) go enough start shown =
      shown
  round-Ends fuel n again (seen, event_handled) go enough start shown = start
  round-Ends fuel n again (seen, event_ignored) go enough start shown = start

  settle-Ends :
      (fuel : ℕ) (target : State)
      (again : State → List Notice × S → Run (State × (List Notice × S))) (seen : List Notice × S)
      → ((next : State) (later : List Notice × S)
          → Proper W next
          → Rounds fuel next
          → Shows handlers parent supers H W acts (supers target) later
          → Ends W Settled (again next later))
      → Proper W target
      → Rounds (suc fuel) target
      → Shows handlers parent supers H W acts (supers target) seen
      → Ends W Settled (
          conclude_round
            (logged handlers)
            again
            target
            (respond (logged handlers) target nested_initial_transition seen))
  unfolding conclude_round respond logged
  settle-Ends fuel top again seen go proper enough shown = proper
  settle-Ends fuel (state n) again (log, members) go proper enough shown =
      round-Ends fuel n again (logged handlers n nested_initial_transition (log, members)) go enough
        (starts n members) shown

  pub covers_self : (s : State) → covers s (supers s) ≡ true
  covers_self top = covers_top (supers top)
  covers_self (state n) = covers-append parent supers H.spans n [] (supers (state n)) refl

  pub transition_loop-Ends :
      (fuel : ℕ) (current source target : State) (seen : List Notice × S)
      → Proper W target
      → Rounds fuel target
      → covers source (supers current) ≡ true
      → Shows handlers parent supers H W acts (supers current) seen
      → Ends W Settled (transition_loop (logged handlers) fuel current source target seen)
  unfolding transition_loop
  transition_loop-Ends zero current source target seen proper enough h shown =
      Rounds-zero target enough
  transition_loop-Ends (suc fuel) current source target seen proper enough h shown =
      let again = transition_loop (logged handlers) fuel target target in
      let finish = λ (entered : List Notice × S).
        conclude_round (logged handlers) again target
          (respond (logged handlers) target nested_initial_transition entered) in
      Ends-bind W (Shows handlers parent supers H W acts (supers source)) Settled
        (exit_current (logged handlers) current source seen)
        (λ exited. source_to_target (logged handlers) source target exited >>= finish)
        (exit_current-Ends handlers parent supers H W acts current source seen h shown)
        (λ exited left.
          Ends-bind W (Shows handlers parent supers H W acts (supers target)) Settled
            (source_to_target (logged handlers) source target exited) finish
            (source_to_target-Ends handlers parent supers H W acts source target exited proper left)
            (λ entered arrived.
              settle-Ends fuel target again entered
                (λ next later good room there.
                  transition_loop-Ends fuel target target next later good room (covers_self target)
                    there)
                proper enough arrived))

  module _
      (answers : (n : ℕ) (e : E) (members : S)
        → Answers W parent n (handlers n (event e) members).1) where
    -- There are rounds enough to defer an event to `top` and for a transition, or `W`.
    abbrev pub Deferrals : ℕ → State → Type 0
    Deferrals fuel s = (length (supers s) + suc max_state_depth < fuel) ⊎ W

    Deferrals-Rounds :
        (fuel n : ℕ) (target : State) → Deferrals (suc fuel) (state n) → Rounds fuel target
    Deferrals-Rounds fuel n target (inl h) = inl (omega arith)
    Deferrals-Rounds fuel n target (inr w) = inr w

    Deferrals-parent :
        (fuel n : ℕ) (superstate : State)
        → Deferrals (suc fuel) (state n)
        → superstate ≡ parent n
        → Deferrals fuel superstate
    Deferrals-parent fuel n superstate (inl h) same =
        let longer = ap length (supers-state parent supers H.spans n) in
        subst (λ s. Deferrals fuel s) (sym same) (inl (omega arith))
    Deferrals-parent fuel n superstate (inr w) same = inr w

    answer-Ends :
        (fuel n : ℕ) (current : State)
        (transition again : State → List Notice × S → Run (State × (List Notice × S)))
        (answer : (List Notice × S) × Reaction)
        → ((target : State) (seen : List Notice × S)
            → Proper W target
            → Shows handlers parent supers H W acts (supers current) seen
            → Ends W Settled (transition target seen))
        → ((superstate : State) (seen : List Notice × S)
            → superstate ≡ parent n
            → Shows handlers parent supers H W acts (supers current) seen
            → Ends W Settled (again superstate seen))
        → Answers W parent n answer.1
        → Shows handlers parent supers H W acts (supers current) answer.0
        → Ends W Settled (conclude_dispatch (logged handlers) current transition again answer)
    unfolding conclude_dispatch
    answer-Ends fuel n current transition again (seen, event_handled) go up good shown = shown
    answer-Ends fuel n current transition again (seen, state_transition_triggered target) go up good
          shown =
        go target seen good shown
    answer-Ends fuel n current transition again (seen, event_handling_deferred_to_superstate s) go
          up good shown =
        up s seen good shown
    answer-Ends fuel n current transition again (seen, event_ignored) go up good shown = shown

    pub dispatch_loop-Ends :
        (fuel : ℕ) (current s : State) (e : E) (seen : List Notice × S)
        → Deferrals fuel s
        → covers s (supers current) ≡ true
        → Shows handlers parent supers H W acts (supers current) seen
        → Ends W Settled (dispatch_loop (logged handlers) fuel current s e seen)
    unfolding dispatch_loop respond logged conclude_dispatch
    dispatch_loop-Ends zero current s e seen (inl h) above shown = absurd (omega arith)
    dispatch_loop-Ends zero current s e seen (inr w) above shown = w
    dispatch_loop-Ends (suc fuel) current top e seen enough above shown = shown
    dispatch_loop-Ends (suc fuel) current (state n) e (log, members) enough above shown =
        answer-Ends fuel n current (transition_loop (logged handlers) fuel current (state n))
          (λ superstate next. dispatch_loop (logged handlers) fuel current superstate e next)
          (logged handlers n (event e) (log, members))
          (λ target seen good there.
            transition_loop-Ends fuel current (state n) target seen good
              (Deferrals-Rounds fuel n target enough) above there)
          (λ superstate seen same there.
            dispatch_loop-Ends fuel current superstate e seen
              (Deferrals-parent fuel n superstate enough same)
              (subst (λ t. covers t (supers current) ≡ true) (sym same)
                (covers-parent_above parent supers H.spans current n above))
              there)
          (answers n e members) shown
