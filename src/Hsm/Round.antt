-- ===== src/Hsm/Round.antt =====
-- One round of a transition against the state hierarchy. A round takes the active states from the
-- chain of the current state to that of the source, and from there to that of the target.
use mathlib.Core.Bool.{true≢false}
use picolibrary.Common.{
  ℕ, ◌≡◌, ◌≢◌, sym, ap, subst, ◌∙◌, inl, inr, Bool, true, false, Bool-cases, some, List, [], ◌∷◌,
  arith,
}
use picolibrary.Hsm.{
  State, top, state, same_state, HsmEvent, Reaction, StatePath, discover, respond,
}
use picolibrary.Hsm.Active.{Notice, logged, enter_state-Ends, exit_state-Ends}
use picolibrary.Hsm.Chain.{at_top, below, until, contains}
use picolibrary.Hsm.Paths.{
  covers, covers_next, covers_top, same_state-eq, supers-eq, supers-state, path-append, path_all,
  not_below, Separates, remove_common_superstates-Ends,
}
use picolibrary.Hsm.Run.{Ends, Ends-bind, returns, ◌>>=◌}
use picolibrary.Hsm.Transition.{
  accept_action, enter_state, enter_path, exit_state, exit_path, exit_current, empty_path,
  discover_source, separate, remove_common_superstates, exit_and_enter, source_to_target,
}
use picolibrary.Hsm.Parts.{Hierarchy, Acts, Proper, Shows, discover-eq, exit_part, enter_part}

module _ {ℓ κ} {E : Type κ} {S : Type ℓ} (handlers : ℕ → HsmEvent E → S → S × Reaction)
    (parent : ℕ → State) (supers : State → List State) (H : Hierarchy handlers parent supers)
    (W : Type 0) (acts : Acts W handlers) where
  covers-parent :
      (end : State) (n : ℕ)
      → same_state (state n) end ≡ false
      → covers end (supers (state n)) ≡ true
      → covers end (supers (parent n)) ≡ true
  covers-parent end n e h =
      sym (covers_next end (state n) (supers (parent n)) e)
      ∙ ap (covers end) (supers-state parent supers H.spans n)
      ∙ h

  covers-top : (end : State) → same_state top end ≡ false → covers end (supers top) ≢ true
  unfolding contains
  covers-top end e h =
      let chain = ap (covers end) (supers-eq parent supers H.spans top [] at_top) in
      let same = same_state-eq end top (chain ∙ h) in
      true≢false (subst (λ s. same_state top s ≡ false) same e)

  pub exit_current-Ends :
      (current source : State) (seen : List Notice × S)
      → covers source (supers current) ≡ true
      → Shows handlers parent supers H W acts (supers current) seen
      → Ends W
          (Shows handlers parent supers H W acts (supers source))
          (exit_current (logged handlers) current source seen)
  unfolding exit_current
  exit_current-Ends top source seen h shown = elim (Bool-cases (same_state top source)) [
    | inl e ↦ rw e (
        subst (λ s. Shows handlers parent supers H W acts (supers s) seen)
          (same_state-eq top source e) shown)
    | inr e ↦ absurd (covers-top source e h)
  ]
  exit_current-Ends (state n) source seen h shown =
      elim (Bool-cases (same_state (state n) source)) [
        | inl e ↦ rw e (
            subst (λ s. Shows handlers parent supers H W acts (supers s) seen)
              (same_state-eq (state n) source e) shown)
        | inr e ↦
            rw (e, discover-eq handlers parent supers H W acts n source seen)
              (exit_part handlers parent supers H W acts
                (state n ∷ until source (supers (parent n))) (supers source) (state n) seen
                (path-append parent supers H.spans n source (covers-parent source n e h)) shown)
      ]

  restart-Ends :
      (n : ℕ) (seen : List Notice × S)
      → Shows handlers parent supers H W acts (supers (state n)) seen
      → Ends W
          (Shows handlers parent supers H W acts (supers (state n)))
          (exit_state (logged handlers) (state n) seen >>= enter_state (logged handlers) (state n))
  restart-Ends n (log, members) shown =
      Ends-bind W (Shows handlers parent supers H W acts (supers (parent n)))
        (Shows handlers parent supers H W acts (supers (state n)))
        (exit_state (logged handlers) (state n) (log, members))
        (enter_state (logged handlers) (state n))
        (exit_state-Ends handlers parent W acts.enters acts.exits n (supers (parent n)) log members
          (shown ∙ ap some (sym (supers-state parent supers H.spans n))))
        (λ (after, found) h.
          subst
            (λ states.
              Ends W (Shows handlers parent supers H W acts states)
                (enter_state (logged handlers) (state n) (after, found)))
            (supers-state parent supers H.spans n)
            (enter_state-Ends handlers parent W acts.enters acts.exits (state n) (state n)
              (supers (parent n)) after found (below (H.spans (parent n))) h))

  part-Ends :
      (n k : ℕ) (seen : List Notice × S)
      → same_state (state n) (state k) ≡ false
      → covers (state k) (supers (parent n)) ≡ false
      → covers (state n) (supers (parent k)) ≡ false
      → Shows handlers parent supers H W acts (supers (state k)) seen
      → Ends W (Shows handlers parent supers H W acts (supers (state n))) (
          exit_and_enter
            (logged handlers)
            (record {
              m_storage = state k ∷ until (state n) (supers (parent k));
              m_is_complete = false;
            })
            (record {
              m_storage = state n ∷ until (state k) (supers (parent n));
              m_is_complete = false;
            })
            seen)
  unfolding exit_and_enter separate
  part-Ends n k seen differs h g shown =
      rw
        (path_all parent supers H.spans k (state n) g, path_all parent supers H.spans n (state k) h)
        (Ends-bind W (Separates (supers (state k)) (supers (state n)))
          (Shows handlers parent supers H W acts (supers (state n)))
          (remove_common_superstates (supers (state k)) (supers (state n)))
          (λ (exits, entries).
            (exit_path (logged handlers) exits seen >>= λ exited.
            enter_path (logged handlers) entries exited))
          (remove_common_superstates-Ends W (supers (state k)) (supers (state n))
            (not_below parent supers H.spans n k differs h)
            (not_below parent supers H.spans k n (ground (arith, differs)) g))
          (λ (exits, entries) (common, (e, (f, apart))).
            Ends-bind W (Shows handlers parent supers H W acts common)
              (Shows handlers parent supers H W acts (supers (state n)))
              (exit_path (logged handlers) exits seen) (enter_path (logged handlers) entries)
              (exit_part handlers parent supers H W acts exits common (state k) seen (sym e) shown)
              (λ exited.
                enter_part handlers parent supers H W acts entries common (state n) exited
                  (sym f))))

  abbrev pub path_to : ℕ → State → Bool → StatePath
  path_to n end complete = record {
    m_storage = state n ∷ until end (supers (parent n));
    m_is_complete = complete;
  }

  descend-Ends :
      (n : ℕ) (source : State) (seen : List Notice × S)
      → covers source (supers (parent n)) ≡ true
      → Shows handlers parent supers H W acts (supers source) seen
      → Ends W
          (Shows handlers parent supers H W acts (supers (state n)))
          (exit_and_enter (logged handlers) empty_path (path_to n source true) seen)
  unfolding exit_and_enter separate
  descend-Ends n source seen h shown =
      enter_part handlers parent supers H W acts (state n ∷ until source (supers (parent n)))
        (supers source) (state n) seen (path-append parent supers H.spans n source h) shown

  ascend-Ends :
      (n k : ℕ) (seen : List Notice × S)
      → covers (state n) (supers (parent k)) ≡ true
      → Shows handlers parent supers H W acts (supers (state k)) seen
      → Ends W (Shows handlers parent supers H W acts (supers (state n))) (
          exit_and_enter
            (logged handlers)
            (path_to k (state n) true)
            (path_to n (state k) false)
            seen)
  unfolding exit_and_enter separate
  ascend-Ends n k seen g shown =
      (Ends-bind W (Shows handlers parent supers H W acts (supers (state n)))
        (Shows handlers parent supers H W acts (supers (state n)))
        (exit_path (logged handlers) (state k ∷ until (state n) (supers (parent k))) seen)
        (λ exited. returns exited)
        (exit_part handlers parent supers H W acts (state k ∷ until (state n) (supers (parent k)))
          (supers (state n)) (state k) seen (path-append parent supers H.spans k (state n) g) shown)
        (λ exited q. q))

  leave-Ends :
      (n k : ℕ) (seen : List Notice × S)
      → same_state (state n) (state k) ≡ false
      → covers (state k) (supers (parent n)) ≡ false
      → Shows handlers parent supers H W acts (supers (state k)) seen
      → Ends W (Shows handlers parent supers H W acts (supers (state n))) (
          exit_and_enter
            (logged handlers)
            (path_to k (state n) (covers (state n) (supers (parent k))))
            (path_to n (state k) false)
            seen)
  leave-Ends n k seen differs h shown = elim (Bool-cases (covers (state n) (supers (parent k)))) [
    | inl g ↦ rw g (ascend-Ends n k seen g shown)
    | inr g ↦ rw g (part-Ends n k seen differs h g shown)
  ]

  depart-Ends :
      (n : ℕ) (source : State) (seen : List Notice × S)
      → same_state (state n) source ≡ false
      → covers source (supers (parent n)) ≡ false
      → Shows handlers parent supers H W acts (supers source) seen
      → Ends W (Shows handlers parent supers H W acts (supers (state n))) (
          discover_source (logged handlers) source (state n) false seen >>= λ (sought, source_path).
          exit_and_enter (logged handlers) source_path (path_to n source false) sought)
  unfolding discover_source
  depart-Ends n top seen differs h shown =
      absurd (true≢false (sym (covers_top (supers (parent n))) ∙ h))
  depart-Ends n (state k) seen differs h shown =
      rw (discover-eq handlers parent supers H W acts k (state n) seen)
        (leave-Ends n k seen differs h shown)

  pub source_to_target-Ends :
      (source target : State) (seen : List Notice × S)
      → Proper W target
      → Shows handlers parent supers H W acts (supers source) seen
      → Ends W
          (Shows handlers parent supers H W acts (supers target))
          (source_to_target (logged handlers) source target seen)
  unfolding source_to_target discover exit_state accept_action respond discover_source
  source_to_target-Ends top top seen proper shown = proper
  source_to_target-Ends (state k) top seen proper shown = proper
  source_to_target-Ends source (state n) seen proper shown =
      elim (Bool-cases (same_state (state n) source)) [
        | inl e ↦ rw e (
            subst
              (λ s.
                Ends W (Shows handlers parent supers H W acts (supers (state n)))
                  (exit_state (logged handlers) s seen >>= enter_state (logged handlers) (state n)))
              (same_state-eq (state n) source e)
              (restart-Ends n seen (
                subst (λ s. Shows handlers parent supers H W acts (supers s) seen)
                  (sym (same_state-eq (state n) source e)) shown)))
        | inr e ↦ elim (Bool-cases (covers source (supers (parent n)))) [
          | inl h ↦
              rw (e, discover-eq handlers parent supers H W acts n source seen, h)
                (descend-Ends n source seen h shown)
          | inr h ↦
              rw (e, discover-eq handlers parent supers H W acts n source seen, h)
                (depart-Ends n source seen e h shown)
        ]
      ]
