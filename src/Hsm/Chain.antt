-- ===== src/Hsm/Chain.antt =====
-- Path discovery against the state hierarchy. A well behaved handler defers the discovery event to
-- its superstate and changes nothing.
use picolibrary.Common.{
  ℕ, zero, suc, ◌+◌, ◌≤◌, ◌<◌, ◌≡◌, ◌⊎◌, inl, inr, refl, sym, ap, ◌∙◌, Bool, true, false, ◌||◌,
  ◌==◌, some, List, [], ◌∷◌, ◌++◌, length, length-append, Bool-cases, arith, if◌then◌else◌,
}
use picolibrary.Expectation.{GenericError, Checked, done, fatal}
use picolibrary.Hsm.{
  State, top, state, same_state, HsmEvent, discovery, Reaction, expect_deferral,
  event_handling_deferred_to_superstate, StatePath, max_state_depth, respond, discover_loop,
  discover, is_in, completeness,
}

-- The superstates of a state in order, up to the topmost below `top`.
pub data Superstates (parent : ℕ → State) : State → List State → Type 0 where
  at_top : Superstates parent top []
  below :
      {n : ℕ} {above : List State}
      → Superstates parent (parent n) above
      → Superstates parent (state n) (state n ∷ above)

-- The states before `end`, or all of them.
unfoldable pub until : State → List State → List State
until end [] = []
until end (s ∷ states) = let rest = until end states in if same_state s end then [] else s ∷ rest

unfoldable pub contains : State → List State → Bool
contains end [] = false
contains end (s ∷ states) =
    let rest = contains end states in if same_state s end then true else rest

-- The path that has stored `storage` and comes to the states `above` next.
unfoldable pub covered : List State → State → List State → Bool → StatePath
unfolding until contains
covered storage end above complete = record {
  m_storage = storage ++ until end above;
  m_is_complete = contains end above || complete;
}

append-nil : (storage : List State) → storage ++ [] ≡ storage
append-nil [] = refl
append-nil (s ∷ storage) = ap (λ t. s ∷ t) (append-nil storage)

append_assoc :
    (storage : List State) (s : State) (rest : List State)
    → (storage ++ (s ∷ [])) ++ rest ≡ storage ++ (s ∷ rest)
append_assoc [] s rest = refl
append_assoc (x ∷ storage) s rest = ap (λ t. x ∷ t) (append_assoc storage s rest)

covered-nil :
    (storage : List State) (end : State) (complete : Bool)
    → covered storage end [] complete ≡ record { m_storage = storage; m_is_complete = complete }
unfolding covered until contains
covered-nil storage end complete = rw (append-nil storage) refl

covered_found :
    (storage : List State) (end s : State) (above : List State) (complete : Bool)
    → same_state s end ≡ true
    → covered storage end (s ∷ above) complete
      ≡ record { m_storage = storage; m_is_complete = true }
unfolding covered until contains
covered_found storage end s above complete e = rw (e, append-nil storage) refl

covered_next :
    (storage : List State) (end s : State) (above : List State) (complete : Bool)
    → same_state s end ≡ false
    → covered storage end (s ∷ above) complete ≡ covered (storage ++ (s ∷ [])) end above complete
unfolding covered until contains
covered_next storage end s above complete e = rw (e, append_assoc storage s (until end above)) refl

module _ {ℓ κ} {E : Type κ} {S : Type ℓ} (handlers : ℕ → HsmEvent E → S → S × Reaction)
    (parent : ℕ → State)
    (behaved : (n : ℕ) (members : S)
      → handlers n discovery members
        ≡ (members, event_handling_deferred_to_superstate (parent n))) where
  loop_top :
      (fuel : ℕ) (end : State) (storage : List State) (complete : Bool) (members : S)
      → discover_loop handlers (suc fuel) end top storage complete members
        ≡ some (done (members, record { m_storage = storage; m_is_complete = complete }))
  unfolding discover_loop
  loop_top fuel end storage complete members = refl

  loop_found :
      (fuel n : ℕ) (end : State) (storage : List State) (complete : Bool) (members : S)
      → same_state (state n) end ≡ true
      → discover_loop handlers (suc fuel) end (state n) storage complete members
        ≡ some (done (members, record { m_storage = storage; m_is_complete = true }))
  unfolding discover_loop
  loop_found fuel n end storage complete members e = rw (e, discover_loop) refl

  loop_next :
      (fuel n : ℕ) (end : State) (storage : List State) (complete : Bool) (members : S)
      → same_state (state n) end ≡ false
      → length storage < max_state_depth
      → discover_loop handlers (suc fuel) end (state n) storage complete members
        ≡ discover_loop handlers fuel end (parent n) (storage ++ (state n ∷ [])) complete members
  unfolding discover_loop respond expect_deferral
  loop_next fuel n end storage complete members e room =
      let places : (length storage == 8) ≡ false = ground arith in
      rw (e, places, behaved n members, discover_loop)
        (ap
          (λ (r : S × Reaction).
            discover_loop handlers fuel end (parent n) (storage ++ (state n ∷ [])) complete r.0)
          (behaved n members))

  loop_lem :
      (fuel : ℕ) (end : State) (complete : Bool) (members : S) (superstate : State)
      (above storage : List State)
      → Superstates parent superstate above
      → length storage + length above ≤ max_state_depth
      → length above < fuel
      → discover_loop handlers fuel end superstate storage complete members
        ≡ some (done (members, covered storage end above complete))
  loop_lem zero end complete members superstate above storage chain fits enough =
      absurd (omega arith)
  loop_lem (suc fuel) end complete members top above storage at_top fits enough =
      loop_top fuel end storage complete members
      ∙ ap (λ p. some (done (members, p))) (sym (covered-nil storage end complete))
  loop_lem (suc fuel) end complete members (state n) above storage (below {above = rest} chain) fits
        enough =
      elim (Bool-cases (same_state (state n) end)) [
        | inl e ↦
            loop_found fuel n end storage complete members e
            ∙ ap (λ p. some (done (members, p)))
                (sym (covered_found storage end (state n) rest complete e))
        | inr e ↦
            loop_next fuel n end storage complete members e (omega arith)
            ∙ loop_lem fuel end complete members (parent n) rest (storage ++ (state n ∷ [])) chain
                (omega (arith, length-append storage (state n ∷ []))) (omega arith)
            ∙ ap (λ p. some (done (members, p)))
                (sym (covered_next storage end (state n) rest complete e))
      ]

  module _ (n : ℕ) (above : List State) (chain : Superstates parent (parent n) above)
      (deep : length above < max_state_depth) (end : State) (members : S) where
    -- For handlers that defer the discovery event to their superstate and change nothing, and a
    -- state of a depth of at most eight, path discovery changes nothing and ends with the path
    -- that holds the state and then its superstates in order, up to the first that is the end of
    -- the path or up to the topmost; the path is complete if the end is one of the superstates or
    -- `top`.
    pub discover_lem :
        discover handlers (state n) end members
        ≡ some (done (members, covered (state n ∷ []) end above (same_state end top)))
    unfolding discover respond expect_deferral
    discover_lem =
        rw (behaved n members, discover)
          (ap
              (λ (r : S × Reaction).
                discover_loop handlers max_state_depth end (parent n) (state n ∷ [])
                  (same_state end top) r.0)
              (behaved n members)
            ∙ loop_lem max_state_depth end (same_state end top) members (parent n) above
                (state n ∷ []) chain (omega arith) deep)

    -- For handlers that defer the discovery event to their superstate and change nothing, and a
    -- current state of a depth of at most eight, `is_in` returns true exactly for the superstates
    -- of the current state and `top`; the current state itself is not looked for.
    pub is_in_lem :
        is_in handlers (state n) end members
        ≡ some (done (contains end above || same_state end top))
    unfolding is_in completeness covered
    is_in_lem = ap (completeness handlers) discover_lem

Checked-cases {ℓ} :
    {A : Type ℓ} (c : Checked A) → ((a : A) × (c ≡ done a)) ⊎ ((e : GenericError) × (c ≡ fatal e))
Checked-cases (done a) = inl (a, refl)
Checked-cases (fatal e) = inr (e, refl)

module _ {ℓ κ} {E : Type κ} {S : Type ℓ} (handlers : ℕ → HsmEvent E → S → S × Reaction) where
  loop_returns :
      (fuel : ℕ) (end superstate : State) (storage : List State) (complete : Bool) (members : S)
      → length storage ≤ max_state_depth
      → suc max_state_depth ≤ length storage + fuel
      → (r : Checked (S × StatePath)) × (discover_loop handlers fuel end superstate storage complete
            members
          ≡ some r)
  unfolding discover_loop
  loop_returns zero end superstate storage complete members fits enough = absurd (omega arith)
  loop_returns (suc fuel) end superstate storage complete members fits enough =
      let grown = length-append storage (superstate ∷ []) in
      elim (Bool-cases (same_state superstate top)) [
        | inl t ↦ rw (t, discover_loop) (_, refl)
        | inr t ↦ elim (Bool-cases (same_state superstate end)) [
          | inl e ↦ rw (t, e, discover_loop) (_, refl)
          | inr e ↦ elim (Bool-cases (length storage == 8)) [
            | inl f ↦ rw (t, e, f, discover_loop) (_, refl)
            | inr f ↦
                elim (Checked-cases
                  (expect_deferral (respond handlers superstate discovery members).1)) [
                    | inl (next, d) ↦
                        rw (t, e, f, d, discover_loop)
                          (loop_returns fuel end next (storage ++ (superstate ∷ [])) complete
                            (respond handlers superstate discovery members).0
                            (ground (arith, grown)) (omega (arith, grown)))
                    | inr (error, d) ↦ rw (t, e, f, d, discover_loop) (_, refl)
                  ]
          ]
        ]
      ]

  -- Path discovery returns, with a path or a fatal error, whatever the handlers do: the capacity
  -- of the path bounds its loop.
  pub discover_returns :
      (begin end : State) (members : S)
      → (r : Checked (S × StatePath)) × (discover handlers begin end members ≡ some r)
  unfolding discover
  discover_returns begin end members =
      elim (Checked-cases (expect_deferral (respond handlers begin discovery members).1)) [
        | inl (superstate, d) ↦
            rw (d, discover)
              (loop_returns max_state_depth end superstate (begin ∷ []) (same_state end top)
                (respond handlers begin discovery members).0 (omega arith) (omega arith))
        | inr (error, d) ↦ rw (d, discover) (_, refl)
      ]
