-- ===== src/Hsm/Disjoint.antt =====
-- No state is its own superstate: a path and the chain behind it have no state in common.
use mathlib.Core.Bool.{true≢false}
use mathlib.Core.List.{reverse, reverse-append, reverse-reverse}
use picolibrary.Common.{
  ℕ, suc, ◌<◌, ◌≡◌, refl, sym, ap, ap₂, subst, ◌∙◌, inl, inr, true, false, Bool-cases, List, [],
  ◌∷◌, ◌++◌, drop, length, length-append, arith,
}
use picolibrary.Hsm.{State, top, state, same_state}
use picolibrary.Hsm.Active.{same_state_self, Superstates-uncons}
use picolibrary.Hsm.Chain.{Superstates, below, until, contains}
use picolibrary.Hsm.Paths.{same_state-eq, supers-eq, until_chain, Apart}

abbrev first_or_top : List State → State
first_or_top [] = top
first_or_top (x ∷ xs) = x

pub contains_next :
    (end s : State) (above : List State)
    → same_state s end ≡ false
    → contains end (s ∷ above) ≡ contains end above
unfolding contains
contains_next end s above e = rw e refl

Superstates-first :
    {parent : ℕ → State} (s x : State) (states : List State)
    → Superstates parent s (x ∷ states)
    → Superstates parent x (x ∷ states)
Superstates-first s x states (below chain) = below chain

-- What begins two lists that part with different states is in what they have in common.
common-prefix :
    (common prefix first second u v : List State)
    → common ++ first ≡ prefix ++ u
    → common ++ second ≡ prefix ++ v
    → Apart first second
    → (rest : List State) × (common ≡ prefix ++ rest)
common-prefix common [] first second u v e g apart = (common, refl)
common-prefix [] (p ∷ prefix) [] second u v e g apart = absurd apart
common-prefix [] (p ∷ prefix) (x ∷ first) [] u v e g apart = absurd apart
common-prefix [] (p ∷ prefix) (x ∷ first) (y ∷ second) u v e g apart =
    let same = ap first_or_top e ∙ sym (ap first_or_top g) in
    absurd (true≢false (sym (same_state_self x) ∙ ap (same_state x) same ∙ apart))
common-prefix (c ∷ common) (p ∷ prefix) first second u v e g apart =
    let (rest, same) =
      common-prefix common prefix first second u v (ap (drop 1) e) (ap (drop 1) g) apart in
    (rest, ap₂ (λ a b. a ∷ b) (ap first_or_top e) same)

module _ (parent : ℕ → State) (supers : State → List State)
    (spans : (s : State) → Superstates parent s (supers s)) where
  -- The part of a chain before a state that is in it.
  pub before_in :
      (m : ℕ) (t : State) (chain : List State)
      → Superstates parent t chain
      → contains (state m) chain ≡ true
      → (first : List State) × (chain ≡ first ++ supers (state m))
  before_in m t chain above h = (
    until (state m) chain,
    sym (until_chain parent supers spans (state m) t chain above (rw h refl)),
  )

  before_in_path :
      (m : ℕ) (t : State) (path rest : List State)
      → Superstates parent t (path ++ rest)
      → contains (state m) path ≡ true
      → (first : List State) × ((path ++ rest ≡ first ++ supers (state m))
          × (length first < length path))
  unfolding contains
  before_in_path m t [] rest above h = absurd (true≢false (sym h))
  before_in_path m t (x ∷ path) rest above h = elim (Bool-cases (same_state x (state m))) [
    | inl e ↦
        let chain = x ∷ (path ++ rest) in
        let whole : chain ≡ supers (state m) = supers-eq parent supers spans (state m) chain (
          subst (λ s. Superstates parent s chain) (same_state-eq x (state m) e)
            (Superstates-first t x (path ++ rest) above)) in
        let short : 0 < suc (length path) = omega arith in ([], (whole, short))
    | inr e ↦
        let (next, upper) = Superstates-uncons t x (path ++ rest) above in
        let (first, (same, short)) =
          before_in_path m next path rest upper (sym (contains_next (state m) x path e) ∙ h) in
        (x ∷ first, (ap (λ s. x ∷ s) same, omega arith))
  ]

  -- A state of the chain behind a path is not on the path.
  pub disjoint_lem :
      (m : ℕ) (t : State) (path rest second : List State)
      → Superstates parent t (path ++ rest)
      → rest ≡ second ++ supers (state m)
      → contains (state m) path ≡ false
  disjoint_lem m t path rest second above behind = elim (Bool-cases (contains (state m) path)) [
    | inr e ↦ e
    | inl e ↦
        let (first, (same, short)) = before_in_path m t path rest above e in
        let one = ap length same in
        let two = ap length behind in
        absurd (
          omega (
            arith,
            length-append path rest,
            length-append first (supers (state m)),
            length-append second (supers (state m)),
          ))
  ]

  -- A state of two chains is in what they have in common.
  pub common_lem :
      (m k n : ℕ) (xs ys common : List State)
      → supers (state k) ≡ xs ++ common
      → supers (state n) ≡ ys ++ common
      → Apart (reverse xs) (reverse ys)
      → contains (state m) (supers (state k)) ≡ true
      → contains (state m) (supers (state n)) ≡ true
      → (first : List State) × (common ≡ first ++ supers (state m))
  common_lem m k n xs ys common e f apart h g =
      let (first, one) = before_in m (state k) (supers (state k)) (spans (state k)) h in
      let (second, two) = before_in m (state n) (supers (state n)) (spans (state n)) g in
      let (rest, same) =
        common-prefix (reverse common) (reverse (supers (state m))) (reverse xs) (reverse ys)
          (reverse first) (reverse second)
          (sym (reverse-append xs common)
            ∙ ap reverse (sym e ∙ one)
            ∙ reverse-append first (supers (state m)))
          (sym (reverse-append ys common)
            ∙ ap reverse (sym f ∙ two)
            ∙ reverse-append second (supers (state m)))
          apart in
      (
        reverse rest,
        sym (reverse-reverse common)
            ∙ ap reverse same
            ∙ reverse-append (reverse (supers (state m))) rest
            ∙ ap (λ t. reverse rest ++ t) (reverse-reverse (supers (state m))),
      )
