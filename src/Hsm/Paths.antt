-- ===== src/Hsm/Paths.antt =====
-- Paths of states as parts of the chains of superstates.
use mathlib.Core.Bool.{true≢false}
use mathlib.Core.List.{append_assoc, reverse, reverse-append, reverse-reverse}
use picolibrary.Common.{
  ℕ, ◌≡◌, ◌≢◌, refl, sym, ap, ap₂, subst, ◌∙◌, inl, inr, Bool, true, false, ◌||◌, Bool-cases, List,
  [], ◌∷◌, ◌++◌, arith,
}
use picolibrary.Hsm.{State, top, state, same_state}
use picolibrary.Hsm.Active.{same_state_self}
use picolibrary.Hsm.Chain.{Superstates, at_top, below, until, contains}
use picolibrary.Hsm.Run.{Ends, Ends-bind, Ends-map, returns}
use picolibrary.Hsm.Transition.{remove_common_loop, remove_common_superstates}

pub same_state-eq : (a b : State) → same_state a b ≡ true → a ≡ b
same_state-eq top top e = refl
same_state-eq top (state b) e = absurd (ground (arith, e))
same_state-eq (state a) top e = absurd (ground (arith, e))
same_state-eq (state a) (state b) e = let same : a ≡ b = ground arith in ap state same

-- The state `end` is one of `above`, or `top`: what `discover` reports as complete.
abbrev pub covers : State → List State → Bool
covers end above = contains end above || same_state end top

pub covers_top : (above : List State) → covers top above ≡ true
covers_top above = ground arith

pub contains_first : (s : State) (rest : List State) → contains s (s ∷ rest) ≡ true
unfolding contains
contains_first s rest = rw (same_state_self s) refl

pub contains-append :
    (s : State) (first rest : List State)
    → contains s rest ≡ true
    → contains s (first ++ rest) ≡ true
unfolding contains
contains-append s [] rest h = h
contains-append s (x ∷ first) rest h = elim (Bool-cases (same_state x s)) [
  | inl e ↦ rw e refl
  | inr e ↦ rw e (contains-append s first rest h)
]

covers_found :
    (end s : State) (above : List State) → same_state s end ≡ true → covers end (s ∷ above) ≡ true
unfolding contains
covers_found end s above e = rw e refl

pub covers_next :
    (end s : State) (above : List State)
    → same_state s end ≡ false
    → covers end (s ∷ above) ≡ covers end above
unfolding contains
covers_next end s above e = rw e refl

until_next :
    (end s : State) (above : List State)
    → same_state s end ≡ false
    → until end (s ∷ above) ≡ s ∷ until end above
unfolding until
until_next end s above e = rw e refl

pub until_all :
    (end : State) (above : List State) → covers end above ≡ false → until end above ≡ above
unfolding until
until_all end [] h = refl
until_all end (s ∷ above) h = elim (Bool-cases (same_state s end)) [
  | inl e ↦ absurd (true≢false (sym (covers_found end s above e) ∙ h))
  | inr e ↦
      until_next end s above e
      ∙ ap (λ rest. s ∷ rest) (until_all end above (sym (covers_next end s above e) ∙ h))
]

Superstates-unique :
    (parent : ℕ → State) (s : State) (first second : List State)
    → Superstates parent s first
    → Superstates parent s second
    → first ≡ second
Superstates-unique parent top first second at_top at_top = refl
Superstates-unique parent (state n) first second (below {above = a} lower)
      (below {above = b} upper) =
    ap (λ rest. state n ∷ rest) (Superstates-unique parent (parent n) a b lower upper)

-- `supers` has the chain of every state.
module _ (parent : ℕ → State) (supers : State → List State)
    (spans : (s : State) → Superstates parent s (supers s)) where
  pub supers-eq :
      (s : State) (states : List State) → Superstates parent s states → states ≡ supers s
  supers-eq s states chain = Superstates-unique parent s states (supers s) chain (spans s)

  pub supers-state : (n : ℕ) → state n ∷ supers (parent n) ≡ supers (state n)
  supers-state n = supers-eq (state n) (state n ∷ supers (parent n)) (below (spans (parent n)))

  pub until_chain :
      (end s : State) (above : List State)
      → Superstates parent s above
      → covers end above ≡ true
      → until end above ++ supers end ≡ above
  unfolding until contains
  until_chain end top above at_top h =
      subst (λ t. supers t ≡ []) (sym (same_state-eq end top h)) (sym (supers-eq top [] at_top))
  until_chain end (state n) above (below {above = rest} chain) h =
      elim (Bool-cases (same_state (state n) end)) [
        | inl e ↦ rw e (
            subst (λ t. supers t ≡ state n ∷ rest) (same_state-eq (state n) end e)
              (sym (supers-eq (state n) (state n ∷ rest) (below chain))))
        | inr e ↦
            ap (λ states. states ++ supers end) (until_next end (state n) rest e)
            ∙ ap (λ states. state n ∷ states)
                (until_chain end (parent n) rest chain (sym (covers_next end (state n) rest e) ∙ h))
      ]

  -- The path from a state to one above it, with the chain of the latter behind it.
  pub path-append :
      (n : ℕ) (end : State)
      → covers end (supers (parent n)) ≡ true
      → (state n ∷ until end (supers (parent n))) ++ supers end ≡ supers (state n)
  path-append n end h =
      ap (λ states. state n ∷ states)
        (until_chain end (parent n) (supers (parent n)) (spans (parent n)) h)
      ∙ supers-state n

  -- The path from a state to one that is not above it.
  pub path_all :
      (n : ℕ) (end : State)
      → covers end (supers (parent n)) ≡ false
      → state n ∷ until end (supers (parent n)) ≡ supers (state n)
  path_all n end h =
      ap (λ states. state n ∷ states) (until_all end (supers (parent n)) h) ∙ supers-state n

  pub covers-append :
      (k : ℕ) (path states : List State)
      → states ≡ path ++ supers (state k)
      → covers (state k) states ≡ true
  covers-append k path states e =
      let found = contains-append (state k) path (supers (state k)) (
        subst (λ chain. contains (state k) chain ≡ true) (supers-state k)
          (contains_first (state k) (supers (parent k)))) in
      subst (λ chain. covers (state k) chain ≡ true) (sym e) (rw found refl)

  above-parent :
      (n : ℕ) (s : State) (path states : List State)
      → parent n ≡ s
      → states ≡ path ++ supers (state n)
      → covers s states ≡ true
  above-parent n top path states p e = covers_top states
  above-parent n (state k) path states p e = covers-append k (path ++ (state n ∷ [])) states (
      e
      ∙ ap (λ chain. path ++ chain) (sym (supers-state n) ∙ ap (λ s. state n ∷ supers s) p)
      ∙ sym (append_assoc path (state n ∷ []) (supers (state k))))

  pub covers-parent_above :
      (s : State) (n : ℕ) → covers (state n) (supers s) ≡ true → covers (parent n) (supers s) ≡ true
  covers-parent_above s n h =
      above-parent n (parent n) (until (state n) (supers s)) (supers s) refl
        (sym (until_chain (state n) s (supers s) (spans s) h))

  pub not_below :
      (n k : ℕ)
      → same_state (state n) (state k) ≡ false
      → covers (state k) (supers (parent n)) ≡ false
      → (path : List State) → supers (state n) ≢ path ++ supers (state k)
  not_below n k differs h path e =
      let found = covers-append k path (supers (state n)) e in
      true≢false (
        sym found
        ∙ ap (covers (state k)) (sym (supers-state n))
        ∙ covers_next (state k) (state n) (supers (parent n)) differs
        ∙ h)

-- Two lists that begin with different states.
abbrev pub Apart : List State → List State → Type 0
Apart (x ∷ first) (y ∷ second) = same_state x y ≡ false
Apart _ _ = ⊥

-- Two paths as `remove_common_superstates` leaves them: what was removed is common, and they end in
-- different states.
abbrev pub Separates : List State → List State → List State × List State → Type 0
Separates first second (xs, ys) =
    (common : List State) × ((first ≡ xs ++ common)
      × ((second ≡ ys ++ common) × Apart (reverse xs) (reverse ys)))

abbrev Parts : List State → List State → List State × List State → Type 0
Parts first second (xs, ys) =
    (common : List State) × ((first ≡ common ++ xs) × ((second ≡ common ++ ys) × Apart xs ys))

common_loop-Ends :
    (W : Type 0) (first second : List State)
    → ((rest : List State) → second ≢ first ++ rest)
    → ((rest : List State) → first ≢ second ++ rest)
    → Ends W (Parts first second) (remove_common_loop first second)
unfolding remove_common_loop
common_loop-Ends W [] second short long = absurd (short second refl)
common_loop-Ends W (x ∷ first) [] short long = absurd (long (x ∷ first) refl)
common_loop-Ends W (x ∷ first) (y ∷ second) short long = elim (Bool-cases (same_state x y)) [
  | inl e ↦
      let same = same_state-eq x y e in
      rw e (
        Ends-map W (Parts first second) (Parts (x ∷ first) (y ∷ second))
          (remove_common_loop first second)
          (common_loop-Ends W first second (λ rest h. short rest (ap₂ (λ a b. a ∷ b) (sym same) h))
            (λ rest h. long rest (ap₂ (λ a b. a ∷ b) same h)))
          (λ (xs, ys) (common, (h, (k, apart))).
            (x ∷ common, (ap (λ t. x ∷ t) h, (ap₂ (λ a b. a ∷ b) (sym same) k, apart)))))
  | inr e ↦ rw e ([], (refl, (refl, e)))
]

reverse-part :
    (states xs ys : List State) → reverse states ≡ xs ++ ys → states ≡ reverse ys ++ reverse xs
reverse-part states xs ys e = sym (reverse-reverse states) ∙ ap reverse e ∙ reverse-append xs ys

pub remove_common_superstates-Ends :
    (W : Type 0) (first second : List State)
    → ((path : List State) → second ≢ path ++ first)
    → ((path : List State) → first ≢ path ++ second)
    → Ends W (Separates first second) (remove_common_superstates first second)
unfolding remove_common_superstates
remove_common_superstates-Ends W first second short long =
    Ends-bind W (Parts (reverse first) (reverse second)) (Separates first second)
      (remove_common_loop (reverse first) (reverse second))
      (λ (xs, ys). returns (reverse xs, reverse ys))
      (common_loop-Ends W (reverse first) (reverse second)
        (λ rest e. short (reverse rest) (
          reverse-part second (reverse first) rest e
          ∙ ap (λ t. reverse rest ++ t) (reverse-reverse first)))
        (λ rest e. long (reverse rest) (
          reverse-part first (reverse second) rest e
          ∙ ap (λ t. reverse rest ++ t) (reverse-reverse second))))
      (λ (xs, ys) (common, (e, (g, apart))). (
        reverse common,
        (
          reverse-part first common xs e,
          (
            reverse-part second common ys g,
            subst (λ t. Apart t (reverse (reverse ys))) (sym (reverse-reverse xs))
                (subst (Apart xs) (sym (reverse-reverse ys)) apart),
          ),
        ),
      ))
