-- ===== src/Hsm/Active.antt =====
-- Entry and exit events against the state hierarchy: the states that are active, and the entry and
-- exit of a path.
use picolibrary.Common.{
  ℕ, ◌≡◌, refl, ap, ◌∙◌, true, false, Option, none, some, List, [], ◌∷◌, ◌++◌, arith,
}
use picolibrary.Hsm.{
  State, top, state, same_state, HsmEvent, discovery, entry, exit, nested_initial_transition, event,
  Reaction, event_handled, state_transition_triggered, event_handling_deferred_to_superstate,
  event_ignored, respond,
}
use picolibrary.Hsm.Chain.{Superstates, at_top, below}
use picolibrary.Hsm.Run.{Ends, Ends-bind}
use picolibrary.Hsm.Transition.{accept_action, enter_state, enter_path, exit_state, exit_path}

-- What a state has been told.
pub data Notice : Type 0 where
  entered exited : ℕ → Notice

unfoldable pub noted {κ} : {E : Type κ} → ℕ → HsmEvent E → List Notice → List Notice
noted n discovery log = log
noted n entry log = entered n ∷ log
noted n exit log = exited n ∷ log
noted n nested_initial_transition log = log
noted n (event e) log = log

-- The handlers, with a log of the entry and exit events, the newest first.
unfoldable pub logged {ℓ κ} :
    {E : Type κ} {S : Type ℓ}
    → (ℕ → HsmEvent E → S → S × Reaction)
    → ℕ
    → HsmEvent E
    → List Notice × S
    → (List Notice × S) × Reaction
unfolding noted
logged handlers n e (log, members) =
    let (next, reaction) = handlers n e members in ((noted n e log, next), reaction)

innermost : List State → State
innermost [] = top
innermost (s ∷ states) = s

after_entry : (ℕ → State) → ℕ → Option (List State) → Option (List State)
unfolding innermost
after_entry parent n none = none
after_entry parent n (some states) = elim (same_state (innermost states) (parent n)) [
  | true ↦ some (state n ∷ states)
  | false ↦ none
]

after_exit : ℕ → Option (List State) → Option (List State)
after_exit n none = none
after_exit n (some []) = none
after_exit n (some (s ∷ states)) = elim (same_state s (state n)) [
  | true ↦ some states
  | false ↦ none
]

-- The states that have been entered and not exited, the innermost first. `none`: a state was
-- entered when its superstate was not the innermost active one, or exited when it was not itself.
unfoldable pub active : (ℕ → State) → List Notice → Option (List State)
unfolding after_entry after_exit
active parent [] = some []
active parent (entered n ∷ log) = after_entry parent n (active parent log)
active parent (exited n ∷ log) = after_exit n (active parent log)

-- A reaction to an entry or exit event that is expected, or `W`.
abbrev pub Accepts : Type 0 → Reaction → Type 0
Accepts W event_handled = Unit
Accepts W (event_handling_deferred_to_superstate superstate) = Unit
Accepts W (state_transition_triggered target) = W
Accepts W event_ignored = W

pub same_state_self : (s : State) → same_state s s ≡ true
same_state_self top = refl
same_state_self (state n) = ground arith

pub accept-Ends {ℓ} :
    {S : Type ℓ} (W : Type 0) (Q : S → Type 0) (answer : S × Reaction)
    → Accepts W answer.1
    → Q answer.0
    → Ends W Q (accept_action answer)
unfolding accept_action
accept-Ends W Q (members, event_handled) a q = q
accept-Ends W Q (members, event_handling_deferred_to_superstate superstate) a q = q
accept-Ends W Q (members, state_transition_triggered target) a q = a
accept-Ends W Q (members, event_ignored) a q = a

innermost-eq :
    {parent : ℕ → State} {s : State} {states : List State}
    → Superstates parent s states
    → innermost states ≡ s
unfolding innermost
innermost-eq at_top = refl
innermost-eq (below chain) = refl

after_entry-eq :
    (parent : ℕ → State) (n : ℕ) (states : List State)
    → Superstates parent (parent n) states
    → after_entry parent n (some states) ≡ some (state n ∷ states)
unfolding after_entry
after_entry-eq parent n states chain =
    rw (innermost-eq chain, same_state_self (parent n), after_entry) refl

after_exit-eq : (n : ℕ) (states : List State) → after_exit n (some (state n ∷ states)) ≡ some states
unfolding after_exit
after_exit-eq n states = rw (same_state_self (state n), after_exit) refl

pub Superstates-uncons :
    {parent : ℕ → State} (s x : State) (states : List State)
    → Superstates parent s (x ∷ states)
    → (next : State) × Superstates parent next states
Superstates-uncons s x states (below chain) = (_, chain)

pub top-not_Superstates :
    {parent : ℕ → State} (s : State) (states : List State) → ¬ Superstates parent s (top ∷ states)
top-not_Superstates s states chain = elim chain [ ]

module _ {ℓ κ} {E : Type κ} {S : Type ℓ} (handlers : ℕ → HsmEvent E → S → S × Reaction)
    (parent : ℕ → State) (W : Type 0)
    (enters : (n : ℕ) (members : S) → Accepts W (handlers n entry members).1)
    (exits : (n : ℕ) (members : S) → Accepts W (handlers n exit members).1) where
  pub enter_state-Ends :
      (x s : State) (states : List State) (log : List Notice) (members : S)
      → Superstates parent x (s ∷ states)
      → active parent log ≡ some states
      → Ends W
          (λ x. active parent x.0 ≡ some (s ∷ states))
          (enter_state (logged handlers) s (log, members))
  unfolding enter_state respond logged noted active
  enter_state-Ends top s states log members chain h = elim chain [ ]
  enter_state-Ends (state n) s states log members (below chain) h =
      accept-Ends W (λ x. active parent x.0 ≡ some (state n ∷ states))
        (logged handlers n entry (log, members)) (enters n members)
        (ap (after_entry parent n) h ∙ after_entry-eq parent n states chain)

  pub exit_state-Ends :
      (n : ℕ) (states : List State) (log : List Notice) (members : S)
      → active parent log ≡ some (state n ∷ states)
      → Ends W
          (λ x. active parent x.0 ≡ some states)
          (exit_state (logged handlers) (state n) (log, members))
  unfolding exit_state respond logged noted active
  exit_state-Ends n states log members h =
      accept-Ends W (λ x. active parent x.0 ≡ some states) (logged handlers n exit (log, members))
        (exits n members) (ap (after_exit n) h ∙ after_exit-eq n states)

  pub enter_path-Ends :
      (path rest : List State) (s : State) (log : List Notice) (members : S)
      → Superstates parent s (path ++ rest)
      → active parent log ≡ some rest
      → Ends W
          (λ x. active parent x.0 ≡ some (path ++ rest))
          (enter_path (logged handlers) path (log, members))
  unfolding enter_path
  enter_path-Ends [] rest s log members chain h = h
  enter_path-Ends (x ∷ path) rest s log members chain h =
      let (next, upper) = Superstates-uncons s x (path ++ rest) chain in
      Ends-bind W (λ (y : List Notice × S). active parent y.0 ≡ some (path ++ rest))
        (λ y. active parent y.0 ≡ some (x ∷ (path ++ rest)))
        (enter_path (logged handlers) path (log, members)) (enter_state (logged handlers) x)
        (enter_path-Ends path rest next log members upper h)
        (λ (seen, found) q. enter_state-Ends s x (path ++ rest) seen found chain q)

  pub exit_path-Ends :
      (path rest : List State) (s : State) (log : List Notice) (members : S)
      → Superstates parent s (path ++ rest)
      → active parent log ≡ some (path ++ rest)
      → Ends W
          (λ x. active parent x.0 ≡ some rest)
          (exit_path (logged handlers) path (log, members))
  unfolding exit_path
  exit_path-Ends [] rest s log members chain h = h
  exit_path-Ends (top ∷ path) rest s log members chain h =
      absurd (top-not_Superstates s (path ++ rest) chain)
  exit_path-Ends (state n ∷ path) rest s log members chain h =
      let (next, upper) = Superstates-uncons s (state n) (path ++ rest) chain in
      Ends-bind W (λ (y : List Notice × S). active parent y.0 ≡ some (path ++ rest))
        (λ y. active parent y.0 ≡ some rest) (exit_state (logged handlers) (state n) (log, members))
        (exit_path (logged handlers) path) (exit_state-Ends n (path ++ rest) log members h)
        (λ (seen, found) q. exit_path-Ends path rest next seen found upper q)
