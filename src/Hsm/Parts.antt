-- ===== src/Hsm/Parts.antt =====
-- Handlers over a state hierarchy, and the entry and exit of a part of a chain of superstates.
use picolibrary.Common.{ℕ, ◌≡◌, ◌<◌, sym, ap, subst, ◌∙◌, some, List, ◌∷◌, ◌++◌, length}
use picolibrary.Expectation.{done}
use picolibrary.Hsm.{
  State, top, state, HsmEvent, discovery, entry, exit, Reaction,
  event_handling_deferred_to_superstate, max_state_depth, discover,
}
use picolibrary.Hsm.Active.{Accepts, Notice, logged, active, enter_path-Ends, exit_path-Ends}
use picolibrary.Hsm.Chain.{Superstates, until, covered, discover_lem}
use picolibrary.Hsm.Paths.{covers}
use picolibrary.Hsm.Run.{Ends}
use picolibrary.Hsm.Transition.{enter_path, exit_path}

-- Handlers over a hierarchy of states: discovery is deferred to the superstate and changes nothing,
-- and no state is deeper than a path is long. `supers` has the chain of every state.
pub record Hierarchy {ℓ κ} {E : Type κ} {S : Type ℓ} (handlers : ℕ → HsmEvent E → S → S × Reaction)
    (parent : ℕ → State) (supers : State → List State) : Type ℓ where
  pub discovers :
      (n : ℕ) (members : S)
      → handlers n discovery members ≡ (members, event_handling_deferred_to_superstate (parent n))
  pub spans : (s : State) → Superstates parent s (supers s)
  pub depth : (n : ℕ) → length (supers (parent n)) < max_state_depth

-- A target that is a state, or `W`.
abbrev pub Proper : Type 0 → State → Type 0
Proper W top = W
Proper W (state n) = Unit

-- `W` admits errors, or the reactions to entry and exit events are expected.
pub record Acts {ℓ κ} {E : Type κ} {S : Type ℓ} (W : Type 0)
    (handlers : ℕ → HsmEvent E → S → S × Reaction) : Type ℓ where
  pub enters : (n : ℕ) (members : S) → Accepts W (handlers n entry members).1
  pub exits : (n : ℕ) (members : S) → Accepts W (handlers n exit members).1

module _ {ℓ κ} {E : Type κ} {S : Type ℓ} (handlers : ℕ → HsmEvent E → S → S × Reaction)
    (parent : ℕ → State) (supers : State → List State) (H : Hierarchy handlers parent supers)
    (W : Type 0) (acts : Acts W handlers) where
  logged-eq :
      (n : ℕ) (seen : List Notice × S)
      → logged handlers n discovery seen ≡ (seen, event_handling_deferred_to_superstate (parent n))
  unfolding logged
  logged-eq n (log, members) = ap (λ (r : S × Reaction). ((log, r.0), r.1)) (H.discovers n members)

  pub discover-eq :
      (n : ℕ) (end : State) (seen : List Notice × S)
      → discover (logged handlers) (state n) end seen
        ≡ some (
            done (
              seen,
              record {
                m_storage = state n ∷ until end (supers (parent n));
                m_is_complete = covers end (supers (parent n));
              },
            ))
  unfolding covered
  discover-eq n end seen =
      discover_lem (logged handlers) parent logged-eq n (supers (parent n)) (H.spans (parent n))
        (H.depth n) end seen

  -- The log shows the states of a chain active, and no others.
  abbrev pub Shows : List State → List Notice × S → Type 0
  Shows states seen = active parent seen.0 ≡ some states

  pub exit_part :
      (path rest : List State) (s : State) (seen : List Notice × S)
      → path ++ rest ≡ supers s
      → Shows (supers s) seen
      → Ends W (Shows rest) (exit_path (logged handlers) path seen)
  exit_part path rest s (log, members) e h =
      exit_path-Ends handlers parent W acts.enters acts.exits path rest s log members
        (subst (Superstates parent s) (sym e) (H.spans s)) (h ∙ ap some (sym e))

  pub enter_part :
      (path rest : List State) (s : State) (seen : List Notice × S)
      → path ++ rest ≡ supers s
      → Shows rest seen
      → Ends W (Shows (supers s)) (enter_path (logged handlers) path seen)
  enter_part path rest s (log, members) e h =
      subst (λ states. Ends W (Shows states) (enter_path (logged handlers) path (log, members))) e
        (enter_path-Ends handlers parent W acts.enters acts.exits path rest s log members
          (subst (Superstates parent s) (sym e) (H.spans s)) h)
