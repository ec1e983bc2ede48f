-- ===== src/Hsm/Shared.antt =====
-- The states that the source and the target of a transition are both in.
use mathlib.Core.Bool.{true≢false}
use picolibrary.Common.{
  ℕ, ◌≡◌, refl, sym, subst, ◌∙◌, inl, inr, true, false, ◌==◌, Bool-cases, if◌then◌else◌, List, [],
  ◌∷◌, ◌++◌, arith,
}
use picolibrary.Hsm.{State, top, state, same_state, HsmEvent, entry, exit, Reaction, respond}
use picolibrary.Hsm.Active.{
  Notice, entered, exited, logged, noted, accept-Ends, Superstates-uncons, top-not_Superstates,
}
use picolibrary.Hsm.Chain.{Superstates, until, contains}
use picolibrary.Hsm.Disjoint.{before_in, disjoint_lem, common_lem, contains_next}
use picolibrary.Hsm.Parts.{Hierarchy, Acts, discover-eq}
use picolibrary.Hsm.Paths.{
  covers, path-append, path_all, not_below, Separates, remove_common_superstates-Ends,
}
use picolibrary.Hsm.Run.{Ends, Ends-bind, returns, ◌>>=◌}
use picolibrary.Hsm.Transition.{
  enter_state, enter_path, exit_state, exit_path, remove_common_superstates, source_to_target,
  exit_and_enter, separate, discover_source,
}

-- What a log says of one state.
abbrev pub about : ℕ → List Notice → List Notice
about m [] = []
about m (entered n ∷ log) = let rest = about m log in if n == m then entered n ∷ rest else rest
about m (exited n ∷ log) = let rest = about m log in if n == m then exited n ∷ rest else rest

module _ {ℓ κ} {E : Type κ} {S : Type ℓ} (handlers : ℕ → HsmEvent E → S → S × Reaction)
    (parent : ℕ → State) (supers : State → List State) (H : Hierarchy handlers parent supers)
    (W : Type 0) (acts : Acts W handlers) (m : ℕ) where
  -- The log says the same of the state `m`.
  abbrev pub Keeps : List Notice → List Notice × S → Type 0
  Keeps log seen = about m seen.0 ≡ about m log

  enter_state-Keeps :
      (n : ℕ) (seen : List Notice × S) (log : List Notice)
      → (n == m) ≡ false
      → Keeps log seen
      → Ends W (Keeps log) (enter_state (logged handlers) (state n) seen)
  unfolding enter_state respond logged noted
  enter_state-Keeps n (now, members) log e h =
      accept-Ends W (Keeps log) (logged handlers n entry (now, members)) (acts.enters n members)
        (rw e h)

  exit_state-Keeps :
      (n : ℕ) (seen : List Notice × S) (log : List Notice)
      → (n == m) ≡ false
      → Keeps log seen
      → Ends W (Keeps log) (exit_state (logged handlers) (state n) seen)
  unfolding exit_state respond logged noted
  exit_state-Keeps n (now, members) log e h =
      accept-Ends W (Keeps log) (logged handlers n exit (now, members)) (acts.exits n members)
        (rw e h)

  absent_first :
      (x : State) (path : List State)
      → contains (state m) (x ∷ path) ≡ false
      → same_state x (state m) ≡ false
  unfolding contains
  absent_first x path h = elim (Bool-cases (same_state x (state m))) [
    | inl e ↦ absurd (true≢false (sym (rw e refl) ∙ h))
    | inr e ↦ e
  ]

  absent_rest :
      (x : State) (path : List State)
      → contains (state m) (x ∷ path) ≡ false
      → contains (state m) path ≡ false
  absent_rest x path h = sym (contains_next (state m) x path (absent_first x path h)) ∙ h

  enter_path-Keeps :
      (path rest : List State) (t : State) (seen : List Notice × S) (log : List Notice)
      → Superstates parent t (path ++ rest)
      → contains (state m) path ≡ false
      → Keeps log seen
      → Ends W (Keeps log) (enter_path (logged handlers) path seen)
  unfolding enter_path
  enter_path-Keeps [] rest t seen log above h k = k
  enter_path-Keeps (top ∷ path) rest t seen log above h k =
      absurd (top-not_Superstates t (path ++ rest) above)
  enter_path-Keeps (state n ∷ path) rest t seen log above h k =
      let (next, upper) = Superstates-uncons t (state n) (path ++ rest) above in
      Ends-bind W (Keeps log) (Keeps log) (enter_path (logged handlers) path seen)
        (enter_state (logged handlers) (state n))
        (enter_path-Keeps path rest next seen log upper (absent_rest (state n) path h) k)
        (λ found q. enter_state-Keeps n found log (absent_first (state n) path h) q)

  exit_path-Keeps :
      (path rest : List State) (t : State) (seen : List Notice × S) (log : List Notice)
      → Superstates parent t (path ++ rest)
      → contains (state m) path ≡ false
      → Keeps log seen
      → Ends W (Keeps log) (exit_path (logged handlers) path seen)
  unfolding exit_path
  exit_path-Keeps [] rest t seen log above h k = k
  exit_path-Keeps (top ∷ path) rest t seen log above h k =
      absurd (top-not_Superstates t (path ++ rest) above)
  exit_path-Keeps (state n ∷ path) rest t seen log above h k =
      let (next, upper) = Superstates-uncons t (state n) (path ++ rest) above in
      Ends-bind W (Keeps log) (Keeps log) (exit_state (logged handlers) (state n) seen)
        (exit_path (logged handlers) path)
        (exit_state-Keeps n seen log (absent_first (state n) path h) k)
        (λ found q. exit_path-Keeps path rest next found log upper (absent_rest (state n) path h) q)

  -- A path of one chain, where the state is in the rest of the chain.
  chain_at :
      (path rest : List State) (s : State)
      → path ++ rest ≡ supers s
      → Superstates parent s (path ++ rest)
  chain_at path rest s e = subst (Superstates parent s) (sym e) (H.spans s)

  absent_path :
      (path : List State) (s end : State)
      → path ++ supers end ≡ supers s
      → contains (state m) (supers end) ≡ true
      → contains (state m) path ≡ false
  absent_path path s end e h =
      let (second, behind) = before_in parent supers H.spans m end (supers end) (H.spans end) h in
      disjoint_lem parent supers H.spans m s path (supers end) second
        (chain_at path (supers end) s e) behind

  part-Keeps :
      (k n : ℕ) (log : List Notice) (members : S)
      → same_state (state n) (state k) ≡ false
      → covers (state k) (supers (parent n)) ≡ false
      → covers (state n) (supers (parent k)) ≡ false
      → contains (state m) (supers (state k)) ≡ true
      → contains (state m) (supers (state n)) ≡ true
      → Ends W (Keeps log) (
          remove_common_superstates (supers (state k)) (supers (state n)) >>= λ (exits, entries).
          (exit_path (logged handlers) exits (log, members) >>= λ exited.
          enter_path (logged handlers) entries exited))
  part-Keeps k n log members differs h g in_source in_target =
      Ends-bind W (Separates (supers (state k)) (supers (state n))) (Keeps log)
        (remove_common_superstates (supers (state k)) (supers (state n)))
        (λ (exits, entries).
          (exit_path (logged handlers) exits (log, members) >>= λ exited.
          enter_path (logged handlers) entries exited))
        (remove_common_superstates-Ends W (supers (state k)) (supers (state n))
          (not_below parent supers H.spans n k differs h)
          (not_below parent supers H.spans k n (ground (arith, differs)) g))
        (λ (exits, entries) (common, (e, (f, apart))).
          let (second, behind) =
            common_lem parent supers H.spans m k n exits entries common e f apart in_source
              in_target in
          let left = chain_at exits common (state k) (sym e) in
          let right = chain_at entries common (state n) (sym f) in
          Ends-bind W (Keeps log) (Keeps log) (exit_path (logged handlers) exits (log, members))
            (enter_path (logged handlers) entries)
            (exit_path-Keeps exits common (state k) (log, members) log left
              (disjoint_lem parent supers H.spans m (state k) exits common second left behind) refl)
            (λ exited q.
              enter_path-Keeps entries common (state n) exited log right
                (disjoint_lem parent supers H.spans m (state n) entries common second right behind)
                q))

  pub keep_shared :
      (k n : ℕ) (log : List Notice) (members : S)
      → same_state (state n) (state k) ≡ false
      → contains (state m) (supers (state k)) ≡ true
      → contains (state m) (supers (state n)) ≡ true
      → Ends W (Keeps log) (source_to_target (logged handlers) (state k) (state n) (log, members))
  unfolding source_to_target discover_source exit_and_enter separate
  keep_shared k n log members differs in_source in_target =
      elim (Bool-cases (covers (state k) (supers (parent n)))) [
        | inl h ↦
            let path = state n ∷ until (state k) (supers (parent n)) in
            let whole = path-append parent supers H.spans n (state k) h in
            rw (differs, discover-eq handlers parent supers H W acts n (state k) (log, members), h)
              (enter_path-Keeps path (supers (state k)) (state n) (log, members) log
                (chain_at path (supers (state k)) (state n) whole)
                (absent_path path (state n) (state k) whole in_source) refl)
        | inr h ↦ elim (Bool-cases (covers (state n) (supers (parent k)))) [
          | inl g ↦
              let path = state k ∷ until (state n) (supers (parent k)) in
              let whole = path-append parent supers H.spans k (state n) g in
              rw
                (
                  differs,
                  discover-eq handlers parent supers H W acts n (state k) (log, members),
                  h,
                  discover-eq handlers parent supers H W acts k (state n) (log, members),
                  g,
                )
                (Ends-bind W (Keeps log) (Keeps log)
                  (exit_path (logged handlers) path (log, members)) (λ exited. returns exited)
                  (exit_path-Keeps path (supers (state n)) (state k) (log, members) log
                    (chain_at path (supers (state n)) (state k) whole)
                    (absent_path path (state k) (state n) whole in_target) refl)
                  (λ exited q. q))
          | inr g ↦
              rw
                (
                  differs,
                  discover-eq handlers parent supers H W acts n (state k) (log, members),
                  h,
                  discover-eq handlers parent supers H W acts k (state n) (log, members),
                  g,
                  path_all parent supers H.spans n (state k) h,
                  path_all parent supers H.spans k (state n) g,
                )
                (part-Keeps k n log members differs h g in_source in_target)
        ]
      ]
