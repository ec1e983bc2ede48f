-- ===== src/Debounce/Tests.antt =====
-- A debouncer of three samples in eight bits.
use picolibrary.Common.{List, [], ◌∷◌, Bool, true, false, ◌≡◌, refl, arith}
use picolibrary.Debounce.{is_high}
use picolibrary.Debounce.Single.{debounce_history, settled, is_high-eq-settled}

abbrev bounce : List Bool
bounce = false ∷ true ∷ true ∷ true ∷ false ∷ true ∷ []

is_high-eq-settled_example : is_high (debounce_history 8 3 false bounce) ≡ settled 3 false bounce
is_high-eq-settled_example =
    is_high-eq-settled 8 3 false (omega arith) (omega arith) (omega arith) bounce

settled_high : settled 3 false bounce ≡ true
unfolding settled
settled_high = refl
