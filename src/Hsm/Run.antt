-- ===== src/Hsm/Run.antt =====
-- A computation that may end in a fatal error, take more rounds than it is given, or reach behaviour
-- that C++ leaves undefined.
use picolibrary.Common.{◌≡◌, refl, Option, none, some}
use picolibrary.Expectation.{GenericError, Checked, done, fatal}

pub data Run {ℓ} (A : Type ℓ) : Type ℓ where
  returns : A → Run A
  fails : GenericError → Run A
  out_of_fuel undefined : Run A

infixl 5 ◌>>=◌
abbrev pub ◌>>=◌ {ℓ κ} : {A : Type ℓ} {B : Type κ} → Run A → (A → Run B) → Run B
returns a >>= f = f a
fails e >>= f = fails e
out_of_fuel >>= f = out_of_fuel
undefined >>= f = undefined

abbrev pub checked {ℓ} : {A : Type ℓ} → Checked A → Run A
checked (done a) = returns a
checked (fatal e) = fails e

abbrev pub searched {ℓ} : {A : Type ℓ} → Option (Checked A) → Run A
searched none = out_of_fuel
searched (some r) = checked r

-- What a computation returns satisfies `P`, and it reaches no undefined behaviour. `W` is what it
-- takes to end in an error or out of fuel: `Unit` admits it, and `⊥` does not.
abbrev pub Ends {ℓ} : {A : Type ℓ} → Type 0 → (A → Type 0) → Run A → Type 0
Ends W P (returns a) = P a
Ends W P (fails e) = W
Ends W P out_of_fuel = W
Ends W P undefined = ⊥

pub Ends-bind {ℓ κ} :
    {A : Type ℓ} {B : Type κ} (W : Type 0) (Q : A → Type 0) (P : B → Type 0) (m : Run A)
    (f : A → Run B)
    → Ends W Q m
    → ((a : A) → Q a → Ends W P (f a))
    → Ends W P (m >>= f)
Ends-bind W Q P (returns a) f q h = h a q
Ends-bind W Q P (fails e) f q h = q
Ends-bind W Q P out_of_fuel f q h = q
Ends-bind W Q P undefined f q h = absurd q

pub Ends-map {ℓ} :
    {A : Type ℓ} (W : Type 0) (Q P : A → Type 0) (m : Run A)
    → Ends W Q m
    → ((a : A) → Q a → P a)
    → Ends W P m
Ends-map W Q P (returns a) q h = h a q
Ends-map W Q P (fails e) q h = q
Ends-map W Q P out_of_fuel q h = q
Ends-map W Q P undefined q h = q

pub Ends-returns {ℓ} :
    {A : Type ℓ} (P : A → Type 0) (m : Run A) → Ends ⊥ P m → (a : A) × ((m ≡ returns a) × P a)
Ends-returns P (returns a) h = (a, (refl, h))
Ends-returns P (fails e) h = absurd h
Ends-returns P out_of_fuel h = absurd h
Ends-returns P undefined h = absurd h
