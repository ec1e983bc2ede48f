-- ===== src/Common/Appends.antt =====
-- Lists in parts: what is at a place, the last element, and copies of an element.
use mathlib.Core.List.{append_assoc}
use picolibrary.Common.{
  ℕ, zero, suc, ◌+◌, ◌≤◌, ◌≡◌, refl, sym, ap, List, [], ◌∷◌, ◌++◌, length, get_or, set, replicate,
  take, drop, arith,
}

module _ {ℓ} {A : Type ℓ} where
  pub set-append :
      (first : List A) (x : A) (rest : List A) (i : ℕ) (v : A)
      → i ≡ length first
      → set (first ++ (x ∷ rest)) i v ≡ first ++ (v ∷ rest)
  set-append [] x rest zero v e = refl
  set-append [] x rest (suc i) v e = absurd (omega arith)
  set-append (y ∷ first) x rest zero v e = absurd (omega arith)
  set-append (y ∷ first) x rest (suc i) v e =
      ap (λ t. y ∷ t) (set-append first x rest i v (omega arith))

  pub get_or-append :
      (first : List A) (x : A) (rest : List A) (i : ℕ) (d : A)
      → i ≡ length first
      → get_or (first ++ (x ∷ rest)) i d ≡ x
  get_or-append [] x rest zero d e = refl
  get_or-append [] x rest (suc i) d e = absurd (omega arith)
  get_or-append (y ∷ first) x rest zero d e = absurd (omega arith)
  get_or-append (y ∷ first) x rest (suc i) d e = get_or-append first x rest i d (omega arith)

  pub replicate-snoc :
      (n : ℕ) (a : A) (rest : List A) → replicate n a ++ (a ∷ rest) ≡ a ∷ (replicate n a ++ rest)
  replicate-snoc zero a rest = refl
  replicate-snoc (suc n) a rest = ap (λ t. a ∷ t) (replicate-snoc n a rest)

  pub replicate-append :
      (m n k : ℕ) (a : A) → k ≡ m + n → replicate m a ++ replicate n a ≡ replicate k a
  replicate-append zero n k a e = let same : n ≡ k = omega arith in ap (λ i. replicate i a) same
  replicate-append (suc m) n zero a e = absurd (omega arith)
  replicate-append (suc m) n (suc k) a e = ap (λ t. a ∷ t) (replicate-append m n k a (omega arith))

  pub length-snoc : (first : List A) (x : A) → suc (length first) ≡ length (first ++ (x ∷ []))
  length-snoc [] x = refl
  length-snoc (y ∷ first) x = ap suc (length-snoc first x)

  pub snoc-append :
      (first : List A) (x : A) (rest : List A) → first ++ (x ∷ rest) ≡ (first ++ (x ∷ [])) ++ rest
  snoc-append first x rest = sym (append_assoc first (x ∷ []) rest)

  -- A list that is not empty ends in an element.
  pub unsnoc :
      (xs : List A) (n : ℕ)
      → length xs ≡ suc n
      → (ys : List A) × ((x : A) × ((xs ≡ ys ++ (x ∷ [])) × (length ys ≡ n)))
  unsnoc [] n e = absurd (omega arith)
  unsnoc (x ∷ []) n e = ([], (x, (refl, omega arith)))
  unsnoc (x ∷ y ∷ xs) zero e = absurd (omega arith)
  unsnoc (x ∷ y ∷ xs) (suc n) e =
      let (ys, (z, (p, l))) = unsnoc (y ∷ xs) n (omega arith) in
      (x ∷ ys, (z, (ap (λ t. x ∷ t) p, ap suc l)))

  pub take-snoc :
      (xs : List A) (x : A) (n : ℕ) → n ≤ length xs → take n (xs ++ (x ∷ [])) ≡ take n xs
  take-snoc xs x zero h = refl
  take-snoc [] x (suc n) h = absurd (omega arith)
  take-snoc (y ∷ xs) x (suc n) h = ap (λ t. y ∷ t) (take-snoc xs x n (omega arith))

  pub drop-snoc :
      (xs : List A) (x : A) (n : ℕ)
      → n ≤ length xs
      → drop n (xs ++ (x ∷ [])) ≡ drop n xs ++ (x ∷ [])
  drop-snoc xs x zero h = refl
  drop-snoc [] x (suc n) h = absurd (omega arith)
  drop-snoc (y ∷ xs) x (suc n) h = drop-snoc xs x n (omega arith)

  pub take_all : (xs : List A) (n : ℕ) → length xs ≤ n → take n xs ≡ xs
  take_all [] zero h = refl
  take_all [] (suc n) h = refl
  take_all (x ∷ xs) zero h = absurd (omega arith)
  take_all (x ∷ xs) (suc n) h = ap (λ t. x ∷ t) (take_all xs n (omega arith))

  pub drop_all : (xs : List A) (n : ℕ) → length xs ≤ n → drop n xs ≡ []
  drop_all [] zero h = refl
  drop_all [] (suc n) h = refl
  drop_all (x ∷ xs) zero h = absurd (omega arith)
  drop_all (x ∷ xs) (suc n) h = drop_all xs n (omega arith)
