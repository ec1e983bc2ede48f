-- ===== src/Algorithm/Tests.antt =====
-- Two arrays of three bytes.
use picolibrary.Common.{ℕ, List, [], ◌∷◌, ◌≡◌, ◌↔◌, true, refl}
use picolibrary.Algorithm.{equal, equal_iff}

abbrev left : List ℕ
left = 1 ∷ 2 ∷ 3 ∷ []

abbrev right : List ℕ
right = 1 ∷ 2 ∷ 4 ∷ []

equal_iff_example : (equal left right ≡ true) ↔ (left ≡ right)
equal_iff_example = equal_iff left right refl
