-- ===== src/Debounce/Multiple/Ring.antt =====
-- The array of samples as a ring: from the index on and then up to it, it has the newest samples, the
-- oldest first.
use native.Mathlib.Nat.{mod-eq_of_lt, mod_self}
use mathlib.Core.List.{append_assoc, append-nil, reverse, reverse-append, reverse-cons}
use picolibrary.Common.{
  ℕ, zero, suc, ◌+◌, ◌%◌, ◌≡◌, refl, sym, ap, ◌∙◌, List, [], ◌∷◌, ◌++◌, length, length-append,
  length-replicate, set, replicate, arith,
}
use picolibrary.Common.Appends.{set-append, replicate-snoc, length-snoc, snoc-append}

-- `oldest` is the next sample to be overwritten; `trail` is what the history has before the samples.
pub record Ring (samples : ℕ) (sampled : List ℕ) (i : ℕ) (history : List ℕ) : Type 0 where
  pub before : List ℕ
  pub after : List ℕ
  pub trail : List ℕ
  pub oldest : ℕ
  pub laid : sampled ≡ before ++ (oldest ∷ after)
  pub index : i ≡ length before
  pub count : length before + suc (length after) ≡ samples
  pub recent : history ≡ reverse (oldest ∷ (after ++ before)) ++ trail

reverse-replicate : (n x : ℕ) → reverse (replicate n x) ≡ replicate n x
reverse-replicate zero x = refl
reverse-replicate (suc n) x =
    reverse-cons x (replicate n x)
    ∙ ap (λ t. t ++ (x ∷ [])) (reverse-replicate n x)
    ∙ replicate-snoc n x []
    ∙ ap (λ t. x ∷ t) (append-nil (replicate n x))

pub new-Ring :
    (n initial : ℕ) → Ring (suc n) (replicate (suc n) initial) 0 (replicate (suc n) initial)
new-Ring n initial = record {
  before = [];
  after = replicate n initial;
  trail = [];
  oldest = initial;
  laid = refl;
  index = refl;
  count = omega (arith, length-replicate n initial);
  recent =
      sym (reverse-replicate (suc n) initial)
      ∙ ap (λ t. reverse (initial ∷ t)) (sym (append-nil (replicate n initial)))
      ∙ sym (append-nil (reverse (initial ∷ (replicate n initial ++ []))));
}

-- The newest sample takes the place of the oldest.
recent_next :
    (x oldest : ℕ) (rest trail history : List ℕ)
    → history ≡ reverse (oldest ∷ rest) ++ trail
    → x ∷ history ≡ reverse (rest ++ (x ∷ [])) ++ (oldest ∷ trail)
recent_next x oldest rest trail history e =
    ap (λ t. x ∷ t)
      (e
        ∙ ap (λ t. t ++ trail) (reverse-cons oldest rest)
        ∙ append_assoc (reverse rest) (oldest ∷ []) trail)
    ∙ ap (λ t. t ++ (oldest ∷ trail)) (sym (reverse-append rest (x ∷ [])))

next-Ring :
    (samples : ℕ) (after before trail : List ℕ) (oldest x : ℕ) (sampled history : List ℕ) (i : ℕ)
    → sampled ≡ before ++ (oldest ∷ after)
    → i ≡ length before
    → length before + suc (length after) ≡ samples
    → history ≡ reverse (oldest ∷ (after ++ before)) ++ trail
    → Ring samples (set sampled i x) ((i + 1) % samples) (x ∷ history)
next-Ring samples [] [] trail oldest x sampled history i laid index count recent = record {
  before = [];
  after = [];
  trail = oldest ∷ trail;
  oldest = x;
  laid = ap (λ t. set t i x) laid ∙ set-append [] oldest [] i x index;
  index =
      let whole : i + 1 ≡ samples = omega arith in ap (λ k. k % samples) whole ∙ mod_self samples;
  count = count;
  recent = recent_next x oldest [] trail history recent;
}
next-Ring samples [] (y ∷ ys) trail oldest x sampled history i laid index count recent = record {
  before = [];
  after = ys ++ (x ∷ []);
  trail = oldest ∷ trail;
  oldest = y;
  laid = ap (λ t. set t i x) laid ∙ set-append (y ∷ ys) oldest [] i x index;
  index =
      let whole : i + 1 ≡ samples = omega arith in ap (λ k. k % samples) whole ∙ mod_self samples;
  count = omega (arith, length-append ys (x ∷ []));
  recent =
      recent_next x oldest (y ∷ ys) trail history recent
      ∙ ap (λ t. reverse (y ∷ t) ++ (oldest ∷ trail)) (sym (append-nil (ys ++ (x ∷ []))));
}
next-Ring samples (y ∷ after) before trail oldest x sampled history i laid index count recent =
    record {
      before = before ++ (x ∷ []);
      after = after;
      trail = oldest ∷ trail;
      oldest = y;
      laid =
          ap (λ t. set t i x) laid
          ∙ set-append before oldest (y ∷ after) i x index
          ∙ snoc-append before x (y ∷ after);
      index = mod-eq_of_lt (omega arith) ∙ omega (arith, length-snoc before x);
      count = omega (arith, length-snoc before x);
      recent =
          recent_next x oldest ((y ∷ after) ++ before) trail history recent
          ∙ ap (λ t. reverse t ++ (oldest ∷ trail)) (append_assoc (y ∷ after) before (x ∷ []));
    }

pub set-Ring :
    (samples : ℕ) (sampled history : List ℕ) (i x : ℕ)
    → Ring samples sampled i history
    → Ring samples (set sampled i x) ((i + 1) % samples) (x ∷ history)
set-Ring samples sampled history i x r =
    next-Ring samples r.after r.before r.trail r.oldest x sampled history i r.laid r.index r.count
      r.recent
