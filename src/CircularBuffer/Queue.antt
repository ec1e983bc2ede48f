-- ===== src/CircularBuffer/Queue.antt =====
-- What a circular buffer promises its client: a first in, first out queue of at most `capacity`
-- values, oldest first, where a push on a full queue and a pop of an empty one are fatal errors.
use picolibrary.Common.{ℕ, Bool, ◌==◌, Option, none, some, List, [], ◌∷◌, ◌++◌, ltb, length}
use picolibrary.Expectation.{
  Checked, done, ◌>>=◌, ◌>>◌, expect, fatal, would_overflow, would_underflow,
}

-- The calls that change a buffer.
pub data Call {ℓ} (A : Type ℓ) : Type ℓ where
  push_call : A → Call A
  pop_call clear_call : Call A

-- What a client sees between two calls. It reads `front()` and `back()` only where there is an
-- element.
pub record Observation {ℓ} (A : Type ℓ) : Type ℓ where
  pub size : ℕ
  pub is_empty : Bool
  pub is_full : Bool
  pub oldest : Option A
  pub newest : Option A

module _ {ℓ} {A : Type ℓ} where
  unfoldable pub last : List A → Option A
  last [] = none
  last (x ∷ []) = some x
  last (x ∷ y ∷ values) = last (y ∷ values)

  unfoldable pub head : List A → Option A
  head [] = none
  head (x ∷ values) = some x

  unfoldable pub push_value : ℕ → List A → A → Checked (List A)
  push_value capacity values x = do
    expect (ltb (length values) capacity) would_overflow
    done (values ++ (x ∷ []))

  unfoldable pub pop_value : List A → Checked (List A)
  pop_value [] = fatal would_underflow
  pop_value (x ∷ values) = done values

  unfoldable pub observe_queue : ℕ → List A → Observation A
  unfolding head last
  observe_queue capacity values = record {
    size = length values;
    is_empty = length values == 0;
    is_full = length values == capacity;
    oldest = head values;
    newest = last values;
  }

  unfoldable pub call_queue : ℕ → List A → Call A → Checked (List A)
  unfolding push_value pop_value
  call_queue capacity values (push_call x) = push_value capacity values x
  call_queue capacity values pop_call = pop_value values
  call_queue capacity values clear_call = done []

  -- The observations before each call and after the last one, or the fatal error that ends the
  -- run.
  unfoldable pub run_queue : ℕ → List (Call A) → List A → Checked (List (Observation A))
  unfolding call_queue observe_queue
  run_queue capacity [] values = done (observe_queue capacity values ∷ [])
  run_queue capacity (call ∷ calls) values = call_queue capacity values call >>= λ next.
      run_queue capacity calls next >>= λ seen. done (observe_queue capacity values ∷ seen)
