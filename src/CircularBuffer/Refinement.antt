-- ===== src/CircularBuffer/Refinement.antt =====
-- The circular buffer against the bounded queue, one call at a time and over runs of calls.
use native.Mathlib.Decide.{dec_lt}
use picolibrary.Common.{
  ℕ, suc, ◌<◌, ◌≡◌, refl, sym, ap, subst, ◌∙◌, false, ◌==◌, if◌then◌else◌, none, some, List, [],
  ◌∷◌, ◌++◌, length, arith,
}
use picolibrary.Expectation.{
  Checked, done, fatal, ◌>>=◌, would_overflow, would_underflow, GenericError,
}
use picolibrary.CircularBuffer.{
  CircularBuffer, new_buffer, front, back, empty, full, push_bypass, push, pop_bypass, pop, clear,
}
use picolibrary.CircularBuffer.Queue.{
  Call, push_call, pop_call, clear_call, Observation, head, last, push_value, pop_value,
  observe_queue, call_queue, run_queue,
}
use picolibrary.CircularBuffer.Represents.{
  IsCapacity, Represents, new_buffer-Represents, push_bypass-Represents, pop_bypass-Represents,
  clear-Represents, front-eq, back-eq,
}

suc-ne-zero_test : (n : ℕ) → (suc n == 0) ≡ false
suc-ne-zero_test n = ground arith

module _ {ℓ} {A : Type ℓ} (digits capacity : ℕ) where
  unfoldable pub call_buffer : CircularBuffer A → Call A → Checked (CircularBuffer A)
  call_buffer b (push_call x) = push digits capacity b x
  call_buffer b pop_call = pop digits capacity b
  call_buffer b clear_call = done (clear digits capacity b)

  unfoldable pub observe_buffer : CircularBuffer A → Observation A
  observe_buffer b = record {
    size = b.m_size;
    is_empty = empty digits capacity b;
    is_full = full digits capacity b;
    oldest = if empty digits capacity b then none else front digits capacity b;
    newest = if empty digits capacity b then none else back digits capacity b;
  }

  unfoldable pub run_buffer : List (Call A) → CircularBuffer A → Checked (List (Observation A))
  unfolding call_buffer observe_buffer
  run_buffer [] b = done (observe_buffer b ∷ [])
  run_buffer (call ∷ calls) b = call_buffer b call >>= λ next.
      run_buffer calls next >>= λ seen. done (observe_buffer b ∷ seen)

  -- A call of the buffer and the queue's: the same fatal error, or results that still agree.
  pub data Agrees : Checked (CircularBuffer A) → Checked (List A) → Type ℓ where
    both_done :
        {b : CircularBuffer A} {values : List A}
        → Represents capacity b values
        → Agrees (done b) (done values)
    both_fatal : (e : GenericError) → Agrees (fatal e) (fatal e)

  bind-eq {κ} :
      {B : Type κ} {m : Checked (CircularBuffer A)} {n : Checked (List A)}
      {f : CircularBuffer A → Checked B} {g : List A → Checked B}
      → Agrees m n
      → ((b : CircularBuffer A) (values : List A) → Represents capacity b values → f b ≡ g values)
      → (m >>= f) ≡ (n >>= g)
  bind-eq (both_done {b = b} {values = values} r) h = h b values r
  bind-eq (both_fatal e) h = refl

  module _ (c : IsCapacity digits capacity) where
    split_last :
        (x : A) (values : List A)
        → (init : List A) × (y : A) × (x ∷ values ≡ init ++ (y ∷ [])) × (last (x ∷ values) ≡ some y)
    unfolding last
    split_last x [] = ([], x, refl, refl)
    split_last x (y ∷ values) =
        let (init, z, e, l) = split_last y values in (x ∷ init, z, ap (λ t. x ∷ t) e, l)

    push_room :
        (b : CircularBuffer A) (values : List A) (x : A)
        → Represents capacity b values
        → length values < capacity
        → (push digits capacity b x ≡ done (push_bypass digits capacity b x))
          × (push_value capacity values x ≡ done (values ++ (x ∷ [])))
    unfolding push full push_value
    push_room b values x r h = let e = r.size_is in ground arith

    push_overflow :
        (b : CircularBuffer A) (values : List A) (x : A)
        → Represents capacity b values
        → ¬ (length values < capacity)
        → (push digits capacity b x ≡ fatal would_overflow)
          × (push_value capacity values x ≡ fatal would_overflow)
    unfolding push full push_value
    push_overflow b values x r h = let e = r.size_is in ground arith

    pop_underflow :
        (b : CircularBuffer A) → b.m_size ≡ 0 → pop digits capacity b ≡ fatal would_underflow
    unfolding pop empty
    pop_underflow b e = ground arith

    pop_some :
        (b : CircularBuffer A)
        → 0 < b.m_size
        → pop digits capacity b ≡ done (pop_bypass digits capacity b)
    unfolding pop empty
    pop_some b h = ground arith

    push-Agrees :
        (b : CircularBuffer A) (values : List A) (x : A)
        → Represents capacity b values
        → Agrees (push digits capacity b x) (push_value capacity values x)
    push-Agrees b values x r = elim (dec_lt (length values) capacity) [
      | yes h ↦
          let (p, q) = push_room b values x r h in
          rw (p, q) (both_done (push_bypass-Represents digits capacity c b values x r h))
      | no h ↦ let (p, q) = push_overflow b values x r h in rw (p, q) (both_fatal would_overflow)
    ]

    pop-Agrees :
        (b : CircularBuffer A) (values : List A)
        → Represents capacity b values
        → Agrees (pop digits capacity b) (pop_value values)
    unfolding pop_value
    pop-Agrees b [] r = rw (pop_underflow b r.size_is) (both_fatal would_underflow)
    pop-Agrees b (x ∷ values) r =
        rw (pop_some b (omega (arith, r.size_is)))
          (both_done (pop_bypass-Represents digits capacity c b x values r))

    -- For a capacity that is a power of two and a value of the size type, each call on a buffer
    -- that represents a sequence of values does what the queue's call does: the same fatal error,
    -- or a buffer that represents the queue's next sequence.
    pub call-Agrees :
        (b : CircularBuffer A) (values : List A) (call : Call A)
        → Represents capacity b values
        → Agrees (call_buffer b call) (call_queue capacity values call)
    unfolding call_buffer call_queue
    call-Agrees b values (push_call x) r = push-Agrees b values x r
    call-Agrees b values pop_call r = pop-Agrees b values r
    call-Agrees b values clear_call r = both_done (clear-Represents digits capacity c b values r)

    ends_some :
        (b : CircularBuffer A) (x : A) (values : List A)
        → Represents capacity b (x ∷ values)
        → (front digits capacity b ≡ head (x ∷ values))
          × (back digits capacity b ≡ last (x ∷ values))
    unfolding head
    ends_some b x values r =
        let (init, y, e, l) = split_last x values in
        (
          front-eq digits capacity c b x values r,
          back-eq digits capacity c b init y (subst (λ t. Represents capacity b t) e r) ∙ sym l,
        )

    observe-eq :
        (b : CircularBuffer A) (values : List A)
        → Represents capacity b values
        → observe_buffer b ≡ observe_queue capacity values
    unfolding observe_buffer observe_queue empty full head last
    observe-eq b [] r = rw r.size_is refl
    observe-eq b (x ∷ values) r =
        let (f, l) = ends_some b x values r in
        rw (f, l, r.size_is, suc-ne-zero_test (length values)) refl

    run_from :
        (calls : List (Call A)) (b : CircularBuffer A) (values : List A)
        → Represents capacity b values
        → run_buffer calls b ≡ run_queue capacity calls values
    unfolding run_buffer run_queue
    run_from [] b values r = rw (observe-eq b values r) refl
    run_from (call ∷ calls) b values r = rw (observe-eq b values r) (
        bind-eq (call-Agrees b values call r) (λ next rest agree.
          ap (λ m. m >>= λ seen. done (observe_queue capacity values ∷ seen))
            (run_from calls next rest agree)))

    -- For a capacity that is a power of two and a value of the size type, and any sequence of
    -- pushes, pops and clears from a new buffer on, a client sees what the bounded queue shows it:
    -- the same sizes, the same answers of `empty` and `full`, the same front and back elements
    -- where there are any, and the same fatal error where a call has one.
    pub run_buffer-eq-run_queue :
        (calls : List (Call A))
        → run_buffer calls (new_buffer digits capacity) ≡ run_queue capacity calls []
    run_buffer-eq-run_queue calls =
        run_from calls (new_buffer digits capacity) [] (new_buffer-Represents digits capacity c)
